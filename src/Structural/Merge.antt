-- ===== src/Structural/Merge.antt =====
-- apps/api/src/structural-ops/structural-ops.service.ts: MERGE. Sets are lists in insertion order.
pub mod Merging
use ecm_management.Base.{
  ℕ, ◌+◌, Bool, true, false, not, Option, none, some, List, [], ◌∷◌, ◌++◌, map, String,
  if◌then◌else◌, ◌==◌, length, select, count, elem, find_first, update_many,
}
use ecm_management.Schema.{
  Uuid, ActorId, Time, Rationale, Capability, Mapping, LifecycleStatus, CapabilityVersionChangeType,
  OperationPayload, DomainEvent, capability_merged, EventEnvelope, Db, is_retired, survivor_missing,
  no_distinct_source, survivor_not_found, survivor_retired, sources_not_found, Result, ok, err,
  ◌>>=◌, ◌>>◌, or_fail,
}
use ecm_management.Structural.Hierarchy.{
  find_capability, has_parent, count_children, assert_not_descendant,
}
use ecm_management.Structural.History.{elem_text}
use ecm_management.Structural.Operations.{parse_payload, envelope, change_capability}

-- `Set.add`, and `new Set(...)` for an empty set.
unfoldable pub add_text : String → List String → List String
add_text t set = if elem_text t set then set else set ++ t ∷ []

unfoldable pub add_texts : List String → List String → List String
add_texts [] set = set
add_texts (t ∷ ts) set = add_texts ts (add_text t set)

-- capability.updateMany({ where: { parentId: source }, data: { parentId: survivor } })
unfoldable pub move_children : Uuid → Uuid → List Capability → List Capability
move_children source survivor =
    update_many (has_parent source) (λ c. record c { parent_id = some survivor })

-- mapping.updateMany({ where: { capabilityId: source }, data: { capabilityId: survivor } })
unfoldable pub move_mappings : Uuid → Uuid → List Mapping → List Mapping
move_mappings source survivor =
    update_many (λ m. m.capability_id == source) (λ m. record m { capability_id = survivor })

-- What the loop over the sources carries along.
pub record MergeState : Type 0 where
  pub db : Db
  pub transferred_child_count : ℕ
  pub transferred_mapping_count : ℕ
  pub merged_aliases : List String
  pub merged_tags : List String
  pub merged_source_refs : List String

unfoldable pub retire_into : Uuid → Uuid → Time → Capability → Capability
retire_into survivor change_request_id now c = record c {
  lifecycle_status = LifecycleStatus.retired;
  effective_to = some now;
  rationale = some (Rationale.merged_into survivor change_request_id);
}

-- One round. `source` is the row as it was read before the loop.
unfoldable pub merge_source : Uuid → Uuid → ActorId → Time → Capability → MergeState → MergeState
merge_source change_request_id survivor actor_id now source s = record {
  db =
      change_capability source.id CapabilityVersionChangeType.merge
        (retire_into survivor change_request_id now) actor_id now
        (record s.db {
          capabilities = move_children source.id survivor s.db.capabilities;
          mappings = move_mappings source.id survivor s.db.mappings;
        });
  transferred_child_count = s.transferred_child_count + count_children source.id s.db.capabilities;
  transferred_mapping_count =
      s.transferred_mapping_count + count (λ m. m.capability_id == source.id) s.db.mappings;
  merged_aliases = add_texts source.aliases s.merged_aliases;
  merged_tags = add_texts source.tags s.merged_tags;
  merged_source_refs = add_texts source.source_references s.merged_source_refs;
}

unfoldable pub merge_sources :
    Uuid → Uuid → ActorId → Time → List Capability → MergeState → MergeState
merge_sources change_request_id survivor actor_id now [] s = s
merge_sources change_request_id survivor actor_id now (source ∷ rest) s =
    merge_sources change_request_id survivor actor_id now rest
      (merge_source change_request_id survivor actor_id now source s)

unfoldable pub start_merge : Capability → Db → MergeState
start_merge survivor db = record {
  db = db;
  transferred_child_count = 0;
  transferred_mapping_count = 0;
  merged_aliases = add_texts survivor.aliases [];
  merged_tags = add_texts survivor.tags [];
  merged_source_refs = add_texts survivor.source_references [];
}

-- The survivor gets the merged metadata, with an entry of its own in the history.
unfoldable pub finish_merge : Uuid → ActorId → Time → MergeState → Db
finish_merge survivor actor_id now s =
    change_capability survivor CapabilityVersionChangeType.merge
      (λ c. record c {
        aliases = s.merged_aliases;
        tags = s.merged_tags;
        source_references = s.merged_source_refs;
      })
      actor_id now s.db

-- The guard loop: no source may be an ancestor of the survivor.
unfoldable pub assert_no_source_above : List Capability → Uuid → List Capability → Result (Unit {0})
assert_no_source_above [] survivor capabilities = ok tt
assert_no_source_above (source ∷ rest) survivor capabilities =
    assert_not_descendant source.id survivor capabilities >>= λ _.
    assert_no_source_above rest survivor capabilities

unfoldable pub ids : List Capability → List Uuid
ids = map λ c. c.id

abbrev pub all_found : List Uuid → List Uuid → Result (Unit {0})
all_found [] missing = ok tt
all_found (a ∷ rest) missing = err (sources_not_found missing)

-- findMany({ where: { id: { in: wanted } } }), in the order of the table.
unfoldable pub find_capabilities : List Uuid → List Capability → List Capability
find_capabilities wanted = select (λ c. elem c.id wanted)

-- The ids that a query did not find.
unfoldable pub missing : List Uuid → List Capability → List Uuid
missing wanted found = select (λ id. not (elem id (ids found))) wanted

abbrev at_least_one : List Uuid → Result (Unit {0})
at_least_one [] = err no_distinct_source
at_least_one (a ∷ rest) = ok tt

-- From the survivor's id on.
unfoldable pub merge_into :
    Uuid → List Uuid → Uuid → ActorId → Time → Db → Result (EventEnvelope × Db)
merge_into change_request_id affected survivor_id actor_id now db = do
  let source_ids = select (λ id. not (id == survivor_id)) affected
  at_least_one source_ids
  survivor ← or_fail (find_capability survivor_id db.capabilities) (survivor_not_found survivor_id)
  if is_retired survivor.lifecycle_status then err (survivor_retired survivor_id) else ok tt
  let sources = find_capabilities source_ids db.capabilities
  all_found (missing source_ids sources) (missing source_ids sources)
  assert_no_source_above sources survivor_id db.capabilities
  let s = merge_sources change_request_id survivor_id actor_id now sources (start_merge survivor db)
  ok (
    envelope
        (capability_merged survivor_id source_ids s.transferred_child_count
          s.transferred_mapping_count)
        change_request_id actor_id now,
    finish_merge survivor_id actor_id now s,
  )

unfoldable pub apply_merge :
    Uuid → List Uuid → Option OperationPayload → ActorId → Time → Db → Result (EventEnvelope × Db)
unfolding parse_payload
apply_merge change_request_id affected raw_payload actor_id now db = do
  payload ← parse_payload raw_payload change_request_id
  survivor_id ← or_fail payload.survivor_capability_id (survivor_missing change_request_id)
  merge_into change_request_id affected survivor_id actor_id now db
