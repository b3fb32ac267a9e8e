-- ===== src/Structural/Operations.antt =====
-- apps/api/src/structural-ops/structural-ops.service.ts: REPARENT, PROMOTE, DEMOTE and DELETE. Each
-- takes the database inside the caller's transaction and returns its event with the new database.
pub mod Reparenting
pub mod Deleting
use ecm_management.Base.{
  ℕ, Bool, true, false, ◌||◌, Option, none, some, List, [], ◌∷◌, if◌then◌else◌, ◌==◌, ltb, length,
  find_first, update_many, delete_many,
}
use ecm_management.Schema.{
  Uuid, ActorId, Time, Capability, CapabilityType, CapabilityVersionChangeType, OperationPayload,
  object, not_an_object, DateText, Snapshot, DomainEvent, capability_reparented,
  capability_promoted, capability_demoted, capability_deleted, EventEnvelope, Db, is_leaf, is_draft,
  Error, payload_not_an_object, capability_not_found, target_parent_not_found, own_parent,
  already_abstract, already_leaf, has_children, ChangeRequestType, single_target_required,
  deletion_not_permitted, Result, ok, err, ◌>>=◌, ◌>>◌, or_fail,
}
use ecm_management.Structural.Hierarchy.{find_capability, count_children, assert_not_descendant}
use ecm_management.Structural.History.{snapshot_of, record_change}

-- The keys of a payload that the operations read; all absent if there is no payload.
pub record Payload : Type 0 where
  pub new_parent_id : Option Uuid
  pub survivor_capability_id : Option Uuid
  pub effective_to : Option DateText

unfoldable pub parse_payload : Option OperationPayload → Uuid → Result Payload
parse_payload none change_request_id =
    ok (record { new_parent_id = none; survivor_capability_id = none; effective_to = none })
parse_payload (some not_an_object) change_request_id = err (payload_not_an_object change_request_id)
parse_payload (some (object parent survivor effective_to)) change_request_id = ok (record {
  new_parent_id = parent;
  survivor_capability_id = survivor;
  effective_to = effective_to;
})

unfoldable pub envelope : DomainEvent → Uuid → ActorId → Time → EventEnvelope
envelope event change_request_id actor_id now = record {
  event = event;
  change_request_id = change_request_id;
  actor_id = actor_id;
  occurred_at = now;
}

-- findUnique as a snapshot.
unfoldable pub snapshot_at : Uuid → Db → Option Snapshot
snapshot_at id db = elim (find_capability id db.capabilities) [
  | none ↦ none
  | some c ↦ some (snapshot_of c)
]

-- capability.update({ where: { id }, data })
unfoldable pub update_capability : Uuid → (Capability → Capability) → Db → Db
update_capability id f db = record db {
  capabilities = update_many (λ c. c.id == id) f db.capabilities;
}

-- Snapshot, update, snapshot, and the entry in the history.
unfoldable pub change_capability :
    Uuid → CapabilityVersionChangeType → (Capability → Capability) → ActorId → Time → Db → Db
unfolding update_capability
change_capability id change_type f actor_id now db =
    let db' = update_capability id f db in
    record_change id change_type (snapshot_at id db) (snapshot_at id db') actor_id now db'

unfoldable pub assert_parent : Uuid → Option Uuid → List Capability → Result (Unit {0})
assert_parent capability_id none capabilities = ok tt
assert_parent capability_id (some parent) capabilities =
    if parent == capability_id
    then err own_parent
    else or_fail (find_capability parent capabilities) (target_parent_not_found parent) >>= λ _.
        assert_not_descendant capability_id parent capabilities

unfoldable pub apply_reparent :
    Uuid → Uuid → Option OperationPayload → ActorId → Time → Db → Result (EventEnvelope × Db)
unfolding parse_payload assert_parent
apply_reparent change_request_id capability_id raw_payload actor_id now db = do
  payload ← parse_payload raw_payload change_request_id
  capability ←
      or_fail (find_capability capability_id db.capabilities) (capability_not_found capability_id)
  assert_parent capability_id payload.new_parent_id db.capabilities
  ok (
    envelope (capability_reparented capability_id capability.parent_id payload.new_parent_id)
        change_request_id actor_id now,
    change_capability capability_id CapabilityVersionChangeType.reparent
        (λ c. record c { parent_id = payload.new_parent_id }) actor_id now db,
  )

unfoldable pub apply_promote : Uuid → Uuid → ActorId → Time → Db → Result (EventEnvelope × Db)
apply_promote change_request_id capability_id actor_id now db = do
  capability ←
      or_fail (find_capability capability_id db.capabilities) (capability_not_found capability_id)
  if is_leaf capability.type then ok tt else err (already_abstract capability_id)
  ok (
    envelope (capability_promoted capability_id) change_request_id actor_id now,
    change_capability capability_id CapabilityVersionChangeType.promote
        (λ c. record c { type = CapabilityType.abstract }) actor_id now db,
  )

abbrev no_children : Uuid → List Capability → Result (Unit {0})
no_children id capabilities =
    if ltb 0 (count_children id capabilities)
    then err (has_children id (count_children id capabilities))
    else ok tt

unfoldable pub apply_demote : Uuid → Uuid → ActorId → Time → Db → Result (EventEnvelope × Db)
apply_demote change_request_id capability_id actor_id now db = do
  capability ←
      or_fail (find_capability capability_id db.capabilities) (capability_not_found capability_id)
  if is_leaf capability.type then err (already_leaf capability_id) else ok tt
  no_children capability_id db.capabilities
  ok (
    envelope (capability_demoted capability_id) change_request_id actor_id now,
    change_capability capability_id CapabilityVersionChangeType.demote
        (λ c. record c { type = CapabilityType.leaf }) actor_id now db,
  )

-- The four deletes, in the order that the foreign keys want.
unfoldable pub remove_capability : Uuid → Db → Db
remove_capability capability_id db = record db {
  capability_versions = delete_many (λ v. v.capability_id == capability_id) db.capability_versions;
  capability_locks = delete_many (λ l. l.capability_id == capability_id) db.capability_locks;
  mappings = delete_many (λ m. m.capability_id == capability_id) db.mappings;
  capabilities = delete_many (λ c. c.id == capability_id) db.capabilities;
}

unfoldable pub delete_one : Uuid → Uuid → ActorId → Time → Db → Result (EventEnvelope × Db)
unfolding remove_capability
delete_one change_request_id capability_id actor_id now db = do
  capability ←
      or_fail (find_capability capability_id db.capabilities) (capability_not_found capability_id)
  if is_draft capability.lifecycle_status || capability.is_erroneous
      then ok tt
      else err (deletion_not_permitted capability_id capability.lifecycle_status)
  no_children capability_id db.capabilities
  ok (
    envelope (capability_deleted capability_id) change_request_id actor_id now,
    remove_capability capability_id db,
  )

-- DELETE wants exactly one capability.
unfoldable pub apply_delete : Uuid → List Uuid → ActorId → Time → Db → Result (EventEnvelope × Db)
unfolding delete_one
apply_delete change_request_id (capability_id ∷ []) actor_id now db =
    delete_one change_request_id capability_id actor_id now db
apply_delete change_request_id [] actor_id now db =
    err (single_target_required ChangeRequestType.delete 0)
apply_delete change_request_id (a ∷ b ∷ rest) actor_id now db =
    err (single_target_required ChangeRequestType.delete (length (a ∷ b ∷ rest)))
