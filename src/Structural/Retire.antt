-- ===== src/Structural/Retire.antt =====
-- apps/api/src/structural-ops/structural-ops.service.ts: RETIRE.
pub mod Retiring
use ecm_management.Base.{
  Bool, false, ◌&&◌, Option, none, some, List, [], ◌∷◌, map, if◌then◌else◌, ltb, select, count,
  elem, update_many,
}
use ecm_management.Schema.{
  Uuid, ActorId, Time, Capability, Mapping, LifecycleStatus, MappingState, Snapshot, uuid, text,
  CapabilityVersionChangeType, OperationPayload, DateText, instant, invalid_date,
  capability_retired, EventEnvelope, Db, is_retired, is_active, capabilities_not_found,
  already_retired, retiring_with_children, invalid_effective_to, Result, ok, err, ◌>>=◌, ◌>>◌,
}
use ecm_management.Structural.Hierarchy.{find_capability}
use ecm_management.Structural.History.{lifecycle_text, record_change}
use ecm_management.Structural.Operations.{parse_payload, envelope, snapshot_at}
use ecm_management.Structural.Merge.{find_capabilities, missing, ids}

-- `new Date(payload.effectiveTo)`, or the time of the call.
unfoldable pub effective_date : Option DateText → Time → Result Time
effective_date none now = ok now
effective_date (some (instant t)) now = ok t
effective_date (some invalid_date) now = err invalid_effective_to

-- parentId: { in: affected }
unfoldable pub has_parent_in : List Uuid → Capability → Bool
has_parent_in affected c = elim c.parent_id [ none ↦ false | some p ↦ elem p affected ]

-- The row that `retireBeforeMap` holds: the two columns that the query selected.
unfoldable pub selected_columns : Capability → Snapshot
selected_columns c =
    ("id", uuid c.id) ∷ ("lifecycleStatus", text (lifecycle_text c.lifecycle_status)) ∷ []

unfoldable pub before_snapshot : Uuid → List Capability → Option Snapshot
before_snapshot id capabilities = elim (find_capability id capabilities) [
  | none ↦ none
  | some c ↦ some (selected_columns c)
]

-- The loop that records an entry for each id; `before` is what the first query read.
unfoldable pub record_retirements : List Uuid → List Capability → ActorId → Time → Db → Db
record_retirements [] before actor_id now db = db
record_retirements (id ∷ rest) before actor_id now db =
    record_retirements rest before actor_id now (
      record_change id CapabilityVersionChangeType.retire (before_snapshot id before)
        (snapshot_at id db) actor_id now db)

unfoldable pub set_retired : Time → Capability → Capability
set_retired effective_to c = record c {
  lifecycle_status = LifecycleStatus.retired;
  effective_to = some effective_to;
}

unfoldable pub retire_rows : List Uuid → Time → List Capability → List Capability
unfolding set_retired
retire_rows affected effective_to = update_many (λ c. elem c.id affected) (set_retired effective_to)

-- The ids of the ACTIVE mappings of the retired capabilities.
unfoldable pub flagged_mappings : List Uuid → List Mapping → List Uuid
flagged_mappings affected mappings =
    map (λ m. m.id) (select (λ m. elem m.capability_id affected && is_active m.state) mappings)

unfoldable pub deactivate : List Uuid → List Mapping → List Mapping
deactivate flagged =
    update_many (λ m. elem m.id flagged) (λ m. record m { state = MappingState.inactive })

abbrev none_missing : List Uuid → Result (Unit {0})
none_missing [] = ok tt
none_missing (a ∷ rest) = err (capabilities_not_found (a ∷ rest))

abbrev none_retired : List Uuid → Result (Unit {0})
none_retired [] = ok tt
none_retired (a ∷ rest) = err (already_retired (a ∷ rest))

-- The writes, after every check has passed.
unfoldable pub retire_all : List Uuid → Time → ActorId → Time → Db → Db
unfolding retire_rows
retire_all affected effective_to actor_id now db =
    let db' =
      record_retirements affected (find_capabilities affected db.capabilities) actor_id now
        (record db { capabilities = retire_rows affected effective_to db.capabilities }) in
    record db' { mappings = deactivate (flagged_mappings affected db.mappings) db'.mappings }

unfoldable pub apply_retire :
    Uuid → List Uuid → Option OperationPayload → ActorId → Time → Db → Result (EventEnvelope × Db)
unfolding parse_payload effective_date
apply_retire change_request_id affected raw_payload actor_id now db = do
  payload ← parse_payload raw_payload change_request_id
  effective_to ← effective_date payload.effective_to now
  let capabilities = find_capabilities affected db.capabilities
  none_missing (missing affected capabilities)
  none_retired (ids (select (λ c. is_retired c.lifecycle_status) capabilities))
  if ltb 0 (count (has_parent_in affected) db.capabilities)
      then err retiring_with_children
      else ok tt
  ok (
    envelope (capability_retired affected (flagged_mappings affected db.mappings) effective_to)
        change_request_id actor_id now,
    retire_all affected effective_to actor_id now db,
  )
