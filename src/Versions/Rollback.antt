-- ===== src/Versions/Rollback.antt =====
-- `rollback`.
use ecm_management.Base.{
  suc, Bool, true, false, Option, none, some, List, [], ◌∷◌, String, if◌then◌else◌, ◌==◌,
  update_many,
}
use ecm_management.Schema.{
  Uuid, ActorId, Time, Capability, CapabilityVersionChangeType, ChangedField, ModelVersion,
  ModelVersionState, BranchType, VersionLabel, Snapshot, AuditAction, rolled_back_to,
  PublishEventType, rollback_ref, Db, model_version_not_found, not_a_published_version,
  draft_exists, invalid_snapshot, Result, ok, err, ◌>>=◌, ◌>>◌, or_fail,
}
use ecm_management.Structural.Hierarchy.{find_capability}
use ecm_management.Structural.History.{snapshot_of, compute_changed_fields, latest_version}
use ecm_management.Structural.Operations.{snapshot_at}
use ecm_management.Delivery.{record_model_version_event}
use ecm_management.Versions.Restore.{update_from_snapshot}
use ecm_management.Versions.States.{State, find_version, states_at}
use ecm_management.Versions.Publish.{get_current_draft, add_version, record_version_audit}

pub record RollbackDto : Type 0 where
  pub rollback_of_version_id : Uuid
  pub created_by : ActorId
  pub notes : Option String

abbrev pub was_published : ModelVersionState → Bool
was_published ModelVersionState.draft = false
was_published _ = true

unfoldable pub rollback_draft : RollbackDto → Uuid → Time → ModelVersion
rollback_draft dto id now = record {
  id = id;
  version_label = VersionLabel.rollback_draft_at now;
  state = ModelVersionState.draft;
  base_version_id = some dto.rollback_of_version_id;
  branch_type = BranchType.main;
  branch_name = none;
  description = none;
  notes = dto.notes;
  created_by = dto.created_by;
  approved_by = none;
  published_at = none;
  rollback_of_version_id = some dto.rollback_of_version_id;
  created_at = now;
}

-- The entry of one capability that is put back.
unfoldable pub restored_entry :
    Uuid → Uuid → List ChangedField → Snapshot → Option Snapshot → ActorId → Time → Db → Db
restored_entry capability_id version_id fields before after changed_by now db = record db {
  capability_versions =
      record {
        id = db.next_uuid;
        capability_id = capability_id;
        model_version_id = version_id;
        change_type = CapabilityVersionChangeType.update;
        changed_fields = fields;
        before_snapshot = some before;
        after_snapshot = after;
        changed_by = changed_by;
        changed_at = now;
        previous_version_id = latest_version capability_id db.capability_versions;
      }
      ∷ db.capability_versions;
  next_uuid = suc db.next_uuid;
}

-- A capability whose columns differ from the target.
unfoldable pub restore_changed :
    Uuid → Capability → Snapshot → List ChangedField → ActorId → Time → Db → Result Db
restore_changed version_id current target [] changed_by now db = ok db
restore_changed version_id current target (f ∷ fs) changed_by now db = do
  restored ← or_fail (update_from_snapshot target current) (invalid_snapshot current.id)
  let db' = record db {
    capabilities = update_many (λ c. c.id == current.id) (λ c. restored) db.capabilities;
  }
  ok (
      restored_entry current.id version_id (f ∷ fs) (snapshot_of current)
        (snapshot_at current.id db') changed_by now db')

-- One round of the loop over the states.
unfoldable pub restore_one : Uuid → State → ActorId → Time → Db → Result Db
restore_one version_id (capability_id, none) changed_by now db = ok db
restore_one version_id (capability_id, some target) changed_by now db =
    elim (find_capability capability_id db.capabilities) [
      | none ↦ ok db
      | some current ↦
          restore_changed version_id current target
            (compute_changed_fields (some (snapshot_of current)) (some target)) changed_by now db
    ]

unfoldable pub restore_all : Uuid → List State → ActorId → Time → Db → Result Db
restore_all version_id [] changed_by now db = ok db
restore_all version_id (s ∷ rest) changed_by now db =
    restore_one version_id s changed_by now db >>= λ db'.
    restore_all version_id rest changed_by now db'

unfoldable pub rollback : RollbackDto → Time → Db → Result (Uuid × Db)
rollback dto now db = do
  target ←
      or_fail (find_version dto.rollback_of_version_id db)
        (model_version_not_found dto.rollback_of_version_id)
  if was_published target.state
      then ok tt
      else err (not_a_published_version dto.rollback_of_version_id target.state)
  elim (get_current_draft db) [ none ↦ ok tt | some _ ↦ err draft_exists ]
  restored ←
      restore_all db.next_uuid (states_at dto.rollback_of_version_id now db) dto.created_by now
        (add_version (rollback_draft dto db.next_uuid now) db)
  ok (
    db.next_uuid,
    record_version_audit db.next_uuid AuditAction.rollback dto.created_by
        (rolled_back_to dto.rollback_of_version_id dto.notes) now
        (record_model_version_event PublishEventType.rolled_back db.next_uuid (some db.next_uuid)
          (some (rollback_ref dto.rollback_of_version_id)) none now restored),
  )
