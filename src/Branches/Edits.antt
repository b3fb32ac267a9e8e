-- ===== src/Branches/Edits.antt =====
-- `createCapabilityInBranch`, `updateCapabilityInBranch` and `deleteCapabilityInBranch`. The creation
-- answers by reading its row back, which is left out.
use ecm_management.Base.{
  or_default, suc, Bool, true, false, Option, none, some, List, [], ◌∷◌, String, if◌then◌else◌,
  str_eq, find_first,
}
use ecm_management.Schema.{
  Uuid, ActorId, Time, Rationale, Capability, CapabilityType, LifecycleStatus,
  CapabilityVersionChangeType, ChangedField, Json, Snapshot, ModelVersionState, Db,
  branch_not_writable, name_taken, Result, ok, err, ◌>>=◌, ◌>>◌,
}
use ecm_management.Structural.History.{snapshot_of, compute_changed_fields, latest_version}
use ecm_management.Branches.Lifecycle.{get_branch}
use ecm_management.Branches.Projection.{get_capability_in_branch}

abbrev pub is_draft_state : ModelVersionState → Bool
is_draft_state ModelVersionState.draft = true
is_draft_state _ = false

unfoldable pub ensure_branch_writable : Uuid → Db → Result (Unit {0})
ensure_branch_writable branch_id db = do
  branch ← get_branch branch_id db
  if is_draft_state branch.state then ok tt else err (branch_not_writable branch_id branch.state)

pub record BranchCapabilityDto : Type 0 where
  pub unique_name : String
  pub aliases : Option (List String)
  pub description : Option String
  pub domain : Option String
  pub type : Option CapabilityType
  pub parent_id : Option Uuid
  pub lifecycle_status : Option LifecycleStatus
  pub effective_from : Option Time
  pub effective_to : Option Time
  pub rationale : Option String
  pub source_references : Option (List String)
  pub tags : Option (List String)
  pub steward_id : Option String
  pub steward_department : Option String

abbrev pub as_written : Option String → Option Rationale
as_written none = none
as_written (some t) = some (Rationale.written t)

unfoldable pub branch_capability : BranchCapabilityDto → Uuid → Uuid → Time → Capability
branch_capability dto branch_id id now = record {
  id = id;
  unique_name = dto.unique_name;
  aliases = or_default [] dto.aliases;
  description = dto.description;
  domain = dto.domain;
  type = or_default CapabilityType.abstract dto.type;
  parent_id = dto.parent_id;
  lifecycle_status = or_default LifecycleStatus.draft dto.lifecycle_status;
  effective_from = dto.effective_from;
  effective_to = dto.effective_to;
  rationale = as_written dto.rationale;
  source_references = or_default [] dto.source_references;
  tags = or_default [] dto.tags;
  steward_id = dto.steward_id;
  steward_department = dto.steward_department;
  name_guardrail_override = false;
  name_guardrail_override_rationale = none;
  is_erroneous = false;
  erroneous_reason = none;
  branch_origin_id = some branch_id;
  created_at = now;
}

-- An entry of the branch's own history.
unfoldable pub add_branch_entry :
    Uuid
    → Uuid
    → CapabilityVersionChangeType
    → List ChangedField
    → Option Snapshot
    → Option Snapshot
    → ActorId
    → Option Uuid
    → Time
    → Db
    → Db
add_branch_entry branch_id capability_id change_type fields before after changed_by previous now
      db =
    record db {
      capability_versions =
          record {
            id = db.next_uuid;
            capability_id = capability_id;
            model_version_id = branch_id;
            change_type = change_type;
            changed_fields = fields;
            before_snapshot = before;
            after_snapshot = after;
            changed_by = changed_by;
            changed_at = now;
            previous_version_id = previous;
          }
          ∷ db.capability_versions;
      next_uuid = suc db.next_uuid;
    }

unfoldable pub name_free : String → List Capability → Result (Unit {0})
name_free name capabilities = elim (find_first (λ c. str_eq c.unique_name name) capabilities) [
  | none ↦ ok tt
  | some _ ↦ err (name_taken name)
]

unfoldable pub create_capability_in_branch :
    Uuid → BranchCapabilityDto → ActorId → Time → Db → Result Db
create_capability_in_branch branch_id dto actor_id now db = do
  ensure_branch_writable branch_id db
  name_free dto.unique_name db.capabilities
  let c = branch_capability dto branch_id db.next_uuid now
  ok (
      add_branch_entry branch_id c.id CapabilityVersionChangeType.create
        (compute_changed_fields none (some (snapshot_of c))) none (some (snapshot_of c)) actor_id
        none now (record db { capabilities = c ∷ db.capabilities; next_uuid = suc db.next_uuid }))

-- `updatedRecord[key] = value`
unfoldable pub set_entry : String → Json → Snapshot → Snapshot
set_entry key value [] = (key, value) ∷ []
set_entry key value ((k, v) ∷ rest) =
    let later = set_entry key value rest in
    if str_eq k key then (k, value) ∷ rest else (k, v) ∷ later

-- The loop over the keys of the request's body, those that are not `undefined`.
unfoldable pub merge_fields : List (String × Json) → Snapshot → Snapshot
merge_fields [] current = current
merge_fields ((k, v) ∷ rest) current = merge_fields rest (set_entry k v current)

abbrev pub record_fields :
    Uuid → Uuid → List ChangedField → Snapshot → Snapshot → ActorId → Time → Db → Db
record_fields branch_id capability_id [] before after actor_id now db = db
record_fields branch_id capability_id (f ∷ fs) before after actor_id now db =
    add_branch_entry branch_id capability_id CapabilityVersionChangeType.update (f ∷ fs)
      (some before) (some after) actor_id (latest_version capability_id db.capability_versions) now
      db

-- With nothing changed the record as it was is returned.
abbrev pub returned : List ChangedField → Snapshot → Snapshot → Snapshot
returned [] current updated = current
returned (_ ∷ _) current updated = updated

-- The record as the branch shows it now, and the database.
unfoldable pub update_capability_in_branch :
    Uuid → Uuid → List (String × Json) → ActorId → Time → Db → Result (Snapshot × Db)
update_capability_in_branch branch_id capability_id dto actor_id now db = do
  ensure_branch_writable branch_id db
  current ← get_capability_in_branch branch_id capability_id now db
  let updated = merge_fields dto current
  ok (
    returned (compute_changed_fields (some current) (some updated)) current updated,
    record_fields branch_id capability_id (compute_changed_fields (some current) (some updated))
        current updated actor_id now db,
  )

unfoldable pub delete_capability_in_branch : Uuid → Uuid → ActorId → Time → Db → Result Db
delete_capability_in_branch branch_id capability_id actor_id now db = do
  ensure_branch_writable branch_id db
  current ← get_capability_in_branch branch_id capability_id now db
  ok (
      add_branch_entry branch_id capability_id CapabilityVersionChangeType.delete
        (compute_changed_fields (some current) none) (some current) none actor_id
        (latest_version capability_id db.capability_versions) now db)
