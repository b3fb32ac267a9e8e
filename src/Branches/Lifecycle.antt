-- ===== src/Branches/Lifecycle.antt =====
-- `createBranch`, `getBranch` and `discardBranch`, whose answer, the branch's new row, is left out.
use ecm_management.Base.{
  Bool, true, false, not, ◌&&◌, ◌||◌, List, map, any, Option, none, some, String, if◌then◌else◌,
  ◌==◌, str_eq, select, elem, find_first, update_many, delete_many,
}
use ecm_management.Schema.{
  Uuid, ActorId, Time, Capability, CapabilityVersion, ModelVersion, ModelVersionState, BranchType,
  VersionLabel, Db, foreign_key_violated, no_draft_for_branch, branch_name_taken, branch_not_found,
  branch_discarded, Result, ok, err, ◌>>=◌, ◌>>◌, or_fail,
}
use ecm_management.Structural.Merge.{ids}
use ecm_management.Versions.States.{is_main, find_version}
use ecm_management.Versions.Publish.{get_current_draft, add_version}

pub record CreateBranchDto : Type 0 where
  pub branch_name : String
  pub description : Option String

abbrev pub is_rolled_back : ModelVersionState → Bool
is_rolled_back ModelVersionState.rolled_back = true
is_rolled_back _ = false

abbrev pub has_name : String → Option String → Bool
has_name wanted none = false
has_name wanted (some n) = str_eq n wanted

-- An active branch of that name.
unfoldable pub is_active_branch : String → ModelVersion → Bool
is_active_branch name v =
    not (is_main v.branch_type) && has_name name v.branch_name && not (is_rolled_back v.state)

unfoldable pub new_branch : CreateBranchDto → Uuid → Uuid → ActorId → Time → ModelVersion
new_branch dto base id actor_id now = record {
  id = id;
  version_label = VersionLabel.what_if_at dto.branch_name now;
  state = ModelVersionState.draft;
  base_version_id = some base;
  branch_type = BranchType.what_if;
  branch_name = some dto.branch_name;
  description = dto.description;
  notes = none;
  created_by = actor_id;
  approved_by = none;
  published_at = none;
  rollback_of_version_id = none;
  created_at = now;
}

unfoldable pub create_branch : CreateBranchDto → ActorId → Time → Db → Result (ModelVersion × Db)
create_branch dto actor_id now db = do
  main_draft ← or_fail (get_current_draft db) no_draft_for_branch
  elim (find_first (is_active_branch dto.branch_name) db.model_versions) [
    | none ↦ ok tt
    | some existing ↦ err (branch_name_taken dto.branch_name existing.id)
  ]
  let branch = new_branch dto main_draft.id db.next_uuid actor_id now
  ok (branch, add_version branch db)

unfoldable pub get_branch : Uuid → Db → Result ModelVersion
get_branch branch_id db = elim (find_version branch_id db) [
  | none ↦ err (branch_not_found branch_id)
  | some v ↦ if is_main v.branch_type then err (branch_not_found branch_id) else ok v
]

-- branchOriginId = branchId
unfoldable pub is_local_to : Uuid → Capability → Bool
is_local_to branch_id c = elim c.branch_origin_id [ none ↦ false | some b ↦ b == branch_id ]

-- A foreign key into the rows that are deleted, ON DELETE SET NULL.
unfoldable pub unlinked : List Uuid → Option Uuid → Option Uuid
unlinked gone none = none
unlinked gone (some id) = if elem id gone then none else some id

abbrev pub without_previous : List Uuid → CapabilityVersion → CapabilityVersion
without_previous gone v = record v { previous_version_id = unlinked gone v.previous_version_id }

abbrev pub without_parent : List Uuid → Capability → Capability
without_parent gone c = record c { parent_id = unlinked gone c.parent_id }

-- capabilityVersion.deleteMany({ where: { capabilityId: { in } } }): the entries that remain lose their
-- previous version if it is among the deleted ones.
unfoldable pub delete_entries : List Uuid → List CapabilityVersion → List CapabilityVersion
delete_entries local_ids entries =
    let gone = map (λ v. v.id) (select (λ v. elem v.capability_id local_ids) entries) in
    map (without_previous gone) (delete_many (λ v. elem v.capability_id local_ids) entries)

-- The rows that keep a capability from being deleted (ON DELETE RESTRICT), its entries apart: a
-- mapping of it or a lock on it.
unfoldable pub is_referenced : List Uuid → Db → Bool
is_referenced local_ids db =
    any (λ m. elem m.capability_id local_ids) db.mappings
    || any (λ l. elem l.capability_id local_ids) db.capability_locks

-- capability.deleteMany({ where: { id: { in } } }): a row that remains below a deleted one loses its
-- parent.
unfoldable pub delete_rows : List Uuid → List Capability → List Capability
delete_rows local_ids capabilities =
    map (without_parent local_ids) (delete_many (λ c. elem c.id local_ids) capabilities)

-- The transaction: the branch retired, and what exists only in it removed; with nothing to remove the
-- two deletes change nothing.
unfoldable pub discard : Uuid → Db → Result Db
discard branch_id db =
    let local_ids = ids (select (is_local_to branch_id) db.capabilities) in
    if is_referenced local_ids db
    then err foreign_key_violated
    else ok (record db {
      model_versions =
          update_many (λ v. v.id == branch_id)
            (λ v. record v { state = ModelVersionState.rolled_back }) db.model_versions;
      capability_versions = delete_entries local_ids db.capability_versions;
      capabilities = delete_rows local_ids db.capabilities;
    })

unfoldable pub discard_branch : Uuid → Db → Result Db
discard_branch branch_id db = do
  branch ← get_branch branch_id db
  if is_rolled_back branch.state then err (branch_discarded branch_id) else ok tt
  discard branch_id db
