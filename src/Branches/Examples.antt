-- ===== src/Branches/Examples.antt =====
-- A branch in which one capability is created and then updated.
use ecm_management.Base.{
  ◌≡◌, ap, arith, refl, ◌≢◌, not, none, some, [], ◌∷◌, Memᴰ, String, select, elem, find_first, any,
  map, false, IsDistinct, delete_many,
}
use ecm_management.Schema.{
  Uuid, Capability, CapabilityVersion, CapabilityVersionChangeType, ModelVersion, ModelVersionState,
  Snapshot, Db, branch_not_writable, branch_discarded, ok, err,
}
use ecm_management.Structural.History.{
  snapshot_of, is_main_draft, is_main_draft_state, new_draft, compute_changed_fields,
}
use ecm_management.Structural.Merge.{ids}
use ecm_management.Versions.States.{
  is_create, is_main, find_version, states_at, state_of, newest_states, entries_at, versions_at,
}
use ecm_management.Versions.Publish.{get_current_draft, add_version}
use ecm_management.Versions.OneDraft.System.{branches, Reach, then_step}
use ecm_management.Versions.Examples.{sales, drafted, drafted-Reach, main_draft}
use ecm_management.Branches.Lifecycle.{
  CreateBranchDto, is_active_branch, new_branch, create_branch, get_branch, is_local_to, unlinked,
  without_parent, is_referenced, delete_rows, discard, discard_branch,
}
use ecm_management.Branches.Projection.{
  branch_entries, latest_entry, entry_keys, from_base, created_in_branch, projected,
  list_capabilities_in_branch, get_capability_in_branch,
}
use ecm_management.Branches.Edits.{
  BranchCapabilityDto, ensure_branch_writable, name_free, branch_capability, add_branch_entry,
  create_capability_in_branch, update_capability_in_branch, delete_capability_in_branch,
}
use ecm_management.Branches.Discarding.{locals, left_by, discard_branch-settles}
use ecm_management.Branches.Isolation.{is_mainline, creates, branch_edits_isolated}
use ecm_management.Branches.Listing.{list_capabilities_in_branch-shown}
use ecm_management.Branches.Missing.{without, list_misses_updated}

abbrev restructure : CreateBranchDto
restructure = record { branch_name = "restructure"; description = none }

abbrev branch : ModelVersion
branch = new_branch restructure 10 11 "ada" 2000

abbrev branched : Db
branched = record drafted { model_versions = branch ∷ main_draft ∷ []; next_uuid = 12 }

branched-Reach : Reach branched
unfolding create_branch get_current_draft find_first is_main_draft is_main_draft_state new_draft
    is_active_branch is_main add_version
branched-Reach = then_step drafted-Reach (branches restructure "ada" 2000 branch refl)

abbrev field_sales : BranchCapabilityDto
field_sales = record {
  unique_name = "Field sales";
  aliases = none;
  description = none;
  domain = none;
  type = none;
  parent_id = none;
  lifecycle_status = none;
  effective_from = none;
  effective_to = none;
  rationale = none;
  source_references = none;
  tags = none;
  steward_id = none;
  steward_department = none;
}

abbrev created : Snapshot
created = snapshot_of (branch_capability field_sales 11 12 3000)

abbrev with_field_sales : Db
with_field_sales =
    add_branch_entry 11 12 CapabilityVersionChangeType.create
      (compute_changed_fields none (some created)) none (some created) "ada" none 3000
      (record branched {
        capabilities = branch_capability field_sales 11 12 3000 ∷ [];
        next_uuid = 13;
      })

creates_it : create_capability_in_branch 11 field_sales "ada" 3000 branched ≡ ok with_field_sales
unfolding create_capability_in_branch ensure_branch_writable get_branch find_version find_first
    is_main new_branch new_draft name_free branch_capability
creates_it = refl

branch_edits_isolated_example :
    (select is_mainline with_field_sales.capabilities ≡ select is_mainline branched.capabilities)
    × (with_field_sales.mappings ≡ branched.mappings)
    × (with_field_sales.model_versions ≡ branched.model_versions)
    × (states_at 10 9000 with_field_sales ≡ states_at 10 9000 branched)
branch_edits_isolated_example =
    branch_edits_isolated 10 9000 branched-Reach (creates field_sales "ada" 3000 creates_it)

-- A capability of MAIN that was moved below the branch's own one.
abbrev below_field_sales : Capability
below_field_sales = record (sales 3 "Sales") { parent_id = some 12 }

abbrev before_discard : Db
before_discard = record with_field_sales {
  capabilities = branch_capability field_sales 11 12 3000 ∷ below_field_sales ∷ [];
}

abbrev after_discard : Db
after_discard = left_by 11 before_discard

discards_it : discard_branch 11 before_discard ≡ ok after_discard
unfolding discard_branch discard get_branch find_version find_first is_main new_branch new_draft
    add_branch_entry is_referenced any
discards_it = refl

before_discard-IsDistinct : IsDistinct (ids before_discard.capabilities)
unfolding ids elem branch_capability
before_discard-IsDistinct = (refl, (refl, tt))

loses_parent : after_discard.capabilities ≡ record below_field_sales { parent_id = none } ∷ []
unfolding delete_rows delete_many select unlinked ids is_local_to elem branch_capability
loses_parent = refl

discard_branch-settles_example :
    (after_discard.capabilities
      ≡ map
          (without_parent (locals 11 before_discard))
          (select (λ c. not (is_local_to 11 c)) before_discard.capabilities))
    × (after_discard.mappings ≡ before_discard.mappings)
    × (after_discard.capability_locks ≡ before_discard.capability_locks)
    × (any (λ m. elem m.capability_id (locals 11 before_discard)) after_discard.mappings ≡ false)
    × (any (λ l. elem l.capability_id (locals 11 before_discard)) after_discard.capability_locks
        ≡ false)
    × (any (λ v. elem v.capability_id (locals 11 before_discard)) after_discard.capability_versions
        ≡ false)
    × (create_capability_in_branch 11 field_sales "ada" 4000 after_discard
        ≡ err (branch_not_writable 11 ModelVersionState.rolled_back))
    × (update_capability_in_branch 11 12 [] "ada" 4000 after_discard
        ≡ err (branch_not_writable 11 ModelVersionState.rolled_back))
    × (delete_capability_in_branch 11 12 "ada" 4000 after_discard
        ≡ err (branch_not_writable 11 ModelVersionState.rolled_back))
    × (discard_branch 11 after_discard ≡ err (branch_discarded 11))
discard_branch-settles_example =
    discard_branch-settles 11 before_discard after_discard field_sales 12 [] "ada" 4000
      before_discard-IsDistinct discards_it

-- An entry of the branch.
abbrev branch_entry : Uuid → Uuid → CapabilityVersionChangeType → String → CapabilityVersion
branch_entry id capability_id change_type name = record {
  id = id;
  capability_id = capability_id;
  model_version_id = 11;
  change_type = change_type;
  changed_fields = [];
  before_snapshot = none;
  after_snapshot = some (snapshot_of (sales capability_id name));
  changed_by = "ada";
  changed_at = 3000;
  previous_version_id = none;
}

-- Capability 12 was created and renamed, capability 13 only created.
abbrev two_created : Db
two_created = record branched {
  capability_versions =
      branch_entry 32 12 CapabilityVersionChangeType.update "Inside sales"
      ∷ branch_entry 31 13 CapabilityVersionChangeType.create "Telesales"
      ∷ branch_entry 30 12 CapabilityVersionChangeType.create "Field sales"
      ∷ [];
}

abbrev telesales : Snapshot
telesales = snapshot_of (sales 13 "Telesales")

lists_them : list_capabilities_in_branch (λ xs. xs) 11 5000 two_created ≡ ok (telesales ∷ [])
unfolding list_capabilities_in_branch get_branch find_version find_first is_main new_branch
    new_draft projected from_base created_in_branch entry_keys branch_entries select latest_entry
    is_create states_at newest_states entries_at versions_at elem state_of
lists_them = refl

list_capabilities_in_branch-shown_example :
    (d : Uuid) × (get_capability_in_branch 11 d 5000 two_created ≡ ok telesales)
list_capabilities_in_branch-shown_example =
    list_capabilities_in_branch-shown (λ xs. xs) (λ xs s m. m) 11 5000 two_created (telesales ∷ [])
      telesales lists_them (Memᴰ.head refl)

neither_made : CapabilityVersionChangeType.update ≢ CapabilityVersionChangeType.create
unfolding is_create
neither_made e = ground (arith, ap is_create e)

neither_deleted : CapabilityVersionChangeType.update ≢ CapabilityVersionChangeType.delete
neither_deleted e = ground arith

list_misses_updated_example :
    (get_capability_in_branch 11 12 5000 two_created ≡ ok (snapshot_of (sales 12 "Inside sales")))
    × (list_capabilities_in_branch (λ xs. xs) 11 5000 two_created
        ≡ ok (
            projected (states_at 10 5000 two_created) (without 12 (branch_entries 11 two_created))))
unfolding get_branch find_version find_first is_main new_branch new_draft branch_entries select
    latest_entry states_at newest_states entries_at versions_at elem state_of
list_misses_updated_example =
    list_misses_updated (λ xs. xs) 11 10 5000 two_created branch 12
      (branch_entry 32 12 CapabilityVersionChangeType.update "Inside sales")
      (snapshot_of (sales 12 "Inside sales")) refl refl refl refl neither_made neither_deleted refl
