-- ===== src/Versions/Examples.antt =====
-- A model whose first draft is published.
use ecm_management.Base.{
  ◌+◌, length, any, ◌≤◌, ◌≡◌, refl, ◌⊎◌, false, none, some, [], ◌∷◌, count, find_first, IsDistinct,
  ◌==◌, String,
}
use ecm_management.Schema.{
  Uuid, CapabilityType, LifecycleStatus, Capability, CapabilityVersion, CapabilityVersionChangeType,
  ModelVersion, Db, AuditAction, published_as, draft_exists, model_version_not_found,
  not_a_published_version, ok, err,
}
use ecm_management.Structural.History.{is_main_draft, is_main_draft_state, new_draft, snapshot_of}
use ecm_management.Versions.Restore.{update_from_snapshot, update_from_snapshot-snapshot_of}
use ecm_management.Versions.States.{find_version, states_at, state_of}
use ecm_management.Versions.Newest.{StateOf, states_at-newest}
use ecm_management.Versions.Publish.{
  get_current_draft, add_version, get_or_create_draft, PublishDto, label_free, is_main_published,
  promote, publish_draft, record_version_audit, publish_snapshot,
}
use ecm_management.Versions.Rollback.{RollbackDto, rollback}
use ecm_management.Versions.OneDraft.Rows.{version_ids, one_if}
use ecm_management.Versions.Diff.{
  max_lineage_depth, version_lineage_range, ModelVersionDiff, range_entries, compute_diff,
}
use ecm_management.Versions.Diff.Lineage.{version_lineage_range-IsDistinct}
use ecm_management.Versions.Diff.Partition.{entries_of, compute_diff-partitions}
use ecm_management.Versions.OneDraft.System.{drafts, publishes, Reach, start, then_step}
use ecm_management.Versions.OneDraft.Safety.{one_draft, rollback_refused, publish_snapshot-settles}

abbrev pub sales : Uuid → String → Capability
sales id name = record {
  id = id;
  unique_name = name;
  aliases = "selling" ∷ [];
  description = some "sells things";
  domain = none;
  type = CapabilityType.leaf;
  parent_id = some 1;
  lifecycle_status = LifecycleStatus.active;
  effective_from = some 500;
  effective_to = none;
  rationale = none;
  source_references = [];
  tags = "core" ∷ [];
  steward_id = some "ada";
  steward_department = none;
  name_guardrail_override = false;
  name_guardrail_override_rationale = none;
  is_erroneous = false;
  erroneous_reason = none;
  branch_origin_id = none;
  created_at = 400;
}

update_from_snapshot-snapshot_of_example :
    update_from_snapshot (snapshot_of (sales 3 "Sales")) (sales 4 "Vending")
    ≡ some (sales 4 "Sales")
update_from_snapshot-snapshot_of_example =
    update_from_snapshot-snapshot_of (sales 3 "Sales") (sales 4 "Vending")

abbrev pub no_rows : Db
no_rows = record {
  capabilities = [];
  mappings = [];
  capability_versions = [];
  model_versions = [];
  capability_locks = [];
  change_requests = [];
  approval_decisions = [];
  change_request_audit = [];
  audit_entries = [];
  notifications = [];
  users = [];
  events = [];
  publish_events = [];
  next_uuid = 10;
}

-- The first MAIN draft, which is version 10.
abbrev pub main_draft : ModelVersion
main_draft = new_draft 10 "ada" none 1000

abbrev pub drafted : Db
drafted = record no_rows { model_versions = main_draft ∷ []; next_uuid = 11 }

pub drafted-Reach : Reach drafted
unfolding get_or_create_draft get_current_draft find_first add_version
drafted-Reach = then_step (start {db = no_rows} refl) (drafts "ada" 1000)

one_draft_example :
    ((main_draft ∷ [] ≡ []) ⊎ (count is_main_draft (main_draft ∷ []) ≡ 1))
    × (count is_main_published (main_draft ∷ []) ≤ 1)
    × IsDistinct (version_ids (main_draft ∷ []))
one_draft_example = one_draft drafted-Reach

abbrev release_one : PublishDto
release_one = record {
  version_label = "1.0";
  description = none;
  notes = none;
  approved_by = some "grace";
  actor_id = "ada";
}

abbrev published : Db
published =
    record_version_audit 10 AuditAction.publish "ada" (published_as "1.0" 11) 2000
      (publish_draft release_one 10 2000 drafted).1

publishes_it : publish_snapshot release_one 2000 drafted ≡ ok ((10, 11), published)
unfolding publish_snapshot get_current_draft find_first is_main_draft is_main_draft_state new_draft
    label_free publish_draft
publishes_it = refl

publish_snapshot-settles_example :
    (get_current_draft published ≡ some (new_draft 11 "ada" (some 10) 2000))
    × (count is_main_draft published.model_versions ≡ 1)
    × (count is_main_published published.model_versions ≡ 1)
    × ((d : ModelVersion) × (get_current_draft drafted ≡ some d)
        × (find_version 10 published ≡ some (promote release_one 2000 d)))
publish_snapshot-settles_example =
    publish_snapshot-settles release_one 2000 10 11 drafted-Reach publishes_it

abbrev back_to_one : RollbackDto
back_to_one = record { rollback_of_version_id = 10; created_by = "ada"; notes = none }

rollback_refused_example :
    (rollback back_to_one 3000 published ≡ err (model_version_not_found 10))
    ⊎ (((v : ModelVersion) × (find_version 10 published ≡ some v)
          × (rollback back_to_one 3000 published ≡ err (not_a_published_version 10 v.state)))
        ⊎ (rollback back_to_one 3000 published ≡ err draft_exists))
rollback_refused_example =
    rollback_refused back_to_one 3000
      (then_step drafted-Reach (publishes release_one 2000 (10, 11) publishes_it))

-- An entry of the history, of capability 3 in version 10.
abbrev entry_of : Uuid → CapabilityVersionChangeType → String → CapabilityVersion
entry_of id change_type name = record {
  id = id;
  capability_id = 3;
  model_version_id = 10;
  change_type = change_type;
  changed_fields = [];
  before_snapshot = none;
  after_snapshot = some (snapshot_of (sales 3 name));
  changed_by = "ada";
  changed_at = 1500;
  previous_version_id = none;
}

abbrev with_history : Db
with_history = record drafted {
  capability_versions =
      entry_of 21 CapabilityVersionChangeType.update "Sales"
      ∷ entry_of 20 CapabilityVersionChangeType.create "Selling"
      ∷ [];
}

states_at-newest_example :
    StateOf 10 5000 with_history 3 with_history.capability_versions
      (state_of 3 (states_at 10 5000 with_history))
states_at-newest_example = states_at-newest 10 5000 with_history 3

version_lineage_range-IsDistinct_example :
    IsDistinct (version_lineage_range 10 11 published)
    × (length (version_lineage_range 10 11 published) ≤ max_lineage_depth)
version_lineage_range-IsDistinct_example = version_lineage_range-IsDistinct 10 11 published

diff_runs : (d : ModelVersionDiff) × (compute_diff 10 10 with_history ≡ ok d)
unfolding compute_diff find_version find_first new_draft
diff_runs = (_, refl)

compute_diff-partitions_example :
    entries_of 3 diff_runs.0.added
      + entries_of 3 diff_runs.0.modified
      + entries_of 3 diff_runs.0.removed
    ≡ one_if (any (λ v. v.capability_id == 3) (range_entries 10 10 with_history))
compute_diff-partitions_example =
    compute_diff-partitions 10 10 with_history diff_runs.0 3 diff_runs.1
