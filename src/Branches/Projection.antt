-- ===== src/Branches/Projection.antt =====
-- `listCapabilitiesInBranch` and `getCapabilityInBranch`: the model as a branch shows it.
use mathlib.Core.List.{reverse}
use ecm_management.Base.{
  Bool, true, false, Option, none, some, List, [], ◌∷◌, ◌++◌, if◌then◌else◌, ◌==◌, select, elem,
  find_first,
}
use ecm_management.Schema.{
  Uuid, Time, CapabilityVersion, Snapshot, Db, deleted_in_branch, missing_at_base,
  missing_in_branch, branch_without_base, Result, ok, err, ◌>>=◌, or_fail,
}
use ecm_management.Versions.Diff.{ModelVersionDiff, compute_diff}
use ecm_management.Versions.States.{is_create, State, is_delete, states_at, state_of}
use ecm_management.Branches.Lifecycle.{get_branch}

-- The branch's own entries, newest first.
unfoldable pub branch_entries : Uuid → Db → List CapabilityVersion
branch_entries branch_id db = select (λ v. v.model_version_id == branch_id) db.capability_versions

-- `latestBranchEntry.get`
unfoldable pub latest_entry : Uuid → List CapabilityVersion → Option CapabilityVersion
latest_entry capability_id = find_first (λ v. v.capability_id == capability_id)

-- The keys of `latestBranchEntry`, in the order of their first insertion.
unfoldable pub entry_keys : List Uuid → List CapabilityVersion → List Uuid
entry_keys seen [] = []
entry_keys seen (v ∷ vs) =
    if elem v.capability_id seen
    then entry_keys seen vs
    else v.capability_id ∷ entry_keys (v.capability_id ∷ seen) vs

abbrev pub push : Option Snapshot → List Snapshot → List Snapshot
push none rest = rest
push (some s) rest = s ∷ rest

-- What the branch shows of a capability that exists at the base.
abbrev pub overridden : Snapshot → Option CapabilityVersion → Option Snapshot
overridden base none = some base
overridden base (some v) = if is_delete v.change_type then none else v.after_snapshot

unfoldable pub from_base : List State → List CapabilityVersion → List Snapshot
unfolding latest_entry
from_base [] entries = []
from_base ((c, none) ∷ rest) entries = from_base rest entries
from_base ((c, some base) ∷ rest) entries =
    push (overridden base (latest_entry c entries)) (from_base rest entries)

abbrev pub created_snapshot : Option CapabilityVersion → Option Snapshot
created_snapshot none = none
created_snapshot (some v) = if is_create v.change_type then v.after_snapshot else none

abbrev pub is_known : Option (Option Snapshot) → Bool
is_known none = false
is_known (some _) = true

unfoldable pub created_in_branch : List Uuid → List State → List CapabilityVersion → List Snapshot
unfolding latest_entry
created_in_branch [] base entries = []
created_in_branch (c ∷ rest) base entries =
    let later = created_in_branch rest base entries in
    if is_known (state_of c base)
    then later
    else push (created_snapshot (latest_entry c entries)) later

unfoldable pub projected : List State → List CapabilityVersion → List Snapshot
projected base entries =
    from_base base entries ++ created_in_branch (entry_keys [] (reverse entries)) base entries

-- The sort by name follows the runtime's collation, `collate`.
unfoldable pub list_capabilities_in_branch :
    (List Snapshot → List Snapshot) → Uuid → Time → Db → Result (List Snapshot)
list_capabilities_in_branch collate branch_id now db = do
  branch ← get_branch branch_id db
  base_id ← or_fail branch.base_version_id (branch_without_base branch_id)
  ok (collate (projected (states_at base_id now db) (branch_entries branch_id db)))

abbrev pub base_snapshot : Uuid → Option (Option Snapshot) → Result Snapshot
base_snapshot capability_id none = err (missing_in_branch capability_id)
base_snapshot capability_id (some none) = err (missing_at_base capability_id)
base_snapshot capability_id (some (some s)) = ok s

abbrev pub at_base : Option Uuid → Uuid → Time → Db → Result Snapshot
at_base none capability_id now db = err (missing_in_branch capability_id)
at_base (some base_id) capability_id now db =
    base_snapshot capability_id (state_of capability_id (states_at base_id now db))

abbrev pub shown : Option CapabilityVersion → Uuid → Result Snapshot → Result Snapshot
shown none capability_id base = base
shown (some v) capability_id base =
    if is_delete v.change_type
    then err (deleted_in_branch capability_id)
    else elim v.after_snapshot [ none ↦ base | some s ↦ ok s ]

unfoldable pub get_capability_in_branch : Uuid → Uuid → Time → Db → Result Snapshot
get_capability_in_branch branch_id capability_id now db = do
  branch ← get_branch branch_id db
  shown (latest_entry capability_id (branch_entries branch_id db)) capability_id
      (at_base branch.base_version_id capability_id now db)

-- What the branch changed since its base.
unfoldable pub diff_vs_base : Uuid → Db → Result ModelVersionDiff
diff_vs_base branch_id db = do
  branch ← get_branch branch_id db
  base_id ← or_fail branch.base_version_id (branch_without_base branch_id)
  compute_diff base_id branch_id db
