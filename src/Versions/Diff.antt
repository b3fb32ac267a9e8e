-- ===== src/Versions/Diff.antt =====
-- `getVersionLineageRange` and `computeDiff`: what changed between two versions.
pub mod Lineage
pub mod Partition
use mathlib.Core.List.{reverse}
use ecm_management.Base.{
  ℕ, zero, suc, Bool, true, false, not, ◌&&◌, Option, none, some, List, [], ◌∷◌, ◌++◌, String,
  if◌then◌else◌, ◌==◌, str_eq, length, select, elem,
}
use ecm_management.Schema.{
  Uuid, Capability, CapabilityVersion, ChangedField, ModelVersion, Snapshot, Db,
  model_version_not_found, Error, Result, ok, err, ◌>>=◌, or_fail,
}
use ecm_management.Structural.Hierarchy.{find_capability}
use ecm_management.Versions.States.{find_version, is_create, is_delete}

abbrev pub max_lineage_depth : ℕ
max_lineage_depth = 1000

-- The row of the current version, if it was not met before.
abbrev pub unseen : Uuid → List Uuid → Db → Option ModelVersion
unseen current visited db = if elem current visited then none else find_version current db

-- The loop; its fuel is what the depth leaves of the bound.
unfoldable pub lineage_walk : ℕ → Uuid → Option Uuid → List Uuid → Db → List Uuid
lineage_walk zero from_id current visited db = []
lineage_walk (suc fuel) from_id none visited db = []
lineage_walk (suc fuel) from_id (some current) visited db = elim (unseen current visited db) [
  | none ↦ []
  | some v ↦
      let rest = lineage_walk fuel from_id v.base_version_id (current ∷ visited) db in
      v.id ∷ (if v.id == from_id then [] else rest)
]

unfoldable pub version_lineage_range : Uuid → Uuid → Db → List Uuid
version_lineage_range from_id to_id db =
    reverse (lineage_walk max_lineage_depth from_id (some to_id) [] db)

unfoldable pub without : Uuid → List Uuid → List Uuid
without id = select (λ x. not (x == id))

abbrev pub or_only : Uuid → List Uuid → List Uuid
or_only id [] = id ∷ []
or_only id (x ∷ xs) = x ∷ xs

-- The versions whose entries are compared.
unfoldable pub query_ids : Uuid → Uuid → Db → List Uuid
query_ids from_id to_id db =
    let lineage = version_lineage_range from_id to_id db in
    if elem from_id lineage then or_only to_id (without from_id lineage) else to_id ∷ []

-- The changes of one capability, oldest first: there is at least the first.
pub record Bucket : Type 0 where
  pub capability_id : Uuid
  pub first : CapabilityVersion
  pub later : List CapabilityVersion

unfoldable pub last_of : CapabilityVersion → List CapabilityVersion → CapabilityVersion
last_of first [] = first
last_of first (v ∷ vs) = last_of v vs

-- `byCapability.set(...)`
unfoldable pub add_change : CapabilityVersion → List Bucket → List Bucket
add_change v [] = record { capability_id = v.capability_id; first = v; later = [] } ∷ []
add_change v (b ∷ bs) =
    let rest = add_change v bs in
    if b.capability_id == v.capability_id
    then record b { later = b.later ++ v ∷ [] } ∷ bs
    else b ∷ rest

unfoldable pub group_changes : List CapabilityVersion → List Bucket → List Bucket
group_changes [] buckets = buckets
group_changes (v ∷ vs) buckets = group_changes vs (add_change v buckets)

pub record CapabilityDiffEntry : Type 0 where
  pub capability_id : Uuid
  pub name : Option String
  pub before_snapshot : Option Snapshot
  pub after_snapshot : Option Snapshot
  pub changed_fields : List ChangedField

-- The heads of the two versions and the lengths of the lists, that the answer repeats, are left out.
pub record ModelVersionDiff : Type 0 where
  pub added : List CapabilityDiffEntry
  pub modified : List CapabilityDiffEntry
  pub removed : List CapabilityDiffEntry

-- `{ ...acc, ...fields }`: a key that is there already keeps its place.
unfoldable pub set_field : ChangedField → List ChangedField → List ChangedField
set_field f [] = f ∷ []
set_field f (g ∷ gs) = let rest = set_field f gs in if str_eq g.key f.key then f ∷ gs else g ∷ rest

unfoldable pub set_fields : List ChangedField → List ChangedField → List ChangedField
set_fields [] acc = acc
set_fields (f ∷ fs) acc = set_fields fs (set_field f acc)

unfoldable pub all_fields : List CapabilityVersion → List ChangedField → List ChangedField
all_fields [] acc = acc
all_fields (v ∷ vs) acc = all_fields vs (set_fields v.changed_fields acc)

abbrev pub name_in : Option Capability → Option String
name_in none = none
name_in (some c) = some c.unique_name

unfoldable pub added_entry : List Capability → Bucket → CapabilityDiffEntry
added_entry capabilities b = record {
  capability_id = b.capability_id;
  name = name_in (find_capability b.capability_id capabilities);
  before_snapshot = none;
  after_snapshot = (last_of b.first b.later).after_snapshot;
  changed_fields = [];
}

unfoldable pub removed_entry : List Capability → Bucket → CapabilityDiffEntry
removed_entry capabilities b = record {
  capability_id = b.capability_id;
  name = name_in (find_capability b.capability_id capabilities);
  before_snapshot = (last_of b.first b.later).before_snapshot;
  after_snapshot = none;
  changed_fields = [];
}

unfoldable pub modified_entry : List Capability → Bucket → CapabilityDiffEntry
modified_entry capabilities b = record {
  capability_id = b.capability_id;
  name = name_in (find_capability b.capability_id capabilities);
  before_snapshot = none;
  after_snapshot = none;
  changed_fields = all_fields (b.first ∷ b.later) [];
}

-- One round of the loop that classifies.
unfoldable pub classify : List Capability → Bucket → ModelVersionDiff → ModelVersionDiff
classify capabilities b diff =
    let last = last_of b.first b.later in
    if is_create b.first.change_type && not (is_delete last.change_type)
    then record diff { added = diff.added ++ added_entry capabilities b ∷ [] }
    else if is_delete last.change_type
    then record diff { removed = diff.removed ++ removed_entry capabilities b ∷ [] }
    else record diff { modified = diff.modified ++ modified_entry capabilities b ∷ [] }

unfoldable pub classify_all : List Capability → List Bucket → ModelVersionDiff → ModelVersionDiff
classify_all capabilities [] diff = diff
classify_all capabilities (b ∷ bs) diff =
    classify_all capabilities bs (classify capabilities b diff)

-- The entries in the range, oldest first.
unfoldable pub range_entries : Uuid → Uuid → Db → List CapabilityVersion
range_entries from_id to_id db =
    reverse
      (select (λ v. elem v.model_version_id (query_ids from_id to_id db)) db.capability_versions)

unfoldable pub compute_diff : Uuid → Uuid → Db → Result ModelVersionDiff
compute_diff from_id to_id db = do
  from_version ← or_fail (find_version from_id db) (model_version_not_found from_id)
  to_version ← or_fail (find_version to_id db) (model_version_not_found to_id)
  ok (
      classify_all db.capabilities (group_changes (range_entries from_id to_id db) [])
        (record { added = []; modified = []; removed = [] }))
