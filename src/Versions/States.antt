-- ===== src/Versions/States.antt =====
-- `buildCapabilityStateAtVersion`: what every capability looked like at a version of MAIN.
use ecm_management.Base.{
  Bool, true, false, ◌&&◌, ◌||◌, Option, none, some, List, [], ◌∷◌, map, if◌then◌else◌, ◌==◌, leb,
  select, elem, find_first,
}
use ecm_management.Schema.{
  Uuid, Time, BranchType, ModelVersion, CapabilityVersion, CapabilityVersionChangeType, Snapshot,
  Db,
}

unfoldable pub is_main : BranchType → Bool
is_main BranchType.main = true
is_main BranchType.what_if = false

unfoldable pub find_version : Uuid → Db → Option ModelVersion
find_version id db = find_first (λ v. v.id == id) db.model_versions

-- `targetVersion?.publishedAt ?? targetVersion?.createdAt ?? new Date()`
abbrev pub cutoff_of : Option ModelVersion → Time → Time
cutoff_of none now = now
cutoff_of (some v) now = elim v.published_at [ none ↦ v.created_at | some t ↦ t ]

abbrev pub published_by : Time → Option Time → Bool
published_by cutoff none = false
published_by cutoff (some t) = leb t cutoff

unfoldable pub versions_at : Uuid → Time → Db → List Uuid
unfolding find_version is_main
versions_at version_id now db =
    map (λ v. v.id)
      (select
        (λ v.
          is_main v.branch_type
          && (published_by (cutoff_of (find_version version_id db) now) v.published_at
              || v.id == version_id))
        db.model_versions)

unfoldable pub is_create : CapabilityVersionChangeType → Bool
is_create CapabilityVersionChangeType.create = true
is_create _ = false

unfoldable pub is_delete : CapabilityVersionChangeType → Bool
is_delete CapabilityVersionChangeType.delete = true
is_delete _ = false

-- A capability and its last snapshot; `none` is a capability that was deleted.
abbrev pub State : Type 0
State = Uuid × Option Snapshot

abbrev pub target_snapshot : CapabilityVersion → Option Snapshot
target_snapshot v = if is_delete v.change_type then none else v.after_snapshot

-- The loop that keeps the first entry of each capability.
unfoldable pub newest_states : List Uuid → List CapabilityVersion → List State
newest_states seen [] = []
newest_states seen (v ∷ vs) =
    if elem v.capability_id seen
    then newest_states seen vs
    else (v.capability_id, target_snapshot v) ∷ newest_states (v.capability_id ∷ seen) vs

-- The entries in those versions, newest first.
unfoldable pub entries_at : Uuid → Time → Db → List CapabilityVersion
entries_at version_id now db =
    select (λ v. elem v.model_version_id (versions_at version_id now db)) db.capability_versions

unfoldable pub states_at : Uuid → Time → Db → List State
states_at version_id now db = newest_states [] (entries_at version_id now db)

-- `Map.get` after a `Map.set` for each pair in turn, so that the last pair of a key wins; `none` is a
-- key that is not there.
unfoldable pub state_of : Uuid → List State → Option (Option Snapshot)
state_of capability_id [] = none
state_of capability_id ((c, s) ∷ rest) = elim (state_of capability_id rest) [
  | some later ↦ some later
  | none ↦ if c == capability_id then some s else none
]
