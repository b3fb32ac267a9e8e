-- ===== src/Branches/Discarding.antt =====
-- What a discarded branch leaves behind.
use ecm_management.Base.{
  ◌≡◌, refl, ap, map, any, ◌==◌, update_many, Bool, false, not, some, List, [], ◌∷◌, String, arith,
  ==→eq, ==_refl, Bool-cases, Option-cases, select, elem, delete_many, IsDistinct, inl, inr,
}
use ecm_management.Schema.{
  Uuid, ActorId, Time, Capability, CapabilityVersion, ModelVersion, ModelVersionState, Json, Db,
  branch_not_writable, branch_discarded, ok, err,
}
use ecm_management.Structural.Merge.{ids}
use ecm_management.Versions.States.{is_main, find_version}
use ecm_management.Versions.OneDraft.Rows.{find_first-update}
use ecm_management.Branches.Lifecycle.{
  get_branch, is_local_to, is_rolled_back, without_parent, delete_entries, is_referenced,
  delete_rows, discard, discard_branch,
}
use ecm_management.Branches.Edits.{
  ensure_branch_writable, BranchCapabilityDto, create_capability_in_branch,
  update_capability_in_branch, delete_capability_in_branch,
}

elem-ids_miss :
    (i : Uuid) (p : Capability → Bool) (cs : List Capability)
    → elem i (ids cs) ≡ false
    → elem i (ids (select p cs)) ≡ false
unfolding select elem ids
elem-ids_miss i p [] h = refl
elem-ids_miss i p (c ∷ cs) h = ground (arith, elem-ids_miss i p cs)

delete-miss :
    (i : Uuid) (is : List Uuid) (cs : List Capability)
    → elem i (ids cs) ≡ false
    → delete_many (λ c. elem c.id (i ∷ is)) cs ≡ delete_many (λ c. elem c.id is) cs
unfolding delete_many select elem ids
delete-miss i is [] h = refl
delete-miss i is (c ∷ cs) h = ground (arith, delete-miss i is cs, ==→eq i c.id, ==_refl i)

delete-locals :
    (branch_id : Uuid) (cs : List Capability)
    → IsDistinct (ids cs)
    → delete_many (λ c. elem c.id (ids (select (is_local_to branch_id) cs))) cs
      ≡ select (λ c. not (is_local_to branch_id c)) cs
unfolding delete_many select elem ids
delete-locals branch_id [] k = refl
delete-locals branch_id (c ∷ cs) (new, k) = elim (Bool-cases (is_local_to branch_id c)) [
  | inl local ↦ ground (
    arith,
    delete-locals branch_id cs k,
    ==_refl c.id,
    delete-miss c.id (ids (select (is_local_to branch_id) cs)) cs new,
  )
  | inr other ↦
      ground
        (arith, delete-locals branch_id cs k, elem-ids_miss c.id (is_local_to branch_id) cs new)
]

discarded_as :
    (branch_id : Uuid) (db db' : Db)
    → discard_branch branch_id db ≡ ok db'
    → (v : ModelVersion) × (find_version branch_id db ≡ some v)
      × (is_main v.branch_type ≡ false)
      × (discard branch_id db ≡ ok db')
unfolding discard_branch get_branch
discarded_as branch_id db db' done = elim (Option-cases (find_version branch_id db)) [
  | inl missing ↦ absurd (ground arith)
  | inr (v, found) ↦ elim (Bool-cases (is_main v.branch_type)) [
    | inl main ↦ absurd (ground arith)
    | inr local ↦ elim (Bool-cases (is_rolled_back v.state)) [
      | inl gone ↦ absurd (ground arith)
      | inr here ↦ (v, found, local, ground arith)
    ]
  ]
]

-- The capabilities that stem from a branch.
abbrev pub locals : Uuid → Db → List Uuid
locals branch_id db = ids (select (is_local_to branch_id) db.capabilities)

-- What the transaction leaves when no foreign key stops it.
abbrev pub left_by : Uuid → Db → Db
left_by branch_id db = record db {
  model_versions =
      update_many (λ v. v.id == branch_id) (λ v. record v { state = ModelVersionState.rolled_back })
        db.model_versions;
  capability_versions = delete_entries (locals branch_id db) db.capability_versions;
  capabilities = delete_rows (locals branch_id db) db.capabilities;
}

left :
    (branch_id : Uuid) (db db' : Db)
    → discard branch_id db ≡ ok db'
    → (any (λ m. elem m.capability_id (locals branch_id db)) db.mappings ≡ false)
      × (any (λ l. elem l.capability_id (locals branch_id db)) db.capability_locks ≡ false)
      × (db' ≡ left_by branch_id db)
unfolding discard is_referenced
left branch_id db db' done = elim (Bool-cases (is_referenced (locals branch_id db) db)) [
  | inl held ↦ absurd (ground arith)
  | inr free ↦ (ground arith, ground arith, ground arith)
]

kept_row :
    (is : List Uuid) (f : CapabilityVersion → CapabilityVersion) (vs : List CapabilityVersion)
    → ((v : CapabilityVersion) → (f v).capability_id ≡ v.capability_id)
    → any (λ v. elem v.capability_id is) (map f (delete_many (λ v. elem v.capability_id is) vs))
      ≡ false
unfolding any delete_many select
kept_row is f [] same = refl
kept_row is f (v ∷ vs) same = elim (Bool-cases (elem v.capability_id is)) [
  | inl gone ↦ ground (arith, kept_row is f vs same)
  | inr here ↦ ground (arith, kept_row is f vs same, same v)
]

retired_version :
    (branch_id : Uuid) (db : Db) (v : ModelVersion)
    → find_version branch_id db ≡ some v
    → find_version branch_id (left_by branch_id db)
      ≡ some (record v { state = ModelVersionState.rolled_back })
unfolding find_version
retired_version branch_id db v found =
    find_first-update branch_id (λ w. record w { state = ModelVersionState.rolled_back })
      db.model_versions v (λ w. refl) found

-- The branch that a discarded one is.
retired_row :
    (branch_id : Uuid) (db : Db) (v : ModelVersion)
    → find_version branch_id db ≡ some v
    → is_main v.branch_type ≡ false
    → get_branch branch_id (left_by branch_id db)
      ≡ ok (record v { state = ModelVersionState.rolled_back })
unfolding get_branch
retired_row branch_id db v found local =
    rw (retired_version branch_id db v found, get_branch, local) refl

not_writable :
    (branch_id : Uuid) (db : Db) (v : ModelVersion)
    → get_branch branch_id db ≡ ok v
    → v.state ≡ ModelVersionState.rolled_back
    → ensure_branch_writable branch_id db
      ≡ err (branch_not_writable branch_id ModelVersionState.rolled_back)
unfolding ensure_branch_writable
not_writable branch_id db v found gone = rw (found, gone) refl

-- A discard that succeeds, in a table where no two capabilities have the same id, removes exactly the
-- capabilities that stem from the branch; a row that stays keeps its columns, but a parent among the
-- removed ones becomes null. It leaves the mappings and the locks alone, none of them is of a removed
-- capability, and no entry of the history is. From then on every write in the branch is refused as
-- not writable, and a second discard as already discarded.
pub discard_branch-settles :
    (branch_id : Uuid) (db db' : Db) (dto : BranchCapabilityDto) (capability_id : Uuid)
    (fields : List (String × Json)) (actor : ActorId) (now : Time)
    → IsDistinct (ids db.capabilities)
    → discard_branch branch_id db ≡ ok db'
    → (db'.capabilities
        ≡ map
            (without_parent (locals branch_id db))
            (select (λ c. not (is_local_to branch_id c)) db.capabilities))
      × (db'.mappings ≡ db.mappings)
      × (db'.capability_locks ≡ db.capability_locks)
      × (any (λ m. elem m.capability_id (locals branch_id db)) db'.mappings ≡ false)
      × (any (λ l. elem l.capability_id (locals branch_id db)) db'.capability_locks ≡ false)
      × (any (λ v. elem v.capability_id (locals branch_id db)) db'.capability_versions ≡ false)
      × (create_capability_in_branch branch_id dto actor now db'
          ≡ err (branch_not_writable branch_id ModelVersionState.rolled_back))
      × (update_capability_in_branch branch_id capability_id fields actor now db'
          ≡ err (branch_not_writable branch_id ModelVersionState.rolled_back))
      × (delete_capability_in_branch branch_id capability_id actor now db'
          ≡ err (branch_not_writable branch_id ModelVersionState.rolled_back))
      × (discard_branch branch_id db' ≡ err (branch_discarded branch_id))
discard_branch-settles branch_id db db' dto capability_id fields actor now k done =
    let (v, found, local, made) = discarded_as branch_id db db' done in
    let (no_mapping, no_lock, same) = left branch_id db db' made in
    let row = retired_row branch_id db v found local in
    let closed = not_writable branch_id (left_by branch_id db) _ row refl in
    rw same (
      unfold delete_rows in
          ap (map (without_parent (locals branch_id db)))
            (delete-locals branch_id db.capabilities k),
      refl,
      refl,
      no_mapping,
      no_lock,
      unfold delete_entries in kept_row (locals branch_id db) _ db.capability_versions (λ v. refl),
      unfold create_capability_in_branch in rw closed refl,
      unfold update_capability_in_branch in rw closed refl,
      unfold delete_capability_in_branch in rw closed refl,
      unfold discard_branch in rw row refl,
    )
