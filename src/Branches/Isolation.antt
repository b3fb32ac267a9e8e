-- ===== src/Branches/Isolation.antt =====
-- What the branch operations leave alone, and what discarding a branch leaves.
use ecm_management.Base.{
  suc, ◌≡◌, refl, subst, ◌⊎◌, inl, inr, Bool, true, false, ◌&&◌, ◌||◌, Option, none, some, List, [],
  ◌∷◌, String, arith, ◌==◌, ==→eq, Bool-cases, Option-cases, select, elem, find_first, IsDistinct,
}
use ecm_management.Schema.{
  Uuid, ActorId, Time, Capability, CapabilityVersion, CapabilityVersionChangeType, ChangedField,
  Snapshot, ModelVersion, Json, Db, ok, check-cases, Result-cases,
}
use ecm_management.Structural.History.{snapshot_of, compute_changed_fields, latest_version}
use ecm_management.Versions.States.{
  is_main, find_version, versions_at, entries_at, states_at, published_by, cutoff_of,
}
use ecm_management.Versions.OneDraft.Rows.{version_ids}
use ecm_management.Versions.OneDraft.System.{Reach}
use ecm_management.Versions.OneDraft.Safety.{one_draft}
use ecm_management.Branches.Lifecycle.{get_branch}
use ecm_management.Branches.Projection.{get_capability_in_branch}
use ecm_management.Branches.Edits.{
  ensure_branch_writable, branch_capability, merge_fields, BranchCapabilityDto, name_free,
  add_branch_entry, record_fields, create_capability_in_branch, update_capability_in_branch,
  delete_capability_in_branch,
}

-- What a capability of the mainline is: it stems from no branch.
abbrev pub is_mainline : Capability → Bool
is_mainline c = elim c.branch_origin_id [ none ↦ true | some _ ↦ false ]

-- A write in a branch that succeeded.
pub data Edit (branch_id : Uuid) (db : Db) : Db → Type 0 where
  creates :
      {db' : Db} (dto : BranchCapabilityDto) (actor : ActorId) (now : Time)
      → create_capability_in_branch branch_id dto actor now db ≡ ok db'
      → Edit branch_id db db'
  updates :
      {db' : Db} (capability_id : Uuid) (dto : List (String × Json)) (actor : ActorId) (now : Time)
      (shown : List (String × Json))
      → update_capability_in_branch branch_id capability_id dto actor now db ≡ ok (shown, db')
      → Edit branch_id db db'
  deletes :
      {db' : Db} (capability_id : Uuid) (actor : ActorId) (now : Time)
      → delete_capability_in_branch branch_id capability_id actor now db ≡ ok db'
      → Edit branch_id db db'

elem-select_miss :
    (i : Uuid) (p : ModelVersion → Bool) (vs : List ModelVersion)
    → elem i (version_ids vs) ≡ false
    → elem i (version_ids (select p vs)) ≡ false
unfolding select elem
elem-select_miss i p [] h = refl
elem-select_miss i p (v ∷ vs) h = ground (arith, elem-select_miss i p vs)

-- A branch is none of the versions of MAIN.
not_main :
    (branch_id : Uuid) (p : ModelVersion → Bool) (vs : List ModelVersion) (b : ModelVersion)
    → IsDistinct (version_ids vs)
    → find_first (λ v. v.id == branch_id) vs ≡ some b
    → is_main b.branch_type ≡ false
    → elem branch_id (version_ids (select (λ v. is_main v.branch_type && p v) vs)) ≡ false
unfolding find_first select elem
not_main branch_id p [] b ids found local = cc
not_main branch_id p (v ∷ vs) b (new, ids) found local = elim (Bool-cases (v.id == branch_id)) [
  | inl hit ↦ ground (
    arith,
    ==→eq v.id branch_id hit,
    elem-select_miss branch_id (λ v. is_main v.branch_type && p v) vs,
  )
  | inr miss ↦ ground (arith, not_main branch_id p vs b ids)
]

-- What a write in a branch may change: capabilities of the branch, and one entry of its history.
record IsApart (branch_id : Uuid) (db db' : Db) : Type 0 where
  same_versions : db'.model_versions ≡ db.model_versions
  same_mainline : select is_mainline db'.capabilities ≡ select is_mainline db.capabilities
  same_mappings : db'.mappings ≡ db.mappings
  entries :
      (db'.capability_versions ≡ db.capability_versions)
      ⊎ ((v : CapabilityVersion) × (v.model_version_id ≡ branch_id)
          × (db'.capability_versions ≡ v ∷ db.capability_versions))

branch_found :
    (branch_id : Uuid) (db : Db) (b : ModelVersion)
    → get_branch branch_id db ≡ ok b
    → (find_version branch_id db ≡ some b) × (is_main b.branch_type ≡ false)
unfolding get_branch
branch_found branch_id db b h = elim (Option-cases (find_version branch_id db)) [
  | inl missing ↦ absurd (ground arith)
  | inr (v, found) ↦ elim (Bool-cases (is_main v.branch_type)) [
    | inl main ↦ absurd (ground arith)
    | inr local ↦ ground arith
  ]
]

writable :
    (branch_id : Uuid) (db : Db)
    → ensure_branch_writable branch_id db ≡ ok tt
    → (b : ModelVersion) × (get_branch branch_id db ≡ ok b)
unfolding ensure_branch_writable
writable branch_id db h = elim (Result-cases (get_branch branch_id db)) [
  | inl (b, found) ↦ (b, found)
  | inr (e, fails) ↦ absurd (ground arith)
]

versions_apart :
    (branch_id version_id : Uuid) (now : Time) (db : Db) (b : ModelVersion)
    → IsDistinct (version_ids db.model_versions)
    → get_branch branch_id db ≡ ok b
    → elem branch_id (versions_at version_id now db) ≡ false
unfolding versions_at find_version
versions_apart branch_id version_id now db b ids found =
    let (there, local) = branch_found branch_id db b found in
    not_main branch_id
      (λ v.
        published_by (cutoff_of (find_version version_id db) now) v.published_at
        || v.id == version_id)
      db.model_versions b ids there local

versions_at-same :
    (version_id : Uuid) (now : Time) (db db' : Db)
    → db'.model_versions ≡ db.model_versions
    → versions_at version_id now db' ≡ versions_at version_id now db
unfolding versions_at find_version
versions_at-same version_id now db db' same = rw same refl

states_apart :
    (branch_id version_id : Uuid) (now : Time) (db db' : Db) (b : ModelVersion)
    → IsDistinct (version_ids db.model_versions)
    → get_branch branch_id db ≡ ok b
    → IsApart branch_id db db'
    → states_at version_id now db' ≡ states_at version_id now db
unfolding states_at entries_at select
states_apart branch_id version_id now db db' b ids found apart =
    let miss = versions_apart branch_id version_id now db b ids found in
    let same = versions_at-same version_id now db db' apart.same_versions in
    elim apart.entries [
      | inl kept ↦ rw (same, kept) refl
      | inr (v, at, more) ↦ rw (same, more, at, miss) refl
    ]

creation-IsApart :
    (branch_id : Uuid) (dto : BranchCapabilityDto) (fields : List ChangedField)
    (after : Option Snapshot) (actor : ActorId) (now : Time) (db : Db)
    → IsApart branch_id db (
        add_branch_entry branch_id
          (branch_capability dto branch_id db.next_uuid now).id
          CapabilityVersionChangeType.create
          fields
          none
          after
          actor
          none
          now
          (record db {
            capabilities = branch_capability dto branch_id db.next_uuid now ∷ db.capabilities;
            next_uuid = suc db.next_uuid;
          }))
unfolding add_branch_entry branch_capability select
creation-IsApart branch_id dto fields after actor now db = record {
  same_versions = refl;
  same_mainline = refl;
  same_mappings = refl;
  entries = inr (_, refl, refl);
}

entry-IsApart :
    (branch_id capability_id : Uuid) (change_type : CapabilityVersionChangeType)
    (fields : List ChangedField) (before after : Option Snapshot) (actor : ActorId)
    (previous : Option Uuid) (now : Time) (db : Db)
    → IsApart branch_id db (
        add_branch_entry branch_id capability_id change_type fields before after actor previous now
          db)
unfolding add_branch_entry
entry-IsApart branch_id capability_id change_type fields before after actor previous now db =
    record {
      same_versions = refl;
      same_mainline = refl;
      same_mappings = refl;
      entries = inr (_, refl, refl);
    }

record_fields-IsApart :
    (branch_id capability_id : Uuid) (fields : List ChangedField) (before after : Snapshot)
    (actor : ActorId) (now : Time) (db : Db)
    → IsApart branch_id db (record_fields branch_id capability_id fields before after actor now db)
record_fields-IsApart branch_id capability_id [] before after actor now db = record {
  same_versions = refl;
  same_mainline = refl;
  same_mappings = refl;
  entries = inl refl;
}
record_fields-IsApart branch_id capability_id (f ∷ fs) before after actor now db =
    entry-IsApart branch_id capability_id CapabilityVersionChangeType.update (f ∷ fs) (some before)
      (some after) actor _ now db

create-IsApart :
    (branch_id : Uuid) (dto : BranchCapabilityDto) (actor : ActorId) (now : Time) (db db' : Db)
    → create_capability_in_branch branch_id dto actor now db ≡ ok db'
    → ((b : ModelVersion) × (get_branch branch_id db ≡ ok b)) × IsApart branch_id db db'
unfolding create_capability_in_branch
create-IsApart branch_id dto actor now db db' done =
    elim (check-cases (ensure_branch_writable branch_id db)) [
      | inr (e, fails) ↦ absurd (ground arith)
      | inl allowed ↦ elim (check-cases (name_free dto.unique_name db.capabilities)) [
        | inr (e, fails) ↦ absurd (ground arith)
        | inl free ↦ (
          writable branch_id db allowed,
          subst (IsApart branch_id db)
              {x = add_branch_entry branch_id (branch_capability dto branch_id db.next_uuid now).id
                CapabilityVersionChangeType.create
                (compute_changed_fields none
                  (some (snapshot_of (branch_capability dto branch_id db.next_uuid now))))
                none (some (snapshot_of (branch_capability dto branch_id db.next_uuid now))) actor
                none now
                (record db {
                  capabilities = branch_capability dto branch_id db.next_uuid now ∷ db.capabilities;
                  next_uuid = suc db.next_uuid;
                })}
              {y = db'} (ground arith) (creation-IsApart branch_id dto _ _ actor now db),
        )
      ]
    ]

update-IsApart :
    (branch_id capability_id : Uuid) (dto : List (String × Json)) (actor : ActorId) (now : Time)
    (db db' : Db) (shown : List (String × Json))
    → update_capability_in_branch branch_id capability_id dto actor now db ≡ ok (shown, db')
    → ((b : ModelVersion) × (get_branch branch_id db ≡ ok b)) × IsApart branch_id db db'
unfolding update_capability_in_branch
update-IsApart branch_id capability_id dto actor now db db' shown done =
    elim (check-cases (ensure_branch_writable branch_id db)) [
      | inr (e, fails) ↦ absurd (ground arith)
      | inl allowed ↦
          elim (Result-cases (get_capability_in_branch branch_id capability_id now db)) [
            | inr (e, fails) ↦ absurd (ground arith)
            | inl (current, found) ↦ (
              writable branch_id db allowed,
              subst (IsApart branch_id db)
                  {x = record_fields branch_id capability_id
                    (compute_changed_fields (some current) (some (merge_fields dto current)))
                    current (merge_fields dto current) actor now db}
                  {y = db'} (ground arith)
                  (record_fields-IsApart branch_id capability_id _ current _ actor now db),
            )
          ]
    ]

delete-IsApart :
    (branch_id capability_id : Uuid) (actor : ActorId) (now : Time) (db db' : Db)
    → delete_capability_in_branch branch_id capability_id actor now db ≡ ok db'
    → ((b : ModelVersion) × (get_branch branch_id db ≡ ok b)) × IsApart branch_id db db'
unfolding delete_capability_in_branch
delete-IsApart branch_id capability_id actor now db db' done =
    elim (check-cases (ensure_branch_writable branch_id db)) [
      | inr (e, fails) ↦ absurd (ground arith)
      | inl allowed ↦
          elim (Result-cases (get_capability_in_branch branch_id capability_id now db)) [
            | inr (e, fails) ↦ absurd (ground arith)
            | inl (current, found) ↦ (
              writable branch_id db allowed,
              subst (IsApart branch_id db)
                  {x = add_branch_entry branch_id capability_id CapabilityVersionChangeType.delete
                    (compute_changed_fields (some current) none) (some current) none actor
                    (latest_version capability_id db.capability_versions) now db}
                  {y = db'} (ground arith)
                  (entry-IsApart branch_id capability_id _ _ _ _ actor _ now db),
            )
          ]
    ]

Edit-IsApart :
    {branch_id : Uuid} {db db' : Db}
    → Edit branch_id db db'
    → ((b : ModelVersion) × (get_branch branch_id db ≡ ok b)) × IsApart branch_id db db'
Edit-IsApart {branch_id = i} {db = db} {db' = db'} (creates dto actor now done) =
    create-IsApart i dto actor now db db' done
Edit-IsApart {branch_id = i} {db = db} {db' = db'} (updates c dto actor now shown done) =
    update-IsApart i c dto actor now db db' shown done
Edit-IsApart {branch_id = i} {db = db} {db' = db'} (deletes c actor now done) =
    delete-IsApart i c actor now db db' done

-- A write in a branch of a reachable database leaves the mainline alone: its capabilities, the
-- mappings, all model versions, and what every capability looked like at every version of MAIN.
pub branch_edits_isolated :
    {branch_id : Uuid} {db db' : Db} (version_id : Uuid) (now : Time)
    → Reach db
    → Edit branch_id db db'
    → (select is_mainline db'.capabilities ≡ select is_mainline db.capabilities)
      × (db'.mappings ≡ db.mappings)
      × (db'.model_versions ≡ db.model_versions)
      × (states_at version_id now db' ≡ states_at version_id now db)
branch_edits_isolated {branch_id = i} {db = db} {db' = db'} version_id now r e =
    let ((b, found), apart) = Edit-IsApart e in
    (
      apart.same_mainline,
      apart.same_mappings,
      apart.same_versions,
      states_apart i version_id now db db' b (one_draft r).2 found apart,
    )
