-- ===== src/Versions/OneDraft/Runs.antt =====
-- Every operation keeps what holds of the model versions.
use ecm_management.Base.{
  ◌≡◌, refl, sym, subst, ◌⊎◌, inl, inr, false, Option, some, arith, Bool-cases, Option-cases,
  find_first, elem, count, select, update_many, List, ap, ◌==◌,
}
use ecm_management.Schema.{
  Uuid, ActorId, Time, Capability, CapabilityVersion, ModelVersionState, ModelVersion, Db,
  CapabilityVersionChangeType, Snapshot, draft_exists, model_version_not_found,
  not_a_published_version, check-cases, AuditAction, published_as, ok, err,
}
use ecm_management.Structural.History.{
  is_main_draft, is_main_draft_state, ensure_draft_version_id, record_change,
}
use ecm_management.Delivery.{record_model_version_event}
use ecm_management.Versions.States.{is_main, find_version}
use ecm_management.Versions.Publish.{
  get_current_draft, add_version, get_or_create_draft, PublishDto, label_free, is_main_published,
  publish_draft, record_version_audit, publish_snapshot,
}
use ecm_management.Structural.Merge.{ids}
use ecm_management.Versions.Rollback.{RollbackDto, was_published, rollback}
use ecm_management.Branches.Lifecycle.{
  CreateBranchDto, is_active_branch, create_branch, new_branch, get_branch, is_rolled_back,
  is_local_to, is_referenced, delete_entries, delete_rows, discard, discard_branch,
}
use ecm_management.Versions.OneDraft.Rows.{find_first-none-count}
use ecm_management.Versions.OneDraft.System.{
  Step, drafts, records, publishes, rolls_back, branches, discards, works_elsewhere, Reach, start,
  then_step,
}
use ecm_management.Versions.OneDraft.Kept.{
  IsKept, Kept, later, beside-IsKept, one_of_found, promoted, publication-IsKept, new_draft_kind,
  ensured, discarded,
}

drafts-Kept :
    (actor : ActorId) (now : Time) (db : Db) → Kept db → Kept (get_or_create_draft actor now db).1
unfolding get_or_create_draft get_current_draft add_version
drafts-Kept actor now db k = elim (Option-cases (find_first is_main_draft db.model_versions)) [
  | inl missing ↦
      rw (missing, get_or_create_draft, get_current_draft) (ensured actor now db k missing)
  | inr (v, found) ↦ rw (found, get_or_create_draft, get_current_draft) k
]

records-Kept :
    (capability_id : Uuid) (change_type : CapabilityVersionChangeType)
    (before after : Option Snapshot) (actor : ActorId) (now : Time) (db : Db)
    → Kept db
    → Kept (record_change capability_id change_type before after actor now db)
unfolding record_change ensure_draft_version_id
records-Kept c t b a actor now db k =
    elim (Option-cases (find_first is_main_draft db.model_versions)) [
      | inl missing ↦
          rw (missing, record_change, ensure_draft_version_id)
            (later (ensured actor now db k missing) (omega arith))
      | inr (v, found) ↦ rw (found, record_change, ensure_draft_version_id) (later k (omega arith))
    ]

publish_draft-Kept :
    (dto : PublishDto) (now : Time) (db : Db) (d : ModelVersion)
    → Kept db
    → find_first is_main_draft db.model_versions ≡ some d
    → Kept (publish_draft dto d.id now db).1
unfolding publish_draft record_model_version_event add_version
publish_draft-Kept dto now db d k found =
    let (named, draft, quiet) = new_draft_kind db.next_uuid dto.actor_id (some d.id) now in
    later
      (publication-IsKept db.model_versions _ db.next_uuid _ k
        (promoted dto now db.model_versions db.next_uuid d k found) named draft quiet)
      (omega arith)

pub publishes_as :
    (dto : PublishDto) (now : Time) (db db' : Db) (made : Uuid × Uuid)
    → publish_snapshot dto now db ≡ ok (made, db')
    → (d : ModelVersion) × (find_first is_main_draft db.model_versions ≡ some d)
      × (made ≡ (d.id, db.next_uuid))
      × (db'
          ≡ record_version_audit d.id AuditAction.publish dto.actor_id
              (published_as dto.version_label db.next_uuid)
              now
              (publish_draft dto d.id now db).1)
unfolding publish_snapshot get_current_draft publish_draft
publishes_as dto now db db' made done =
    elim (Option-cases (find_first is_main_draft db.model_versions)) [
      | inl missing ↦ absurd (ground arith)
      | inr (d, found) ↦ elim (check-cases (label_free dto.version_label d.id db.model_versions)) [
        | inl free ↦ (d, found, ground arith, ground arith)
        | inr (e, taken) ↦ absurd (ground arith)
      ]
    ]

publishes-Kept :
    (dto : PublishDto) (now : Time) (db db' : Db) (made : Uuid × Uuid)
    → Kept db
    → publish_snapshot dto now db ≡ ok (made, db')
    → Kept db'
unfolding record_version_audit
publishes-Kept dto now db db' made k done =
    let (d, found, named, after) = publishes_as dto now db db' made done in
    subst Kept (sym after) (publish_draft-Kept dto now db d k found)

pub refused :
    (dto : RollbackDto) (now : Time) (db : Db)
    → Kept db
    → (rollback dto now db ≡ err (model_version_not_found dto.rollback_of_version_id))
      ⊎ (((v : ModelVersion) × (find_version dto.rollback_of_version_id db ≡ some v)
            × (rollback dto now db
                ≡ err (not_a_published_version dto.rollback_of_version_id v.state)))
          ⊎ (rollback dto now db ≡ err draft_exists))
unfolding rollback get_current_draft find_version find_first
refused dto now db k = elim (Option-cases (find_version dto.rollback_of_version_id db)) [
  | inl missing ↦ inl (ground arith)
  | inr (target, found) ↦ elim (Bool-cases (was_published target.state)) [
    | inl was ↦ elim (Option-cases (find_first is_main_draft db.model_versions)) [
      | inl none_left ↦ elim k.drafts_one [
        | inl empty ↦ absurd (ground arith)
        | inr one ↦
            absurd (ground (arith, find_first-none-count is_main_draft db.model_versions none_left))
      ]
      | inr (d, there) ↦ inr (inr (ground arith))
    ]
    | inr was_not ↦ inr (inl (target, found, ground arith))
  ]
]

branch_made :
    (dto : CreateBranchDto) (base : Uuid) (actor : ActorId) (now : Time) (db : Db)
    → Kept db
    → count is_main_draft db.model_versions ≡ 1
    → Kept (add_version (new_branch dto base db.next_uuid actor now) db)
unfolding add_version new_branch is_main_draft is_main_draft_state is_main_published
branch_made dto base actor now db k one =
    beside-IsKept db.model_versions db.next_uuid _ k refl refl refl one

branches-Kept :
    (dto : CreateBranchDto) (actor : ActorId) (now : Time) (db db' : Db) (made : ModelVersion)
    → Kept db
    → create_branch dto actor now db ≡ ok (made, db')
    → Kept db'
unfolding create_branch get_current_draft
branches-Kept dto actor now db db' made k done =
    elim (Option-cases (find_first is_main_draft db.model_versions)) [
      | inl missing ↦ absurd (ground arith)
      | inr (d, found) ↦
          elim (Option-cases (find_first (is_active_branch dto.branch_name) db.model_versions)) [
            | inl free ↦
                subst Kept {x = add_version (new_branch dto d.id db.next_uuid actor now) db}
                  {y = db'} (ground arith)
                  (branch_made dto d.id actor now db k
                    (one_of_found db.model_versions db.next_uuid d k found))
            | inr (e, taken) ↦ absurd (ground arith)
          ]
    ]

discard_made :
    (branch_id : Uuid) (db db' : Db) (v : ModelVersion)
    → Kept db
    → find_version branch_id db ≡ some v
    → is_main v.branch_type ≡ false
    → discard branch_id db ≡ ok db'
    → Kept db'
unfolding discard find_version
discard_made branch_id db db' v k found local made =
    elim (Bool-cases (is_referenced (ids (select (is_local_to branch_id) db.capabilities)) db)) [
      | inl held ↦ absurd (ground arith)
      | inr free ↦
          let (rows, next) =
            written
              {entries = delete_entries (ids (select (is_local_to branch_id) db.capabilities))
                db.capability_versions}
              {rows = delete_rows (ids (select (is_local_to branch_id) db.capabilities))
                db.capabilities}
              (ground arith) in
          subst (λ n. IsKept db'.model_versions n) (sym next)
            (subst (λ vs. IsKept vs db.next_uuid) (sym rows)
              (discarded db.model_versions db.next_uuid branch_id v k found local))
    ]
  where
    retire : ModelVersion → ModelVersion
    retire w = record w { state = ModelVersionState.rolled_back }

    written :
        {entries : List CapabilityVersion} {rows : List Capability}
        → record db {
          model_versions = update_many (λ w. w.id == branch_id) retire db.model_versions;
          capability_versions = entries;
          capabilities = rows;
        }
          ≡ db'
        → (db'.model_versions ≡ update_many (λ w. w.id == branch_id) retire db.model_versions)
          × (db'.next_uuid ≡ db.next_uuid)
    written e = (sym (ap (λ d. d.model_versions) e), sym (ap (λ d. d.next_uuid) e))

discards-Kept :
    (branch_id : Uuid) (db db' : Db) → Kept db → discard_branch branch_id db ≡ ok db' → Kept db'
unfolding discard_branch get_branch
discards-Kept branch_id db db' k done = elim (Option-cases (find_version branch_id db)) [
  | inl missing ↦ absurd (ground arith)
  | inr (v, found) ↦ elim (Bool-cases (is_main v.branch_type)) [
    | inl main ↦ absurd (ground arith)
    | inr local ↦ elim (Bool-cases (is_rolled_back v.state)) [
      | inl gone ↦ absurd (ground arith)
      | inr here ↦ discard_made branch_id db db' v k found local (ground arith)
    ]
  ]
]

pub Step-Kept : {db db' : Db} → Step db db' → Kept db → Kept db'
Step-Kept {db = db} (drafts actor now) k = drafts-Kept actor now db k
Step-Kept {db = db} (records c t b a actor now) k = records-Kept c t b a actor now db k
Step-Kept {db = db} {db' = db'} (publishes dto now made done) k =
    publishes-Kept dto now db db' made k done
Step-Kept {db = db} {db' = db'} (rolls_back dto now made done) k =
    absurd (ground (arith, refused dto now db k))
Step-Kept {db = db} {db' = db'} (branches dto actor now made done) k =
    branches-Kept dto actor now db db' made k done
Step-Kept {db = db} {db' = db'} (discards id done) k = discards-Kept id db db' k done
Step-Kept {db = db} {db' = db'} (works_elsewhere same grows) k =
    subst (λ vs. IsKept vs db'.next_uuid) (sym same) (later k grows)

pub Reach-Kept : {db : Db} → Reach db → Kept db
unfolding count
Reach-Kept {db = db} (start empty) =
    subst (λ vs. IsKept vs db.next_uuid) (sym empty)
      (record {
        fresh = λ x b. unfold elem in refl;
        distinct = tt;
        drafts_one = inl refl;
        published_one = omega arith;
      })
Reach-Kept (then_step r s) = Step-Kept s (Reach-Kept r)
