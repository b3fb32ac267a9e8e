-- ===== src/Versions/OneDraft/Safety.antt =====
-- What every run of the versioning operations keeps, and what it rules out.
use ecm_management.Base.{◌≤◌, ◌≡◌, refl, ap, ◌⊎◌, some, [], arith, find_first, IsDistinct, count}
use ecm_management.Schema.{
  Uuid, Time, ModelVersion, Db, draft_exists, model_version_not_found, not_a_published_version, ok,
  err,
}
use ecm_management.Structural.History.{is_main_draft, new_draft}
use ecm_management.Delivery.{record_model_version_event}
use ecm_management.Versions.States.{find_version}
use ecm_management.Versions.Publish.{
  get_current_draft, add_version, PublishDto, is_main_published, promote, publish_draft,
  record_version_audit, publish_snapshot,
}
use ecm_management.Versions.Rollback.{RollbackDto, rollback}
use ecm_management.Versions.OneDraft.Rows.{version_ids}
use ecm_management.Versions.OneDraft.System.{Reach}
use ecm_management.Versions.OneDraft.Kept.{Kept, promoted, new_draft_kind, promoted_row}
use ecm_management.Versions.OneDraft.Runs.{refused, publishes_as, Reach-Kept}

-- In every reachable database either there is no model version, or exactly one is the MAIN draft;
-- at most one is the published version of MAIN, and no two have the same id.
pub one_draft :
    {db : Db}
    → Reach db
    → ((db.model_versions ≡ []) ⊎ (count is_main_draft db.model_versions ≡ 1))
      × (count is_main_published db.model_versions ≤ 1)
      × IsDistinct (version_ids db.model_versions)
one_draft r = let k = Reach-Kept r in (k.drafts_one, k.published_one, k.distinct)

-- In every reachable database a rollback is refused, whatever version it asks for: there is no such
-- version, or it was not published, or there is a MAIN draft.
pub rollback_refused :
    {db : Db} (dto : RollbackDto) (now : Time)
    → Reach db
    → (rollback dto now db ≡ err (model_version_not_found dto.rollback_of_version_id))
      ⊎ (((v : ModelVersion) × (find_version dto.rollback_of_version_id db ≡ some v)
            × (rollback dto now db
                ≡ err (not_a_published_version dto.rollback_of_version_id v.state)))
          ⊎ (rollback dto now db ≡ err draft_exists))
rollback_refused {db = db} dto now r = refused dto now db (Reach-Kept r)

published_settles :
    (dto : PublishDto) (now : Time) (db : Db) (d : ModelVersion)
    → Kept db
    → get_current_draft db ≡ some d
    → (get_current_draft (publish_draft dto d.id now db).1
        ≡ some (new_draft db.next_uuid dto.actor_id (some d.id) now))
      × (count is_main_draft (publish_draft dto d.id now db).1.model_versions ≡ 1)
      × (count is_main_published (publish_draft dto d.id now db).1.model_versions ≡ 1)
      × (find_version d.id (publish_draft dto d.id now db).1 ≡ some (promote dto now d))
unfolding get_current_draft publish_draft record_model_version_event add_version find_version
    find_first count
published_settles dto now db d k found =
    let (named, draft, quiet) = new_draft_kind db.next_uuid dto.actor_id (some d.id) now in
    let p = promoted dto now db.model_versions db.next_uuid d k found in
    (
      rw draft refl,
      ground (arith, p.no_draft),
      ground (arith, p.one_published),
      unfold find_first in promoted_row dto now db.model_versions db.next_uuid d _ k found named,
    )

-- After a publication from a reachable database the row of the published id is the former MAIN
-- draft, promoted; MAIN has one published version and one draft, and that draft is the new one, based
-- on the published version.
pub publish_snapshot-settles :
    {db db' : Db} (dto : PublishDto) (now : Time) (published_id draft_id : Uuid)
    → Reach db
    → publish_snapshot dto now db ≡ ok ((published_id, draft_id), db')
    → (get_current_draft db' ≡ some (new_draft draft_id dto.actor_id (some published_id) now))
      × (count is_main_draft db'.model_versions ≡ 1)
      × (count is_main_published db'.model_versions ≡ 1)
      × ((d : ModelVersion) × (get_current_draft db ≡ some d)
          × (find_version published_id db' ≡ some (promote dto now d)))
unfolding get_current_draft record_version_audit find_version
publish_snapshot-settles {db = db} {db' = db'} dto now published_id draft_id r done =
    let (d, found, named, after) = publishes_as dto now db db' (published_id, draft_id) done in
    let (one_new, drafts, published, row) = published_settles dto now db d (Reach-Kept r) found in
    rw (after, ap (λ m. m.0) named, ap (λ m. m.1) named)
      (one_new, drafts, published, (d, found, row))
