-- ===== src/Workflow/Invariant/Trail.antt =====
-- The trail of a request, replayed from its oldest entry, leads to the status that the request has.
use ecm_management.Base.{
  ◌≡◌, sym, ap, ◌∙◌, inl, inr, Option, none, some, List, [], ◌∷◌, arith, if◌then◌else◌, ◌==◌, ==→eq,
  Bool-cases, Option-cases,
}
use ecm_management.Schema.{
  Uuid, ChangeRequestStatus, status_eq, status_eq_refl, ChangeRequestAuditEntry, ChangeRequest,
  Time, Db,
}
use ecm_management.ChangeRequest.Store.{append_trail, record_audit}
use ecm_management.ChangeRequest.Transitions.{log_creation}
use ecm_management.Workflow.Views.{RequestView, view}
use ecm_management.Workflow.Moves.{
  view_in, Change, Move, stay, open_request, advance, decide, lock, release,
}
use ecm_management.Workflow.Invariant.Reads.{IsFresh}

-- Where a replay of the trail stands: at a status, or at an entry that does not continue the one
-- before it.
pub data Replay : Type 0 where
  broken : Replay
  at : ChangeRequestStatus → Replay

-- An entry that comes from no status is that of a creation, which moves nothing.
unfoldable pub extend : Replay → Option ChangeRequestStatus → Option ChangeRequestStatus → Replay
extend before none to = before
extend (at s) (some from) (some to) = if status_eq s from then at to else broken
extend _ _ _ = broken

-- The replay of a request's transitions, from DRAFT.
unfoldable pub replay : Uuid → List ChangeRequestAuditEntry → Replay
replay id [] = at ChangeRequestStatus.draft
replay id (e ∷ older) =
    let before = replay id older in
    if e.change_request_id == id then extend before e.from_status e.to_status else before

abbrev pub at_view : Option RequestView → Replay
at_view none = at ChangeRequestStatus.draft
at_view (some v) = at v.status

-- The trail tells the status of every request, and no transition of ids that are no request.
abbrev pub IsTold : Db → Type 0
IsTold db = (j : Uuid) → replay j db.change_request_audit ≡ at_view (view_in j db)

replay-cons :
    (j : Uuid) (e : ChangeRequestAuditEntry) (db db' : Db)
    → db'.change_request_audit ≡ e ∷ db.change_request_audit
    → replay j db'.change_request_audit ≡ (
        if e.change_request_id == j
        then extend (replay j db.change_request_audit) e.from_status e.to_status
        else replay j db.change_request_audit)
unfolding replay
replay-cons j e db db' h = ap (replay j) h

changed-IsTold :
    (id : Uuid) (from to : ChangeRequestStatus) (db db' : Db)
    → Change id from to db db'
    → IsTold db
    → IsTold db'
unfolding extend
changed-IsTold id from to db db' c told j =
    let l = c.logged in
    replay-cons j l.entry db db' l.appended ∙ (elim (Bool-cases (j == id)) [
      | inl hit ↦ ground (
        arith,
        told j,
        l.of_request,
        l.from_old,
        l.to_new,
        c.moved j,
        c.found,
        c.was,
        ==→eq j id hit,
        status_eq_refl from,
      )
      | inr other ↦ ground (arith, told j, l.of_request, c.moved j)
    ])

pub Move-IsTold : {db db' : Db} → IsFresh db → Move db db' → IsTold db → IsTold db'
unfolding extend
Move-IsTold fresh (stay same) told j =
    ap (replay j) same.same_trail ∙ told j ∙ ap at_view (sym (same.same_views j))
Move-IsTold {db = db} {db' = db'} fresh (open_request id o ds ls) told j =
    ap (replay j) o.same_trail ∙ told j ∙ elim (Bool-cases (j == id)) [
      | inr other ↦ ground (arith, o.added j)
      | inl hit ↦ elim (Option-cases (view_in j db)) [
        | inr (v, e) ↦ absurd (ground (arith, fresh j v e, o.new_id, ==→eq j id hit))
        | inl e ↦ ground (arith, o.added j, o.as_draft)
      ]
    ]
Move-IsTold {db = db} {db' = db'} fresh (advance id from to c plain ds ls) told j =
    changed-IsTold id from to db db' c told j
Move-IsTold {db = db} {db' = db'} fresh (decide id to d c k ds i f done ls) told j =
    changed-IsTold id _ to db db' c told j
Move-IsTold {db = db} {db' = db'} fresh (lock id c ds k) told j =
    changed-IsTold id _ _ db db' c told j
Move-IsTold {db = db} {db' = db'} fresh (release id to c k ds r) told j =
    changed-IsTold id _ to db db' c told j

-- The entry of a creation, whenever it comes.
pub log_creation-IsTold :
    (r : ChangeRequest) (now : Time) (db : Db) → IsTold db → IsTold (log_creation r now db)
unfolding log_creation append_trail record_audit replay extend view
log_creation-IsTold r now db told j = ground (arith, told j)
