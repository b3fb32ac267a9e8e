-- ===== src/Workflow/Refines/Plain.antt =====
-- `submit`, `cancel` and `requestApproval` as moves.
use ecm_management.Base.{
  ◌≤◌, ◌≡◌, refl, ◌∙◌, ◌⊎◌, inl, inr, true, Option, none, some, List, ◌∷◌, String, arith,
  if◌then◌else◌, ◌==◌, Option-cases, Bool-cases, find_first,
}
use ecm_management.Schema.{
  Uuid, ActorId, Time, ChangeRequestStatus, ChangeRequest, ChangeRequestAuditEntry, AuditAction,
  AuditMetadata, Db, Result, ok, err, no_metadata, transition,
}
use ecm_management.Impact.{ImpactSummaryData, analyse}
use ecm_management.ChangeRequest.Store.{
  Detail, Outcome, find_request, guarded_update, append_trail, record_audit, status_to_audit_action,
  notify_cr_recipient, check_then,
}
use ecm_management.ChangeRequest.Transitions.{
  trail_entry, transition_tx, apply_transition, assert_valid_transition, submit, cancel,
  request_approval, CreateChangeRequestDto, new_request, create_row, lacks_summary, fill_summary,
}
use ecm_management.Workflow.{IsOutside}
use ecm_management.Workflow.Frames.{IsOutside-trans}
use ecm_management.Workflow.Views.{view, view_row, guarded_update-some, view-update_same}
use ecm_management.Workflow.Moves.{
  view_in, Change, Same, is_plain, Move, stay, advance, open_request,
}

pub Same-refl : (db : Db) → Same db db
Same-refl db = record {
  same_views = λ j. refl;
  same_decisions = refl;
  same_locks = refl;
  same_trail = refl;
  grows = omega arith;
}

pub IsOutside-Same : {db db' : Db} → IsOutside db db' → Same db db'
IsOutside-Same h = record {
  same_views = λ j i. view j (h.same_requests i);
  same_decisions = h.same_decisions;
  same_locks = h.same_locks;
  same_trail = h.same_trail;
  grows = h.later_uuid;
}

pub record_audit-IsOutside :
    (id : Uuid) (a : AuditAction) (actor_id : ActorId) (m : AuditMetadata) (now : Time) (db : Db)
    → IsOutside db (record_audit id a actor_id m now db)
unfolding record_audit
record_audit-IsOutside id a actor_id m now db = ground arith

pub notify-IsOutside :
    (status : ChangeRequestStatus) (id : Uuid) (recipient : ActorId) (db : Db)
    → IsOutside db (notify_cr_recipient status id recipient db)
unfolding notify_cr_recipient
notify-IsOutside ChangeRequestStatus.draft id recipient db = ground arith
notify-IsOutside _ id recipient db = ground arith

-- Two databases with the same requests and trail.
pub record SameRequests (old before : Db) : Type 0 where
  pub same_views : (j : Uuid) → view_in j before ≡ view_in j old
  pub same_trail : before.change_request_audit ≡ old.change_request_audit
  pub grows : old.next_uuid ≤ before.next_uuid

pub Same-SameRequests : {old before : Db} → Same old before → SameRequests old before
Same-SameRequests h = record {
  same_views = h.same_views;
  same_trail = h.same_trail;
  grows = h.grows;
}

-- A guarded update and a trail entry are a change, seen from any database that agrees on the workflow
-- before and from any that agrees after.
pub update-Change :
    (id : Uuid) (from to : ChangeRequestStatus) {old before db' after : Db}
    (entry : ChangeRequestAuditEntry)
    → SameRequests old before
    → guarded_update id from to before.change_requests ≡ some db'.change_requests
    → db'.change_request_audit ≡ entry ∷ before.change_request_audit
    → entry.change_request_id ≡ id
    → entry.from_status ≡ some from
    → entry.to_status ≡ some to
    → before.next_uuid ≤ db'.next_uuid
    → IsOutside db' after
    → Change id from to old after
update-Change id from to {old = old} {before = before} {db' = db'} {after = after} entry same h t i
      f o n out =
    let (v, found, was, moved) = guarded_update-some id from to before.change_requests h in
    record {
      seen = v;
      found = ground (arith, same.same_views id);
      was = was;
      moved = λ j. ground (arith, moved j, same.same_views j, (IsOutside-Same out).same_views j);
      logged = record {
        entry = entry;
        appended = ground arith;
        of_request = i;
        from_old = f;
        to_new = o;
      };
      grows = omega arith;
    }

-- A check that fails writes nothing.
pub check_then-Move :
    (db : Db) (r : Result (Unit {0})) (rest : Outcome)
    → (r ≡ ok tt → Move db rest.0)
    → Move db (check_then db r rest).0
unfolding check_then
check_then-Move db (ok tt) rest m = m refl
check_then-Move db (err e) rest m = stay (Same-refl db)

-- What follows a commit is outside the workflow.
pub announced-IsOutside :
    (status : ChangeRequestStatus) (recipient : ActorId) (id : Uuid) (a : AuditAction)
    (actor_id : ActorId) (m : AuditMetadata) (now : Time) (db : Db)
    → IsOutside db (notify_cr_recipient status id recipient (record_audit id a actor_id m now db))
announced-IsOutside status recipient id a actor_id m now db =
    IsOutside-trans (record_audit-IsOutside id a actor_id m now db)
      (notify-IsOutside status id recipient _)

transition-Move :
    (s : Detail) (to : ChangeRequestStatus) (actor_id : ActorId) (event_type : String)
    (comment : Option String) (now : Time) (old db : Db)
    → is_plain s.request.status to ≡ true
    → Same old db
    → Move old (apply_transition s to actor_id event_type comment now db).0
unfolding apply_transition
transition-Move s to actor_id event_type comment now old db plain same =
    elim (Option-cases (guarded_update s.request.id s.request.status to db.change_requests)) [
      | inl e ↦ rw (e, transition_tx) (stay same)
      | inr (requests, e) ↦
          let out =
            announced-IsOutside to s.request.requested_by s.request.id (status_to_audit_action to)
              actor_id (transition s.request.status to event_type) now
              (append_trail
                (trail_entry s.request.id actor_id event_type s.request.status to comment
                  no_metadata now)
                (record db { change_requests = requests })) in
          rw (e, transition_tx)
            (advance s.request.id s.request.status to
              (update-Change s.request.id s.request.status to
                (trail_entry s.request.id actor_id event_type s.request.status to comment
                  no_metadata now)
                (Same-SameRequests same) e refl refl refl refl (omega arith) out)
              plain (out.same_decisions ∙ same.same_decisions) (out.same_locks ∙ same.same_locks))
    ]

-- A status that may go to SUBMITTED, CANCELLED or PENDING_APPROVAL goes there plainly.
plain_of_valid :
    (from to : ChangeRequestStatus) (action : String)
    → assert_valid_transition from to action ≡ ok tt
    → (to ≡ ChangeRequestStatus.submitted)
      ⊎ (to ≡ ChangeRequestStatus.cancelled)
      ⊎ (to ≡ ChangeRequestStatus.pending_approval)
    → is_plain from to ≡ true
unfolding assert_valid_transition
plain_of_valid ChangeRequestStatus.draft to action h k = ground arith
plain_of_valid _ to action h k = ground arith

pub submit-Move :
    (s : Detail) (actor_id : ActorId) (now : Time) (db : Db) → Move db (submit s actor_id now db).0
unfolding submit
submit-Move s actor_id now db = check_then-Move db _ _ λ e.
    transition-Move s ChangeRequestStatus.submitted actor_id "SUBMITTED" none now db db
      (plain_of_valid s.request.status ChangeRequestStatus.submitted "submit" e (inl refl))
      (Same-refl db)

pub cancel-Move :
    (s : Detail) (actor_id : ActorId) (comment : Option String) (now : Time) (db : Db)
    → Move db (cancel s actor_id comment now db).0
unfolding cancel
cancel-Move s actor_id comment now db = check_then-Move db _ _ λ e.
    transition-Move s ChangeRequestStatus.cancelled actor_id "CANCELLED" comment now db db
      (plain_of_valid s.request.status ChangeRequestStatus.cancelled "cancel" e (inr (inl refl)))
      (Same-refl db)

-- The stored summary is not part of the workflow.
fill_summary-Same :
    (r : ChangeRequest) (impact : ImpactSummaryData) (db : Db) → Same db (fill_summary r impact db)
unfolding fill_summary
fill_summary-Same r impact db = elim (Bool-cases (lacks_summary r.impact_summary)) [
  | inl e ↦ rw e (record {
    same_views = λ j. view-update_same j r.id _ db.change_requests (λ x. refl) (λ x. refl);
    same_decisions = refl;
    same_locks = refl;
    same_trail = refl;
    grows = omega arith;
  })
  | inr e ↦ rw e (Same-refl db)
]

pub request_approval-Move :
    (s : Detail) (actor_id : ActorId) (now : Time) (db : Db)
    → Move db (request_approval s actor_id now db).0
unfolding request_approval
request_approval-Move s actor_id now db = check_then-Move db _ _ λ e. check_then-Move db _ _ λ _.
    transition-Move s ChangeRequestStatus.pending_approval actor_id "PENDING_APPROVAL" none now db
      (fill_summary s.request impact db)
      (plain_of_valid s.request.status ChangeRequestStatus.pending_approval "request-approval" e
        (inr (inr refl)))
      (fill_summary-Same s.request impact db)
  where
    impact : ImpactSummaryData
    impact = (analyse s.request.affected_capability_ids (some s.request.type) db).summary

view-cons :
    (j : Uuid) (r : ChangeRequest) (rs : List ChangeRequest)
    → view j (r ∷ rs) ≡ (if r.id == j then view_row (some r) else view j rs)
unfolding view find_request find_first
view-cons j r rs = ground arith

pub create_row-Move :
    (dto : CreateChangeRequestDto) (actor_id : ActorId) (now : Time) (db : Db)
    → Move db (create_row dto actor_id now db)
unfolding create_row
create_row-Move dto actor_id now db =
    open_request db.next_uuid
      (record {
        opened = record {
          status = ChangeRequestStatus.draft;
          type = dto.type;
          affected = dto.affected_capability_ids;
        };
        as_draft = refl;
        new_id = refl;
        used_up = omega arith;
        added = λ j.
            ground
              (arith, view-cons j (new_request dto actor_id db.next_uuid now) db.change_requests);
        same_trail = refl;
      })
      refl refl
