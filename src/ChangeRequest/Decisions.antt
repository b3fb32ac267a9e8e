-- ===== src/ChangeRequest/Decisions.antt =====
-- change-request.service.ts: `submitDecision`. The curator decides first, then the governance board.
use ecm_management.Base.{Option, none, some, ◌∷◌, String, if◌then◌else◌, str_eq}
use ecm_management.Schema.{
  Uuid, ActorId, Time, ChangeRequestStatus, ApprovalDecisionOutcome, status_eq, is_approved,
  ApprovalDecision, decided, AuditAction, decision, Db, invalid_state_transition,
  decision_already_recorded, all_approvals_submitted, curator_already_rejected,
  insufficient_approval_role, Result, ok, err, ◌>>=◌, ◌>>◌,
}
use ecm_management.ChangeRequest.Store.{
  Detail, Outcome, decision_by, decisions_of, guarded_update, current_status, append_trail,
  record_audit, notify_cr_recipient, commit, check_then,
}
use ecm_management.ChangeRequest.Transitions.{trail_entry}

abbrev pub curator_role : String
curator_role = "curator"

abbrev pub governance_board_role : String
governance_board_role = "governance-board"

pub record ApprovalDecisionDto : Type 0 where
  pub decision : ApprovalDecisionOutcome
  pub comment : Option String

-- The sequence check, from the curator's and the board's decisions.
unfoldable pub check_sequence :
    Option ApprovalDecision → Option ApprovalDecision → String → Result (Unit {0})
check_sequence none board actor_role =
    if str_eq actor_role curator_role
    then ok tt
    else err (
        insufficient_approval_role
          "curator approval must be recorded before governance-board may act")
check_sequence (some curator) (some board) actor_role =
    if is_approved curator.decision
    then err all_approvals_submitted
    else err curator_already_rejected
check_sequence (some curator) none actor_role =
    if is_approved curator.decision
    then if str_eq actor_role governance_board_role
      then ok tt
      else err
          (insufficient_approval_role "curator has approved; awaiting governance-board decision")
    else err curator_already_rejected

unfoldable pub no_duplicate : Option ApprovalDecision → String → Result (Unit {0})
no_duplicate none actor_role = ok tt
no_duplicate (some d) actor_role = err (decision_already_recorded actor_role)

-- Every check before the transaction, in the order of the source.
unfoldable pub check_decision : Detail → String → Result (Unit {0})
unfolding check_sequence no_duplicate
check_decision s actor_role = do
  if status_eq s.request.status ChangeRequestStatus.pending_approval
      then ok tt
      else err (invalid_state_transition s.request.status "submit-decision")
  no_duplicate (decision_by actor_role s.decisions) actor_role
  check_sequence (decision_by curator_role s.decisions)
      (decision_by governance_board_role s.decisions) actor_role

-- `newStatus`, and the event's name.
unfoldable pub decision_effect :
    ApprovalDecisionOutcome → String → Option ChangeRequestStatus × String
decision_effect ApprovalDecisionOutcome.rejected actor_role =
    (some ChangeRequestStatus.rejected, "REJECTED")
decision_effect ApprovalDecisionOutcome.approved actor_role =
    if str_eq actor_role governance_board_role
    then (some ChangeRequestStatus.approved, "APPROVED")
    else (none, "CURATOR_APPROVED")

unfoldable pub new_decision :
    Uuid → ApprovalDecisionDto → ActorId → String → Time → ApprovalDecision
new_decision id dto actor_id actor_role now = record {
  change_request_id = id;
  approver_role = actor_role;
  approver_id = actor_id;
  decision = dto.decision;
  comment = dto.comment;
  decided_at = now;
}

-- approvalDecision.create under the unique constraint on request and role; P2002 is mapped to the
-- conflict error.
unfoldable pub insert_decision : ApprovalDecision → Db → Result Db
insert_decision d db =
    elim (decision_by d.approver_role (decisions_of d.change_request_id db.approval_decisions)) [
      | some _ ↦ err (decision_already_recorded d.approver_role)
      | none ↦ ok (record db { approval_decisions = d ∷ db.approval_decisions })
    ]

unfoldable pub move_status : Uuid → Option ChangeRequestStatus → String → Db → Result Db
move_status id none event_type db = ok db
move_status id (some to) event_type db =
    elim (guarded_update id ChangeRequestStatus.pending_approval to db.change_requests) [
      | none ↦ err (
          invalid_state_transition
            (current_status id ChangeRequestStatus.pending_approval db.change_requests) event_type)
      | some requests ↦ ok (record db { change_requests = requests })
    ]

-- `newStatus ?? PENDING_APPROVAL`
unfoldable pub status_after : Option ChangeRequestStatus → ChangeRequestStatus
status_after none = ChangeRequestStatus.pending_approval
status_after (some s) = s

unfoldable pub decision_tx : Uuid → ApprovalDecisionDto → ActorId → String → Time → Db → Result Db
decision_tx id dto actor_id actor_role now db = do
  let effect = decision_effect dto.decision actor_role
  inserted ← insert_decision (new_decision id dto actor_id actor_role now) db
  moved ← move_status id effect.0 effect.1 inserted
  ok (
      append_trail
        (trail_entry id actor_id effect.1 ChangeRequestStatus.pending_approval
          (status_after effect.0) dto.comment (decided actor_role dto.decision) now)
        moved)

abbrev audit_action_of : ChangeRequestStatus → AuditAction
audit_action_of ChangeRequestStatus.approved = AuditAction.approve
audit_action_of _ = AuditAction.reject

-- The audit entry and the notification of a final outcome.
unfoldable pub announce :
    Option ChangeRequestStatus → Detail → ApprovalDecisionDto → ActorId → String → Time → Db → Db
announce none s dto actor_id actor_role now db = db
announce (some status) s dto actor_id actor_role now db =
    notify_cr_recipient status s.request.id s.request.requested_by (
      record_audit s.request.id (audit_action_of status) actor_id
        (decision actor_role dto.decision status) now db)

unfoldable pub submit_decision :
    Detail → ApprovalDecisionDto → ActorId → String → Time → Db → Outcome
submit_decision s dto actor_id actor_role now db = check_then db (check_decision s actor_role) (
    commit db (announce (decision_effect dto.decision actor_role).0 s dto actor_id actor_role now)
      (decision_tx s.request.id dto actor_id actor_role now db))
