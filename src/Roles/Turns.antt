-- ===== src/Roles/Turns.antt =====
-- In whose turn an administrator decides.
use ecm_management.Base.{
  ◌≡◌, refl, sym, ap, subst, ◌∙◌, ◌↔◌, inl, inr, true, none, some, String, arith, eq_iff,
  Bool-cases, Option-cases,
}
use ecm_management.Schema.{
  ChangeRequestStatus, status_eq, status_eq_refl, is_approved, ApprovalDecision, ok,
}
use ecm_management.ChangeRequest.Store.{Detail, decision_by}
use ecm_management.ChangeRequest.Decisions.{curator_role, governance_board_role, check_decision}
use ecm_management.Roles.{resolve_admin_approval_role}

pending :
    (s : Detail)
    → s.request.status ≡ ChangeRequestStatus.pending_approval
    → status_eq s.request.status ChangeRequestStatus.pending_approval ≡ true
pending s waits =
    ap (λ x. status_eq x ChangeRequestStatus.pending_approval) waits
    ∙ status_eq_refl ChangeRequestStatus.pending_approval

curator_accepted :
    (s : Detail)
    → s.request.status ≡ ChangeRequestStatus.pending_approval
    → decision_by curator_role s.decisions ≡ none
    → check_decision s curator_role ≡ ok tt
unfolding check_decision
curator_accepted s waits missing =
    ground (arith, pending s waits, (eq_iff curator_role curator_role).1 refl)

board_accepted :
    (s : Detail) (c : ApprovalDecision)
    → s.request.status ≡ ChangeRequestStatus.pending_approval
    → decision_by curator_role s.decisions ≡ some c
    → is_approved c.decision ≡ true
    → decision_by governance_board_role s.decisions ≡ none
    → check_decision s governance_board_role ≡ ok tt
unfolding check_decision
board_accepted s c waits there approved missing =
    ground (arith, pending s waits, (eq_iff governance_board_role governance_board_role).1 refl)

resolved-accepted :
    (s : Detail) (role : String)
    → s.request.status ≡ ChangeRequestStatus.pending_approval
    → resolve_admin_approval_role s.decisions ≡ some role
    → check_decision s role ≡ ok tt
unfolding resolve_admin_approval_role
resolved-accepted s role waits h = elim (Option-cases (decision_by curator_role s.decisions)) [
  | inl missing ↦
      subst (λ r. check_decision s r ≡ ok tt) {x = curator_role} {y = role} (ground arith)
        (curator_accepted s waits missing)
  | inr (c, there) ↦ elim (Option-cases (decision_by governance_board_role s.decisions)) [
    | inr (b, decided) ↦ absurd (ground arith)
    | inl open_turn ↦ elim (Bool-cases (is_approved c.decision)) [
      | inr rejected ↦ absurd (ground arith)
      | inl approved ↦
          subst (λ r. check_decision s r ≡ ok tt) {x = governance_board_role} {y = role}
            (ground arith) (board_accepted s c waits there approved open_turn)
    ]
  ]
]

accepted-resolved :
    (s : Detail) (role : String)
    → check_decision s role ≡ ok tt
    → resolve_admin_approval_role s.decisions ≡ some role
unfolding resolve_admin_approval_role check_decision
accepted-resolved s role h = elim (Option-cases (decision_by curator_role s.decisions)) [
  | inl missing ↦
      rw (missing, resolve_admin_approval_role)
        (ap some (sym ((eq_iff role curator_role).0 (ground arith))))
  | inr (c, there) ↦ elim (Option-cases (decision_by governance_board_role s.decisions)) [
    | inr (b, decided) ↦ absurd (ground arith)
    | inl open_turn ↦ elim (Bool-cases (is_approved c.decision)) [
      | inr rejected ↦ absurd (ground arith)
      | inl approved ↦
          rw (there, resolve_admin_approval_role, open_turn, approved)
            (ap some (sym ((eq_iff role governance_board_role).0 (ground arith))))
    ]
  ]
]

-- While a request waits for approval, the role that an ADMIN's decision is recorded in is exactly the
-- one that the service accepts on the same decisions, and there is none when it accepts none.
pub resolve_admin_approval_role-turn :
    (s : Detail) (role : String)
    → s.request.status ≡ ChangeRequestStatus.pending_approval
    → (resolve_admin_approval_role s.decisions ≡ some role) ↔ (check_decision s role ≡ ok tt)
resolve_admin_approval_role-turn s role waits =
    (resolved-accepted s role waits, accepted-resolved s role)
