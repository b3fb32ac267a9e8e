-- ===== src/Roles/Examples.antt =====
-- A request whose curator has approved, and whose board has not decided.
use ecm_management.Base.{◌≡◌, refl, ◌↔◌, none, some, [], ◌∷◌}
use ecm_management.Schema.{ChangeRequestStatus, ChangeRequestType, ApprovalDecisionOutcome, ok}
use ecm_management.ChangeRequest.Store.{Detail}
use ecm_management.ChangeRequest.Decisions.{governance_board_role, check_decision}
use ecm_management.Roles.{resolve_admin_approval_role}
use ecm_management.Roles.Turns.{resolve_admin_approval_role-turn}

abbrev half_approved : Detail
half_approved = record {
  request = record {
    id = 8;
    type = ChangeRequestType.reparent;
    status = ChangeRequestStatus.pending_approval;
    requested_by = "ada";
    rationale = none;
    affected_capability_ids = 3 ∷ [];
    operation_payload = none;
    impact_summary = none;
    downstream_plan = none;
    created_at = 10;
  };
  decisions =
      record {
        change_request_id = 8;
        approver_role = "curator";
        approver_id = "grace";
        decision = ApprovalDecisionOutcome.approved;
        comment = none;
        decided_at = 20;
      }
      ∷ [];
}

resolve_admin_approval_role-turn_example :
    (resolve_admin_approval_role half_approved.decisions ≡ some governance_board_role)
    ↔ (check_decision half_approved governance_board_role ≡ ok tt)
resolve_admin_approval_role-turn_example =
    resolve_admin_approval_role-turn half_approved governance_board_role refl
