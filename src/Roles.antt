-- ===== src/Roles.antt =====
-- apps/api/src/auth: the roles of users (user-role.utils.ts) and the guard of the routes
-- (roles.guard.ts); and the decision of an approver as the route takes it
-- (apps/api/src/change-request/change-request.controller.ts).
pub mod Turns
mod Examples
use ecm_management.Base.{
  Bool, true, false, Option, none, some, List, [], ◌∷◌, String, if◌then◌else◌, ◌==◌, ℕ,
}
use ecm_management.Schema.{
  ActorId, Time, UserRole, ApprovalDecision, is_approved, Db, role_cannot_decide, role_required,
  Error,
}
use ecm_management.ChangeRequest.Store.{Detail, Outcome, decision_by}
use ecm_management.ChangeRequest.Decisions.{
  curator_role, governance_board_role, ApprovalDecisionDto, submit_decision,
}

abbrev role_index : UserRole → ℕ
role_index UserRole.viewer = 0
role_index UserRole.contributor = 1
role_index UserRole.steward = 2
role_index UserRole.curator = 3
role_index UserRole.governance_approver = 4
role_index UserRole.integration_engineer = 5
role_index UserRole.admin = 6

abbrev pub includes_role : List UserRole → UserRole → Bool
includes_role [] role = false
includes_role (r ∷ rs) role =
    if role_index r == role_index role then true else includes_role rs role

abbrev pub change_request_decision_roles : List UserRole
change_request_decision_roles =
    UserRole.curator ∷ UserRole.governance_approver ∷ UserRole.admin ∷ []

-- The guard of a route that asks for roles, or for none.
unfoldable pub can_activate : List UserRole → Option UserRole → Bool
can_activate [] user_role = true
can_activate (r ∷ rs) none = false
can_activate (r ∷ rs) (some role) = includes_role (r ∷ rs) role

unfoldable pub workflow_approval_role_from_user_role : UserRole → Option String
workflow_approval_role_from_user_role UserRole.curator = some curator_role
workflow_approval_role_from_user_role UserRole.governance_approver = some governance_board_role
workflow_approval_role_from_user_role _ = none

abbrev pub board_turn : ApprovalDecision → Option ApprovalDecision → Option String
board_turn curator none = if is_approved curator.decision then some governance_board_role else none
board_turn curator (some board) = none

unfoldable pub resolve_admin_approval_role : List ApprovalDecision → Option String
resolve_admin_approval_role decisions = elim (decision_by curator_role decisions) [
  | none ↦ some curator_role
  | some curator ↦ board_turn curator (decision_by governance_board_role decisions)
]

-- The role in which a user decides, from the decisions that the route has read.
unfoldable pub approval_role : UserRole → List ApprovalDecision → Option String
approval_role UserRole.admin decisions = resolve_admin_approval_role decisions
approval_role role decisions = workflow_approval_role_from_user_role role

-- The route of a decision: `read` is what the route has read for an ADMIN, `s` what the service reads
-- after it.
unfoldable pub submit_decision_route :
    UserRole → List ApprovalDecision → Detail → ApprovalDecisionDto → ActorId → Time → Db → Outcome
submit_decision_route role read s dto actor_id now db =
    if can_activate change_request_decision_roles (some role)
    then elim (approval_role role read) [
      | none ↦ (db, some role_cannot_decide)
      | some approver ↦ submit_decision s dto actor_id approver now db
    ]
    else (db, some (role_required change_request_decision_roles (some role)))
