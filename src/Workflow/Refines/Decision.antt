-- ===== src/Workflow/Refines/Decision.antt =====
-- `submitDecision` as a move.
use ecm_management.Base.{
  ◌≡◌, refl, sym, ap, subst, ◌∙◌, inl, inr, true, false, Option, none, some, List, ◌∷◌, String,
  arith, if◌then◌else◌, ◌==◌, str_eq, eq_iff, find_first, select, Option-cases, Bool-cases, ==→eq,
  ◌≢◌,
}
use ecm_management.Schema.{
  Uuid, ActorId, Time, ChangeRequestStatus, ApprovalDecisionOutcome, status_eq→eq, is_approved,
  ChangeRequest, ApprovalDecision, ChangeRequestAuditEntry, decided, Db, Result, ok, err,
  Result-cases,
}
use ecm_management.ChangeRequest.Store.{
  Detail, decision_by, decisions_of, guarded_update, append_trail, commit,
}
use ecm_management.ChangeRequest.Transitions.{trail_entry}
use ecm_management.ChangeRequest.Decisions.{
  curator_role, governance_board_role, ApprovalDecisionDto, check_decision, decision_effect,
  new_decision, insert_decision, move_status, status_after, decision_tx, announce, submit_decision,
}
use ecm_management.Workflow.{IsOutside}
use ecm_management.Workflow.Views.{view}
use ecm_management.Workflow.Moves.{
  view_in, decision_in, CuratorDecided, IsDecided, is_decision_status, IsHeld, Move, stay, decide,
}
use ecm_management.Workflow.Refines.Plain.{
  Same-refl, Same-SameRequests, update-Change, check_then-Move, announced-IsOutside,
}

-- The decisions of a request once one more is recorded for it.
pub decision_in-added :
    (id : Uuid) (d : ApprovalDecision) (db db' : Db) (role : String)
    → db'.approval_decisions ≡ d ∷ db.approval_decisions
    → d.change_request_id ≡ id
    → decision_in role id db'
      ≡ (if str_eq d.approver_role role then some d else decision_in role id db)
unfolding decision_by decisions_of find_first select
decision_in-added id d db db' role e i =
    ap (λ ds. decision_by role (decisions_of id ds)) e ∙ ground arith

-- The decisions of another request are as they were.
pub decision_in-other :
    (id : Uuid) (d : ApprovalDecision) (db db' : Db) (role : String)
    → db'.approval_decisions ≡ d ∷ db.approval_decisions
    → (d.change_request_id == id) ≡ false
    → decision_in role id db' ≡ decision_in role id db
unfolding decision_by decisions_of find_first select
decision_in-other id d db db' role e i =
    ap (λ ds. decision_by role (decisions_of id ds)) e ∙ ground arith

-- What the sequence check lets pass: the curator's turn, or the board's after the curator approved.
pub data IsTurn (ds : List ApprovalDecision) (role : String) : Type 0 where
  curators_turn : decision_by curator_role ds ≡ none → role ≡ curator_role → IsTurn ds role
  boards_turn :
      (c : ApprovalDecision)
      → decision_by curator_role ds ≡ some c
      → is_approved c.decision ≡ true
      → role ≡ governance_board_role
      → IsTurn ds role

check_sequence-IsTurn :
    (s : Detail) (role : String)
    → check_decision s role ≡ ok tt
    → (s.request.status ≡ ChangeRequestStatus.pending_approval) × IsTurn s.decisions role
unfolding check_decision
check_sequence-IsTurn s role h = (
  status_eq→eq s.request.status ChangeRequestStatus.pending_approval (ground arith),
  elim (Option-cases (decision_by curator_role s.decisions)) [
    | inl e ↦ curators_turn e ((eq_iff role curator_role).0 (ground arith))
    | inr (c, e) ↦
        boards_turn c e (ground arith) ((eq_iff role governance_board_role).0 (ground arith))
  ],
)

-- The requests after `move_status`.
abbrev Moved : Uuid → Option ChangeRequestStatus → List ChangeRequest → List ChangeRequest → Type 0
Moved id none before after = after ≡ before
Moved id (some to) before after =
    guarded_update id ChangeRequestStatus.pending_approval to before ≡ some after

abbrev entry_for :
    Uuid
    → ApprovalDecisionDto
    → ActorId
    → String
    → Time
    → Option ChangeRequestStatus × String
    → ChangeRequestAuditEntry
entry_for id dto actor_id role now effect =
    trail_entry id actor_id effect.1 ChangeRequestStatus.pending_approval (status_after effect.0)
      dto.comment (decided role dto.decision) now

-- What the transaction leaves for an effect.
abbrev decided_db :
    Uuid
    → ApprovalDecisionDto
    → ActorId
    → String
    → Time
    → Option ChangeRequestStatus × String
    → List ChangeRequest
    → Db
    → Db
decided_db id dto actor_id role now effect requests db = record db {
  approval_decisions = new_decision id dto actor_id role now ∷ db.approval_decisions;
  change_requests = requests;
  change_request_audit = entry_for id dto actor_id role now effect ∷ db.change_request_audit;
}

move_status-ok :
    (id : Uuid) (to : Option ChangeRequestStatus) (event_type : String) (db : Db) {db' : Db}
    → move_status id to event_type db ≡ ok db'
    → (requests : List ChangeRequest) × Moved id to db.change_requests requests
      × (db' ≡ record db { change_requests = requests })
unfolding move_status
move_status-ok id none event_type db h = (db.change_requests, refl, ground arith)
move_status-ok id (some to) event_type db h =
    elim (Option-cases
      (guarded_update id ChangeRequestStatus.pending_approval to db.change_requests)) [
        | inl e ↦ absurd (ground arith)
        | inr (requests, e) ↦ (requests, e, ground arith)
      ]

decision_tx-ok :
    (id : Uuid) (dto : ApprovalDecisionDto) (actor_id : ActorId) (role : String) (now : Time)
    (db : Db) {db' : Db}
    → decision_tx id dto actor_id role now db ≡ ok db'
    → (decision_in role id db ≡ none)
      × (requests : List ChangeRequest) × Moved id
          (decision_effect dto.decision role).0
          db.change_requests
          requests
      × (db' ≡ decided_db id dto actor_id role now (decision_effect dto.decision role) requests db)
unfolding decision_tx insert_decision new_decision append_trail
decision_tx-ok id dto actor_id role now db h = elim (Option-cases (decision_in role id db)) [
  | inr (d, e) ↦ absurd (ground arith)
  | inl e ↦
      elim (Result-cases (
        move_status id (decision_effect dto.decision role).0 (decision_effect dto.decision role).1
          (record db {
            approval_decisions = new_decision id dto actor_id role now ∷ db.approval_decisions;
          }))) [
            | inr (x, e') ↦ absurd (ground arith)
            | inl (moved, e') ↦
                let (requests, m, eq) =
                  move_status-ok id (decision_effect dto.decision role).0
                    (decision_effect dto.decision role).1 _ e' in
                (e, requests, m, ground arith)
          ]
]

-- The effect, by the outcome and the role.
effect_of :
    (dto : ApprovalDecisionDto) (role : String) {outcome : ApprovalDecisionOutcome}
    → dto.decision ≡ outcome
    → decision_effect dto.decision role ≡ decision_effect outcome role
effect_of dto role e = ap (λ o. decision_effect o role) e

curator≢board : curator_role ≡ governance_board_role → ⊥
curator≢board e = cc ((eq_iff curator_role governance_board_role).1 e)

some≢none {ℓ} : {A : Type ℓ} {a : A} → some a ≡ none → ⊥
some≢none e = cc

module _ (s : Detail) (dto : ApprovalDecisionDto) (actor_id : ActorId) (role : String) (now : Time)
    (db : Db) (held : IsHeld s db)
    (was_pending : s.request.status ≡ ChangeRequestStatus.pending_approval)
    (first : decision_in role s.request.id db ≡ none) where
  id : Uuid
  id = s.request.id

  added : ApprovalDecision
  added = new_decision id dto actor_id role now

  -- The decision by a role afterwards.
  by_role :
      (db' : Db) (r : String)
      → db'.approval_decisions ≡ added ∷ db.approval_decisions
      → decision_in r id db' ≡ (if str_eq role r then some added else decision_in r id db)
  unfolding id added new_decision
  by_role db' r e = decision_in-added id added db db' r e refl

  -- The curator's decision that a read saw is still there.
  curator_kept :
      (db' : Db) (c : ApprovalDecision)
      → db'.approval_decisions ≡ added ∷ db.approval_decisions
      → decision_by curator_role s.decisions ≡ some c
      → role ≡ governance_board_role
      → decision_in curator_role id db' ≡ some c
  unfolding id
  curator_kept db' c e k b =
      by_role db' curator_role e ∙ rw b (held.decisions_kept curator_role c k)

  own_decision :
      (db' : Db)
      → db'.approval_decisions ≡ added ∷ db.approval_decisions
      → decision_in role id db' ≡ some added
  own_decision db' e = by_role db' role e ∙ rw ((eq_iff role role).1 refl) refl

  curator_recorded :
      (db' : Db)
      → IsTurn s.decisions role
      → db'.approval_decisions ≡ added ∷ db.approval_decisions
      → CuratorDecided id db'
  curator_recorded db' (curators_turn k r) e =
      (added, subst (λ x. decision_in x id db' ≡ some added) r (own_decision db' e))
  curator_recorded db' (boards_turn c k a r) e = (c, curator_kept db' c e k r)

  -- A rejection, by whoever's turn it is.
  rejected-IsDecided :
      (db' : Db)
      → IsTurn s.decisions role
      → db'.approval_decisions ≡ added ∷ db.approval_decisions
      → is_approved dto.decision ≡ false
      → IsDecided id ChangeRequestStatus.rejected db'
  unfolding added new_decision
  rejected-IsDecided db' turn e no_approval = record {
    curator_decided = curator_recorded db' turn e;
    approved_by_both = λ x. cc;
    rejected_by_one = λ _. record {
      role = role;
      rejection = added;
      recorded = own_decision db' e;
      rejects = no_approval;
    };
  }

  -- The board's approval.
  approved-IsDecided :
      (db' : Db)
      → IsTurn s.decisions role
      → db'.approval_decisions ≡ added ∷ db.approval_decisions
      → is_approved dto.decision ≡ true
      → role ≡ governance_board_role
      → IsDecided id ChangeRequestStatus.approved db'
  unfolding added new_decision
  approved-IsDecided db' (curators_turn k r) e yes_approval board =
      absurd (curator≢board (sym r ∙ board))
  approved-IsDecided db' (boards_turn c k a r) e yes_approval board = record {
    curator_decided = curator_recorded db' (boards_turn c k a r) e;
    approved_by_both = λ _. record {
      curator = c;
      board = added;
      by_curator = curator_kept db' c e k r;
      by_board = subst (λ x. decision_in x id db' ≡ some added) board (own_decision db' e);
      curator_approves = a;
      board_approves = yes_approval;
    };
    rejected_by_one = λ x. cc;
  }

  -- The curator's approval leaves the request under approval.
  pending-IsDecided :
      (db' : Db)
      → IsTurn s.decisions role
      → db'.approval_decisions ≡ added ∷ db.approval_decisions
      → IsDecided id ChangeRequestStatus.pending_approval db'
  pending-IsDecided db' turn e = record {
    curator_decided = curator_recorded db' turn e;
    approved_by_both = λ x. cc;
    rejected_by_one = λ x. cc;
  }

  -- A decision that moves the status.
  final-Move :
      (to : ChangeRequestStatus) (event : String) (requests : List ChangeRequest) (after : Db)
      → is_decision_status to ≡ true
      → guarded_update id ChangeRequestStatus.pending_approval to db.change_requests ≡ some requests
      → IsOutside (decided_db id dto actor_id role now (some to, event) requests db) after
      → IsDecided id to after
      → Move db after
  unfolding id added trail_entry new_decision status_after
  final-Move to event requests after k e out done =
      decide id to added
        (update-Change id ChangeRequestStatus.pending_approval to
          {db' = decided_db id dto actor_id role now (some to, event) requests db}
          (entry_for id dto actor_id role now (some to, event)) (Same-SameRequests (Same-refl db)) e
          refl refl refl refl (omega arith) out)
        k out.same_decisions refl first done out.same_locks

  -- The curator's approval: while the curator has not decided, the request is still under approval.
  curator-Move :
      (event : String) (after : Db)
      → role ≡ curator_role
      → IsOutside (decided_db id dto actor_id role now (none, event) db.change_requests db) after
      → IsDecided id ChangeRequestStatus.pending_approval after
      → Move db after
  unfolding id added trail_entry new_decision status_after
  curator-Move event after curator out done =
      decide id ChangeRequestStatus.pending_approval added
        (record {
          seen = held.row;
          found = held.found;
          was = pending;
          moved = λ j. ground (arith, held.found, ==→eq j id, same j);
          logged = record {
            entry = entry_for id dto actor_id role now (none, event);
            appended = out.same_trail;
            of_request = refl;
            from_old = refl;
            to_new = refl;
          };
          grows = out.later_uuid;
        })
        refl out.same_decisions refl first done out.same_locks
    where
      pending : held.row.status ≡ ChangeRequestStatus.pending_approval
      pending = elim (held.pending_until_decided was_pending) [
        | inl p ↦ p
        | inr (d, e) ↦
            absurd (some≢none (sym e ∙ subst (λ x. decision_in x id db ≡ none) curator first))
      ]

      same : (j : Uuid) → view_in j after ≡ view_in j db
      same j i = view j (out.same_requests i)

commit_after-Move :
    (db : Db) (after : Db → Db) (r : Result Db)
    → ((db' : Db) → r ≡ ok db' → Move db (after db'))
    → Move db (commit db after r).0
unfolding commit
commit_after-Move db after (ok db') m = m db' refl
commit_after-Move db after (err e) m = stay (Same-refl db)

announce-IsOutside :
    (status : Option ChangeRequestStatus) (s : Detail) (dto : ApprovalDecisionDto)
    (actor_id : ActorId) (role : String) (now : Time) (db : Db)
    → IsOutside db (announce status s dto actor_id role now db)
unfolding announce
announce-IsOutside none s dto actor_id role now db = ground arith
announce-IsOutside (some status) s dto actor_id role now db =
    announced-IsOutside status s.request.requested_by s.request.id _ actor_id _ now db

-- The outcome and the role decide which of the three effects a decision has.
data IsEffect (dto : ApprovalDecisionDto) (role : String)
    : Option ChangeRequestStatus × String → Type 0 where
  rejects :
      is_approved dto.decision ≡ false
      → IsEffect dto role (some ChangeRequestStatus.rejected, "REJECTED")
  board_approves :
      is_approved dto.decision ≡ true
      → role ≡ governance_board_role
      → IsEffect dto role (some ChangeRequestStatus.approved, "APPROVED")
  curator_approves :
      is_approved dto.decision ≡ true
      → role ≢ governance_board_role
      → IsEffect dto role (none, "CURATOR_APPROVED")

effect-IsEffect :
    (o : ApprovalDecisionOutcome) (dto : ApprovalDecisionDto) (role : String)
    → dto.decision ≡ o
    → IsEffect dto role (decision_effect o role)
unfolding decision_effect is_approved
effect-IsEffect ApprovalDecisionOutcome.rejected dto role e = rejects (rw e refl)
effect-IsEffect ApprovalDecisionOutcome.approved dto role e =
    elim (Bool-cases (str_eq role governance_board_role)) [
      | inl b ↦ rw b (board_approves (rw e refl) ((eq_iff role governance_board_role).0 b))
      | inr b ↦
          rw b (curator_approves (rw e refl) (λ h. cc ((eq_iff role governance_board_role).1 h)))
    ]

effect-Move :
    (s : Detail) (dto : ApprovalDecisionDto) (actor_id : ActorId) (role : String) (now : Time)
    (db : Db) (requests : List ChangeRequest) (after : Db)
    (effect : Option ChangeRequestStatus × String)
    → IsHeld s db
    → s.request.status ≡ ChangeRequestStatus.pending_approval
    → decision_in role s.request.id db ≡ none
    → IsTurn s.decisions role
    → IsEffect dto role effect
    → Moved s.request.id effect.0 db.change_requests requests
    → IsOutside (decided_db s.request.id dto actor_id role now effect requests db) after
    → Move db after
unfolding id added
effect-Move s dto actor_id role now db requests after effect held p first turn (rejects no_approval)
      m out =
    final-Move s dto actor_id role now db held p first ChangeRequestStatus.rejected "REJECTED"
      requests after refl m out
      (rejected-IsDecided s dto actor_id role now db held p first after turn out.same_decisions
        no_approval)
effect-Move s dto actor_id role now db requests after effect held p first turn
      (board_approves yes_approval board) m out =
    final-Move s dto actor_id role now db held p first ChangeRequestStatus.approved "APPROVED"
      requests after refl m out
      (approved-IsDecided s dto actor_id role now db held p first after turn out.same_decisions
        yes_approval board)
effect-Move s dto actor_id role now db requests after effect held p first (curators_turn k r)
      (curator_approves yes_approval other) m out =
    curator-Move s dto actor_id role now db held p first "CURATOR_APPROVED" after r
      (subst
        (λ rs.
          IsOutside (decided_db s.request.id dto actor_id role now (none, "CURATOR_APPROVED") rs db)
            after)
        m out)
      (pending-IsDecided s dto actor_id role now db held p first after (curators_turn k r)
        out.same_decisions)
effect-Move s dto actor_id role now db requests after effect held p first (boards_turn c k a r)
      (curator_approves yes_approval other) m out =
    absurd (other r)

pub submit_decision-Move :
    (s : Detail) (dto : ApprovalDecisionDto) (actor_id : ActorId) (role : String) (now : Time)
    (db : Db)
    → IsHeld s db
    → Move db (submit_decision s dto actor_id role now db).0
unfolding submit_decision
submit_decision-Move s dto actor_id role now db held = check_then-Move db _ _ λ checked.
    commit_after-Move db _ _ λ db' h.
      let (pending, turn) = check_sequence-IsTurn s role checked in
      let (first, requests, m, eq) = decision_tx-ok s.request.id dto actor_id role now db h in
      effect-Move s dto actor_id role now db requests _ (decision_effect dto.decision role) held
        pending first turn (effect-IsEffect dto.decision dto role refl) m
        (subst
          (λ x.
            IsOutside x
              (announce (decision_effect dto.decision role).0 s dto actor_id role now db'))
          eq (announce-IsOutside (decision_effect dto.decision role).0 s dto actor_id role now db'))
