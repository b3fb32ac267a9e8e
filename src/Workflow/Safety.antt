-- ===== src/Workflow/Safety.antt =====
-- The safety properties of the change-request service.
use ecm_management.Base.{
  ◌≡◌, refl, ◌⊎◌, inl, inr, true, false, some, List, [], ◌∷◌, elem, arith, IsDistinct, Option-cases,
  ◌==◌, Bool-cases, ==→eq, ==_refl, find_first,
}
use ecm_management.Schema.{
  Uuid, ActorId, Time, ChangeRequestStatus, ChangeRequest, CapabilityLock, Db, capability_locked,
}
use ecm_management.ChangeRequest.Store.{
  Detail, guarded_update, commit, check_then, append_trail, record_audit,
}
use ecm_management.ChangeRequest.Transitions.{
  is_terminal, includes, valid_transitions, assert_valid_transition, log_creation,
}
use ecm_management.ChangeRequest.Execution.{
  create_locks, find_lock, new_lock, execute, execute_tx, guarded, acquire_locks,
}
use ecm_management.Workflow.{System, Step, read, creates, logs, handles, outside, Reach}
use ecm_management.Workflow.Views.{RequestView}
use ecm_management.Workflow.Moves.{view_in, holder_in, BothApproved, HasRejection}
use ecm_management.Workflow.Invariant.Reads.{IsSuccessor, Move-IsSuccessor}
use ecm_management.Workflow.Invariant.Approvals.{is_past_approval, is_rejected}
use ecm_management.Workflow.Invariant.Locking.{is_executing}
use ecm_management.Workflow.Invariant.Trail.{at, replay}
use ecm_management.Workflow.Claims.{Inv, Reach-Inv, run_call-Move}
use ecm_management.Workflow.Refines.Plain.{IsOutside-Same, create_row-Move}
use ecm_management.Workflow.Moves.{stay}

-- In every reachable state, two requests in execution that affect a common capability are the same
-- request, whatever stale reads the handlers committed on.
pub executing_exclusive :
    {sys : System} (c i j : Uuid) (v w : RequestView)
    → Reach sys
    → view_in i sys.db ≡ some v
    → view_in j sys.db ≡ some w
    → is_executing v.status ≡ true
    → is_executing w.status ≡ true
    → elem c v.affected ≡ true
    → elem c w.affected ≡ true
    → i ≡ j
executing_exclusive c i j v w r ev ew xv xw mv mw =
    let l = (Reach-Inv r).locked in ground (arith, l.held c i v ev xv mv, l.held c j w ew xw mw)

-- In every reachable state, a request in execution holds the lock of each capability that it
-- affects.
pub execution_holds_locks :
    {sys : System} (c j : Uuid) (v : RequestView)
    → Reach sys
    → view_in j sys.db ≡ some v
    → is_executing v.status ≡ true
    → elem c v.affected ≡ true
    → holder_in c sys.db ≡ some j
execution_holds_locks c j v r = (Reach-Inv r).locked.held c j v

-- In every reachable state, a capability's lock belongs to a request that exists, is in execution and
-- affects the capability: no lock outlives its request's execution.
pub lock_tells_execution :
    {sys : System} (c j : Uuid)
    → Reach sys
    → holder_in c sys.db ≡ some j
    → (v : RequestView) × (view_in j sys.db ≡ some v)
      × (is_executing v.status ≡ true)
      × (elem c v.affected ≡ true)
lock_tells_execution c j r = (Reach-Inv r).locked.owned c j

-- In every reachable state, a request that is approved, in execution or completed has an approval of the
-- curator and one of the governance board on record.
pub approved_by_both :
    {sys : System} (j : Uuid) (v : RequestView)
    → Reach sys
    → view_in j sys.db ≡ some v
    → is_past_approval v.status ≡ true
    → BothApproved j sys.db
approved_by_both j v r e past = (Reach-Inv r).backed.both j v e past

-- In every reachable state, a rejected request has a rejection on record.
pub rejected_by_one :
    {sys : System} (j : Uuid) (v : RequestView)
    → Reach sys
    → view_in j sys.db ≡ some v
    → is_rejected v.status ≡ true
    → HasRejection j sys.db
rejected_by_one j v r e rejected = (Reach-Inv r).backed.one j v e rejected

-- In every reachable state, the transitions in the audit trail of a request, replayed from DRAFT in the
-- order of their entries, each start where the one before ended, and end at the status that the request
-- has. The entry of its creation, which may come late or never, moves nothing.
pub trail_tells_status :
    {sys : System} (j : Uuid) (v : RequestView)
    → Reach sys
    → view_in j sys.db ≡ some v
    → replay j sys.db.change_request_audit ≡ at v.status
trail_tells_status j v r e = ground (arith, (Reach-Inv r).told j)

Step-IsSuccessor :
    {sys next : System} (j : Uuid) (v : RequestView)
    → Inv sys
    → Step sys next
    → view_in j sys.db ≡ some v
    → (v' : RequestView) × (view_in j next.db ≡ some v') × IsSuccessor v v'
Step-IsSuccessor j v i (read id s h) e =
    (v, e, record { keeps_type = refl; keeps_affected = refl; goes = inl refl })
Step-IsSuccessor {sys = sys} j v i (creates dto actor_id now) e =
    Move-IsSuccessor j v i.fresh (create_row-Move dto actor_id now sys.db) e
Step-IsSuccessor j v i (logs r now mem) e = (
  v,
  unfold log_creation append_trail record_audit in e,
  record { keeps_type = refl; keeps_affected = refl; goes = inl refl },
)
Step-IsSuccessor {sys = sys} j v i (handles call s actor_id now mem) e =
    Move-IsSuccessor j v i.fresh
      (run_call-Move call s actor_id now sys.db (i.held s mem) i.locked.one_each) e
Step-IsSuccessor j v i (outside db' out) e =
    Move-IsSuccessor j v i.fresh (stay (IsOutside-Same out)) e

-- From a reachable state, no step loses a request or changes its type or its capabilities, and its
-- status stays or goes along the transition map.
pub requests_follow_map :
    {sys next : System} (j : Uuid) (v : RequestView)
    → Reach sys
    → Step sys next
    → view_in j sys.db ≡ some v
    → (v' : RequestView) × (view_in j next.db ≡ some v') × IsSuccessor v v'
requests_follow_map j v r st e = Step-IsSuccessor j v (Reach-Inv r) st e

terminal_stays :
    (s t : ChangeRequestStatus)
    → is_terminal s ≡ true
    → (t ≡ s) ⊎ (includes t (valid_transitions s) ≡ true)
    → t ≡ s
unfolding is_terminal includes valid_transitions
terminal_stays ChangeRequestStatus.draft t h g = ground arith
terminal_stays _ t h g = ground arith

-- From a reachable state, no step changes the status of a completed, rejected or cancelled request.
pub terminal_absorbs :
    {sys next : System} (j : Uuid) (v : RequestView)
    → Reach sys
    → Step sys next
    → view_in j sys.db ≡ some v
    → is_terminal v.status ≡ true
    → (v' : RequestView) × (view_in j next.db ≡ some v') × (v'.status ≡ v.status)
terminal_absorbs j v r st e t =
    let (v', found, next) = Step-IsSuccessor j v (Reach-Inv r) st e in
    (v', found, terminal_stays v.status v'.status t next.goes)

locked_elem :
    (c : Uuid) (cs : List Uuid) (id : Uuid) (actor_id : ActorId) (now : Time)
    (locks locks' : List CapabilityLock) (l : CapabilityLock)
    → find_lock c locks ≡ some l
    → create_locks cs id actor_id now locks ≡ some locks'
    → elem c cs ≡ false
unfolding create_locks elem find_lock find_first new_lock
locked_elem c [] id actor_id now locks locks' l f h = refl
locked_elem c (x ∷ cs) id actor_id now locks locks' l f h =
    elim (Option-cases (find_lock x locks)) [
      | inr (k, e) ↦ absurd (ground arith)
      | inl e ↦ elim (Bool-cases (x == c)) [
        | inl hit ↦ absurd (ground (arith, ==→eq x c hit))
        | inr miss ↦
            ground (
              arith,
              locked_elem c cs id actor_id now (new_lock x id actor_id now ∷ locks) locks' l,
            )
      ]
    ]

find_new :
    (x id : Uuid) (actor_id : ActorId) (now : Time) (locks : List CapabilityLock)
    → find_lock x (new_lock x id actor_id now ∷ locks) ≡ some (new_lock x id actor_id now)
unfolding find_lock find_first new_lock
find_new x id actor_id now locks = rw (==_refl x) refl

create_locks-IsDistinct :
    (cs : List Uuid) (id : Uuid) (actor_id : ActorId) (now : Time)
    (locks locks' : List CapabilityLock)
    → create_locks cs id actor_id now locks ≡ some locks'
    → IsDistinct cs
unfolding create_locks
create_locks-IsDistinct [] id actor_id now locks locks' h = tt
create_locks-IsDistinct (x ∷ cs) id actor_id now locks locks' h =
    elim (Option-cases (find_lock x locks)) [
      | inr (k, e) ↦ absurd (ground arith)
      | inl e ↦ (
        locked_elem x cs id actor_id now (new_lock x id actor_id now ∷ locks) locks' _
            (find_new x id actor_id now locks) (ground arith),
        create_locks-IsDistinct cs id actor_id now (new_lock x id actor_id now ∷ locks) locks'
            (ground arith),
      )
    ]

-- A request that names a capability twice cannot be executed: however free its capabilities are,
-- `execute` on its approved row answers that they are locked by another request, and writes nothing.
pub execute_repeated :
    (s : Detail) (actor_id : ActorId) (now : Time) (db : Db) (requests : List ChangeRequest)
    → s.request.status ≡ ChangeRequestStatus.approved
    → guarded_update s.request.id ChangeRequestStatus.approved ChangeRequestStatus.executing
        db.change_requests
      ≡ some requests
    → ¬ IsDistinct s.request.affected_capability_ids
    → execute s actor_id now db ≡ (db, some (capability_locked s.request.affected_capability_ids))
unfolding execute check_then commit execute_tx guarded acquire_locks assert_valid_transition
execute_repeated s actor_id now db requests approved found repeated =
    elim (Option-cases (
      create_locks s.request.affected_capability_ids s.request.id actor_id now
        db.capability_locks)) [
          | inr (locks, e) ↦ absurd (
              repeated (
                create_locks-IsDistinct s.request.affected_capability_ids s.request.id actor_id now
                  db.capability_locks locks e))
          | inl e ↦ ground arith
        ]
