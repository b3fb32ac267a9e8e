-- ===== src/Workflow/Claims.antt =====
-- What holds of the change-request service in every state that reads, stale commits and other
-- services can lead to.
use ecm_management.Base.{
  ◌≡◌, refl, sym, subst, ap, ◌∙◌, inl, inr, none, some, [], ◌∷◌, List, Memᴰ, arith, ◌==◌,
  Option-cases, find_first, find_first-passes, ==→eq,
}
use ecm_management.Schema.{Uuid, ActorId, Time, ChangeRequest, ok, Db}
use ecm_management.ChangeRequest.Store.{
  Detail, find_one, find_request, decisions_of, append_trail, record_audit,
}
use ecm_management.ChangeRequest.Transitions.{log_creation}
use ecm_management.Workflow.{
  Call, submits, requests_approval, executes, completes, applies, decides, fails, cancels, run_call,
  System, Step, read, creates, logs, handles, outside, IsInitial, Reach, start, then_step,
}
use ecm_management.Workflow.Views.{view, view_row, holder, IsOneLockEach}
use ecm_management.Workflow.Moves.{
  view_in, holder_in, IsHeld, Move, stay, BothApproved, HasRejection,
}
use ecm_management.Workflow.Refines.Plain.{
  IsOutside-Same, submit-Move, cancel-Move, request_approval-Move, create_row-Move,
}
use ecm_management.Workflow.Refines.Decision.{submit_decision-Move}
use ecm_management.Workflow.Refines.Locking.{
  execute-Move, complete-Move, report_failure-Move, apply-Move,
}
use ecm_management.Workflow.Invariant.Reads.{IsFresh, Move-IsFresh, Move-IsHeld}
use ecm_management.Workflow.Invariant.Approvals.{IsBacked, Move-IsBacked}
use ecm_management.Workflow.Invariant.Locking.{IsLocked, Move-IsLocked}
use ecm_management.Workflow.Invariant.Trail.{
  replay, at_view, IsTold, Move-IsTold, log_creation-IsTold,
}

-- Every handler of the change-request service, run on a read that is still truthful, makes one move of
-- the abstract workflow or leaves its tables as they are, whether it succeeds or throws.
pub run_call-Move :
    (call : Call) (s : Detail) (actor_id : ActorId) (now : Time) (db : Db)
    → IsHeld s db
    → IsOneLockEach db.capability_locks
    → Move db (run_call call s actor_id now db).0
unfolding run_call
run_call-Move submits s actor_id now db held one = submit-Move s actor_id now db
run_call-Move requests_approval s actor_id now db held one = request_approval-Move s actor_id now db
run_call-Move executes s actor_id now db held one = execute-Move s actor_id now db held one
run_call-Move completes s actor_id now db held one = complete-Move s actor_id now db
run_call-Move applies s actor_id now db held one = apply-Move s actor_id now db held
run_call-Move (decides dto role) s actor_id now db held one =
    submit_decision-Move s dto actor_id role now db held
run_call-Move (fails comment) s actor_id now db held one =
    report_failure-Move s actor_id comment now db
run_call-Move (cancels comment) s actor_id now db held one = cancel-Move s actor_id comment now db

-- The invariant of the whole system.
pub record Inv (sys : System) : Type 0 where
  pub fresh : IsFresh sys.db
  pub held : (s : Detail) → Memᴰ s sys.reads → IsHeld s sys.db
  pub backed : IsBacked sys.db
  pub locked : IsLocked sys.db
  pub told : IsTold sys.db

Move-Inv : (sys : System) (db' : Db) → Move sys.db db' → Inv sys → Inv (record sys { db = db' })
Move-Inv sys db' m i = record {
  fresh = Move-IsFresh m i.fresh;
  held = λ s mem. Move-IsHeld s i.fresh m (i.held s mem);
  backed = Move-IsBacked m i.backed;
  locked = Move-IsLocked i.fresh m i.locked;
  told = Move-IsTold i.fresh m i.told;
}

found-IsHeld :
    (r : ChangeRequest) (db : Db)
    → find_request r.id db.change_requests ≡ some r
    → IsHeld (record { request = r; decisions = decisions_of r.id db.approval_decisions }) db
unfolding view
found-IsHeld r db e = record {
  row = record { status = r.status; type = r.type; affected = r.affected_capability_ids };
  found = ap view_row e;
  same_type = refl;
  same_affected = refl;
  decisions_kept = λ role d k. k;
  pending_until_decided = λ p. inl p;
}

-- A read is truthful when it is made.
find_one-IsHeld : (id : Uuid) (s : Detail) (db : Db) → find_one id db ≡ ok s → IsHeld s db
unfolding find_one
find_one-IsHeld id s db h = elim (Option-cases (find_request id db.change_requests)) [
  | inl e ↦ absurd (ground arith)
  | inr (r, e) ↦
      let same : r.id ≡ id =
        ==→eq r.id id (find_first-passes (λ x. x.id == id) db.change_requests r e) in
      let s' : s ≡ record { request = r; decisions = decisions_of r.id db.approval_decisions } =
        ground (arith, same) in
      subst (λ x. IsHeld x db) (sym s')
        (found-IsHeld r db (subst (λ x. find_request x db.change_requests ≡ some r) (sym same) e))
]

read-Inv :
    (sys : System) (id : Uuid) (s : Detail)
    → find_one id sys.db ≡ ok s
    → Inv sys
    → Inv (record sys { reads = s ∷ sys.reads })
read-Inv sys id s e i = record {
  fresh = i.fresh;
  held = λ t mem. of_mem t mem;
  backed = i.backed;
  locked = i.locked;
  told = i.told;
}
  where
    of_mem : (t : Detail) → Memᴰ t (s ∷ sys.reads) → IsHeld t sys.db
    of_mem t (Memᴰ.head p) = subst (λ x. IsHeld x sys.db) (sym p) (find_one-IsHeld id s sys.db e)
    of_mem t (Memᴰ.tail mem) = i.held t mem

-- The invariant says nothing of creations in flight.
with_creations-Inv :
    (sys : System) (rs : List ChangeRequest) → Inv sys → Inv (record sys { creations = rs })
with_creations-Inv sys rs i = record {
  fresh = i.fresh;
  held = i.held;
  backed = i.backed;
  locked = i.locked;
  told = i.told;
}

kept-IsHeld :
    (s : Detail) (r : ChangeRequest) (now : Time) (db : Db)
    → IsHeld s db
    → IsHeld s (log_creation r now db)
unfolding log_creation append_trail record_audit
kept-IsHeld s r now db h = record {
  row = h.row;
  found = h.found;
  same_type = h.same_type;
  same_affected = h.same_affected;
  decisions_kept = h.decisions_kept;
  pending_until_decided = h.pending_until_decided;
}

-- The entry of a creation leaves the tables of requests, decisions and locks as they are.
kept-BothApproved :
    (j : Uuid) (r : ChangeRequest) (now : Time) (db : Db)
    → BothApproved j db
    → BothApproved j (log_creation r now db)
unfolding log_creation append_trail record_audit
kept-BothApproved j r now db b = record {
  curator = b.curator;
  board = b.board;
  by_curator = b.by_curator;
  by_board = b.by_board;
  curator_approves = b.curator_approves;
  board_approves = b.board_approves;
}

kept-HasRejection :
    (j : Uuid) (r : ChangeRequest) (now : Time) (db : Db)
    → HasRejection j db
    → HasRejection j (log_creation r now db)
unfolding log_creation append_trail record_audit
kept-HasRejection j r now db b = record {
  role = b.role;
  rejection = b.rejection;
  recorded = b.recorded;
  rejects = b.rejects;
}

logs-Inv :
    (sys : System) (r : ChangeRequest) (now : Time) (rs : List ChangeRequest)
    → Inv sys
    → Inv (record sys { db = log_creation r now sys.db; creations = rs })
unfolding log_creation append_trail record_audit
logs-Inv sys r now rs i = record {
  fresh = i.fresh;
  held = λ s mem. kept-IsHeld s r now sys.db (i.held s mem);
  backed = record {
    both = λ j v e past. kept-BothApproved j r now sys.db (i.backed.both j v e past);
    one = λ j v e past. kept-HasRejection j r now sys.db (i.backed.one j v e past);
  };
  locked = record { one_each = i.locked.one_each; owned = i.locked.owned; held = i.locked.held };
  told = log_creation-IsTold r now sys.db i.told;
}

pub Step-Inv : {sys next : System} → Step sys next → Inv sys → Inv next
Step-Inv {sys = sys} (read id s e) i = read-Inv sys id s e i
Step-Inv {sys = sys} (creates dto actor_id now) i =
    with_creations-Inv _ _ (Move-Inv sys _ (create_row-Move dto actor_id now sys.db) i)
Step-Inv {sys = sys} (logs r now mem) i = logs-Inv sys r now _ i
Step-Inv {sys = sys} (handles call s actor_id now mem) i =
    Move-Inv sys _ (run_call-Move call s actor_id now sys.db (i.held s mem) i.locked.one_each) i
Step-Inv {sys = sys} (outside db' out) i = Move-Inv sys db' (stay (IsOutside-Same out)) i

none≢some {ℓ} : {A : Type ℓ} {a : A} → none ≡ some a → ⊥
none≢some e = cc

view-nil : (j : Uuid) → view j [] ≡ none
unfolding view find_request find_first
view-nil j = refl

holder-nil : (c : Uuid) → holder c [] ≡ none
unfolding holder find_first
holder-nil c = refl

IsInitial-Inv : {sys : System} → IsInitial sys → Inv sys
unfolding replay
IsInitial-Inv {sys = sys} init = record {
  fresh = λ j v e. absurd (none≢some (sym (none_seen j) ∙ e));
  held = λ s mem. absurd (no_member s (subst (Memᴰ s) init.no_reads mem));
  backed = record {
    both = λ j v e past. absurd (none≢some (sym (none_seen j) ∙ e));
    one = λ j v e past. absurd (none≢some (sym (none_seen j) ∙ e));
  };
  locked = record {
    one_each = subst IsOneLockEach (sym init.no_locks) tt;
    owned = λ c j e. absurd (none≢some (sym (none_held c) ∙ e));
    held = λ c j v e x m. absurd (none≢some (sym (none_seen j) ∙ e));
  };
  told = λ j. ap (replay j) init.no_trail ∙ ap at_view (sym (none_seen j));
}
  where
    none_seen : (j : Uuid) → view_in j sys.db ≡ none
    none_seen j = ap (view j) init.no_requests ∙ view-nil j

    none_held : (c : Uuid) → holder_in c sys.db ≡ none
    none_held c = ap (holder c) init.no_locks ∙ holder-nil c

    no_member : (s : Detail) → Memᴰ s [] → ⊥
    no_member s m = elim m [ ]

pub Reach-Inv : {sys : System} → Reach sys → Inv sys
Reach-Inv (start init) = IsInitial-Inv init
Reach-Inv (then_step r st) = Step-Inv st (Reach-Inv r)
