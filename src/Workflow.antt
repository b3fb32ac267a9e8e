-- ===== src/Workflow.antt =====
-- The change-request service as a concurrent system: requests are read, handlers commit on reads
-- that may be stale, and other services write their own tables in between. Each transaction is one
-- step; a creation, which is two writes, is two.
pub mod Views
pub mod Moves
pub mod Frames
pub mod Refines
pub mod Invariant
pub mod Claims
pub mod Safety
pub mod Progress
use ecm_management.Base.{delete_many, ◌==◌, ℕ, ◌≤◌, ◌≡◌, Option, List, [], ◌∷◌, String, Memᴰ}
use ecm_management.Schema.{ChangeRequest, Uuid, ActorId, Time, ok, Db}
use ecm_management.ChangeRequest.Store.{Detail, Outcome, find_one}
use ecm_management.ChangeRequest.Transitions.{
  CreateChangeRequestDto, new_request, create_row, log_creation, submit, request_approval, cancel,
}
use ecm_management.ChangeRequest.Decisions.{ApprovalDecisionDto, submit_decision}
use ecm_management.ChangeRequest.Execution.{execute, complete, report_failure}
use ecm_management.ChangeRequest.Apply.{apply_structural_operation}

-- The handlers that act on a request that exists.
pub data Call : Type 0 where
  submits requests_approval executes completes applies : Call
  decides : ApprovalDecisionDto → String → Call
  fails cancels : Option String → Call

unfoldable pub run_call : Call → Detail → ActorId → Time → Db → Outcome
run_call submits s actor_id now db = submit s actor_id now db
run_call requests_approval s actor_id now db = request_approval s actor_id now db
run_call executes s actor_id now db = execute s actor_id now db
run_call completes s actor_id now db = complete s actor_id now db
run_call applies s actor_id now db = apply_structural_operation s actor_id now db
run_call (decides dto role) s actor_id now db = submit_decision s dto actor_id role now db
run_call (fails comment) s actor_id now db = report_failure s actor_id comment now db
run_call (cancels comment) s actor_id now db = cancel s actor_id comment now db

-- What another service may do: anything that leaves the tables of the workflow alone and takes only
-- new ids.
pub record IsOutside (db db' : Db) : Type 0 where
  pub same_requests : db'.change_requests ≡ db.change_requests
  pub same_decisions : db'.approval_decisions ≡ db.approval_decisions
  pub same_locks : db'.capability_locks ≡ db.capability_locks
  pub same_trail : db'.change_request_audit ≡ db.change_request_audit
  pub later_uuid : db.next_uuid ≤ db'.next_uuid

-- The database, the reads that handlers in flight still hold, and the rows that a `create` in flight
-- has inserted and not yet logged.
pub record System : Type 0 where
  pub db : Db
  pub reads : List Detail
  pub creations : List ChangeRequest

pub data Step : System → System → Type 0 where
  read :
      {sys : System} (id : Uuid) (s : Detail)
      → find_one id sys.db ≡ ok s
      → Step sys (record sys { reads = s ∷ sys.reads })
  creates :
      {sys : System} (dto : CreateChangeRequestDto) (actor_id : ActorId) (now : Time)
      → Step sys (record sys {
        db = create_row dto actor_id now sys.db;
        creations = new_request dto actor_id sys.db.next_uuid now ∷ sys.creations;
      })
  -- The trail entry of a creation, at any later time; if it fails, it never comes.
  logs :
      {sys : System} (r : ChangeRequest) (now : Time)
      → Memᴰ r sys.creations
      → Step sys (record sys {
        db = log_creation r now sys.db;
        creations = delete_many (λ x. x.id == r.id) sys.creations;
      })
  handles :
      {sys : System} (call : Call) (s : Detail) (actor_id : ActorId) (now : Time)
      → Memᴰ s sys.reads
      → Step sys (record sys { db = (run_call call s actor_id now sys.db).0 })
  outside : {sys : System} (db' : Db) → IsOutside sys.db db' → Step sys (record sys { db = db' })

-- No request, no decision, no lock, no trail.
pub record IsInitial (sys : System) : Type 0 where
  pub no_requests : sys.db.change_requests ≡ []
  pub no_decisions : sys.db.approval_decisions ≡ []
  pub no_locks : sys.db.capability_locks ≡ []
  pub no_trail : sys.db.change_request_audit ≡ []
  pub no_reads : sys.reads ≡ []
  pub no_creations : sys.creations ≡ []

pub data Reach : System → Type 0 where
  start : {sys : System} → IsInitial sys → Reach sys
  then_step : {sys next : System} → Reach sys → Step sys next → Reach next
