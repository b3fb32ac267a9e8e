-- ===== src/ChangeRequest/Apply.antt =====
-- change-request.service.ts: `applyStructuralOperation` and `dispatchOp`.
use ecm_management.Base.{none, some, List, [], ◌∷◌, if◌then◌else◌, length}
use ecm_management.Schema.{
  Uuid, ActorId, Time, ChangeRequestStatus, ChangeRequestType, status_eq, ChangeRequest,
  EventEnvelope, applied, Db, invalid_state_transition, not_a_structural_operation,
  no_handler_for_type, single_target_required, Result, ok, err, ◌>>=◌, ◌>>◌,
}
use ecm_management.Structural.Operations.{apply_reparent, apply_promote, apply_demote, apply_delete}
use ecm_management.Structural.Merge.{apply_merge}
use ecm_management.Structural.Retire.{apply_retire}
use ecm_management.ChangeRequest.Store.{Detail, Outcome, find_request, append_trail, check_then}
use ecm_management.ChangeRequest.Transitions.{trail_entry}
use ecm_management.ChangeRequest.Execution.{is_structural, guarded, release_locks}

unfoldable pub require_single_target : ChangeRequestType → List Uuid → Result Uuid
require_single_target type (id ∷ []) = ok id
require_single_target type [] = err (single_target_required type 0)
require_single_target type (a ∷ b ∷ rest) =
    err (single_target_required type (length (a ∷ b ∷ rest)))

unfoldable pub dispatch :
    ChangeRequestType → ChangeRequest → ActorId → Time → Db → Result (EventEnvelope × Db)
unfolding require_single_target
dispatch ChangeRequestType.reparent r actor_id now db =
    require_single_target r.type r.affected_capability_ids >>= λ id.
    apply_reparent r.id id r.operation_payload actor_id now db
dispatch ChangeRequestType.promote r actor_id now db =
    require_single_target r.type r.affected_capability_ids >>= λ id.
    apply_promote r.id id actor_id now db
dispatch ChangeRequestType.demote r actor_id now db =
    require_single_target r.type r.affected_capability_ids >>= λ id.
    apply_demote r.id id actor_id now db
dispatch ChangeRequestType.merge r actor_id now db =
    apply_merge r.id r.affected_capability_ids r.operation_payload actor_id now db
dispatch ChangeRequestType.retire r actor_id now db =
    apply_retire r.id r.affected_capability_ids r.operation_payload actor_id now db
dispatch ChangeRequestType.delete r actor_id now db =
    apply_delete r.id r.affected_capability_ids actor_id now db
dispatch type r actor_id now db = err (no_handler_for_type type)

unfoldable pub dispatch_op : ChangeRequest → ActorId → Time → Db → Result (EventEnvelope × Db)
unfolding dispatch
dispatch_op r actor_id now db = dispatch r.type r actor_id now db

-- The guard that the transaction starts with: the status is read again, and `undefined`, of a row
-- that is gone, is not EXECUTING.
unfoldable pub still_executing : ChangeRequest → Db → Result (Unit {0})
still_executing r db = elim (find_request r.id db.change_requests) [
  | none ↦ err (invalid_state_transition r.status "apply-structural-operation")
  | some now ↦
      if status_eq now.status ChangeRequestStatus.executing
      then ok tt
      else err (invalid_state_transition now.status "apply-structural-operation")
]

-- The event that the operation returns, and the database.
unfoldable pub apply_tx : ChangeRequest → ActorId → Time → Db → Result (EventEnvelope × Db)
apply_tx r actor_id now db = do
  still_executing r db
  done ← dispatch_op r actor_id now db
  completed ←
      guarded r.id ChangeRequestStatus.executing ChangeRequestStatus.completed
        (invalid_state_transition ChangeRequestStatus.executing "apply-structural-operation") done.1
  ok (
    done.0,
    append_trail
        (trail_entry r.id actor_id "STRUCTURAL_OPERATION_APPLIED" ChangeRequestStatus.executing
          ChangeRequestStatus.completed none (applied done.0) now)
        (record completed { capability_locks = release_locks r.id completed.capability_locks }),
  )

-- emitDomainEvent, after the commit.
unfoldable pub emit : Db → Result (EventEnvelope × Db) → Outcome
emit before (ok (event, db)) = (record db { events = event ∷ db.events }, none)
emit before (err e) = (before, some e)

unfoldable pub apply_structural_operation : Detail → ActorId → Time → Db → Outcome
apply_structural_operation s actor_id now db =
    check_then db
      (if status_eq s.request.status ChangeRequestStatus.executing
        then ok tt
        else err (invalid_state_transition s.request.status "apply-structural-operation"))
      (check_then db
        (if is_structural s.request.type
          then ok tt
          else err (not_a_structural_operation s.request.type))
        (emit db (apply_tx s.request actor_id now db)))
