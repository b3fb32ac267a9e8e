-- ===== src/ChangeRequest/Execution.antt =====
-- change-request.service.ts: `execute`, `complete` and `reportFailure`, with the capability locks.
use ecm_management.Base.{
  Bool, true, false, Option, none, some, List, [], ◌∷◌, String, if◌then◌else◌, ◌==◌, find_first,
  delete_many,
}
use ecm_management.Schema.{
  Uuid, ActorId, Time, ChangeRequestStatus, ChangeRequestType, status_eq, CapabilityLock,
  Capability, no_metadata, locked_capability_ids, Db, Error, invalid_state_transition,
  capability_locked, foreign_key_violated, structural_type_needs_apply, Result, ok, err, ◌>>=◌,
}
use ecm_management.Structural.Hierarchy.{find_capability}
use ecm_management.ChangeRequest.Store.{
  Detail, Outcome, guarded_update, append_trail, commit, check_then,
}
use ecm_management.ChangeRequest.Transitions.{trail_entry, assert_valid_transition}

unfoldable pub find_lock : Uuid → List CapabilityLock → Option CapabilityLock
find_lock capability_id = find_first (λ l. l.capability_id == capability_id)

unfoldable pub new_lock : Uuid → Uuid → ActorId → Time → CapabilityLock
new_lock capability_id change_request_id actor_id now = record {
  capability_id = capability_id;
  change_request_id = change_request_id;
  locked_at = now;
  locked_by = actor_id;
}

-- The rows that capabilityLock.createMany writes, under the unique constraint on the capability, which
-- is checked row by row: `none` is P2002.
unfoldable pub create_locks :
    List Uuid → Uuid → ActorId → Time → List CapabilityLock → Option (List CapabilityLock)
unfolding new_lock
create_locks [] change_request_id actor_id now locks = some locks
create_locks (c ∷ cs) change_request_id actor_id now locks = elim (find_lock c locks) [
  | some _ ↦ none
  | none ↦
      create_locks cs change_request_id actor_id now
        (new_lock c change_request_id actor_id now ∷ locks)
]

-- capabilityLock.deleteMany({ where: { changeRequestId } })
unfoldable pub release_locks : Uuid → List CapabilityLock → List CapabilityLock
release_locks change_request_id = delete_many (λ l. l.change_request_id == change_request_id)

unfoldable pub guarded : Uuid → ChangeRequestStatus → ChangeRequestStatus → Error → Db → Result Db
guarded id from to error db = elim (guarded_update id from to db.change_requests) [
  | none ↦ err error
  | some requests ↦ ok (record db { change_requests = requests })
]

-- The foreign key of the lock's capability, which is checked when the rows are written.
unfoldable pub keys_exist : List Uuid → List Capability → Bool
keys_exist [] capabilities = true
keys_exist (c ∷ cs) capabilities = elim (find_capability c capabilities) [
  | none ↦ false
  | some _ ↦ keys_exist cs capabilities
]

-- capabilityLock.createMany. P2002 is answered as a conflict, and P2003, a capability that does not
-- exist, is thrown on.
unfoldable pub acquire_locks : Uuid → List Uuid → ActorId → Time → Db → Result Db
acquire_locks id affected actor_id now db =
    elim (create_locks affected id actor_id now db.capability_locks) [
      | none ↦ err (capability_locked affected)
      | some locks ↦
          if keys_exist affected db.capabilities
          then ok (record db { capability_locks = locks })
          else err foreign_key_violated
    ]

unfoldable pub execute_tx : Detail → ActorId → Time → Db → Result Db
execute_tx s actor_id now db = do
  started ←
      guarded s.request.id ChangeRequestStatus.approved ChangeRequestStatus.executing
        (invalid_state_transition s.request.status "execute") db
  locked ← acquire_locks s.request.id s.request.affected_capability_ids actor_id now started
  ok (
      append_trail
        (trail_entry s.request.id actor_id "EXECUTION_STARTED" ChangeRequestStatus.approved
          ChangeRequestStatus.executing none
          (locked_capability_ids s.request.affected_capability_ids) now)
        locked)

unfoldable pub execute : Detail → ActorId → Time → Db → Outcome
execute s actor_id now db =
    check_then db (assert_valid_transition s.request.status ChangeRequestStatus.executing "execute")
      (commit db (λ db'. db') (execute_tx s actor_id now db))

-- STRUCTURAL_TYPES
unfoldable pub is_structural : ChangeRequestType → Bool
is_structural ChangeRequestType.create = false
is_structural ChangeRequestType.update = false
is_structural _ = true

-- EXECUTING to `to`, the locks released, and an entry in the trail.
unfoldable pub finish_tx :
    Detail → ChangeRequestStatus → String → Error → ActorId → Option String → Time → Db → Result Db
finish_tx s to event_type error actor_id comment now db = do
  finished ← guarded s.request.id ChangeRequestStatus.executing to error db
  ok (
      append_trail
        (trail_entry s.request.id actor_id event_type ChangeRequestStatus.executing to comment
          no_metadata now)
        (record finished {
          capability_locks = release_locks s.request.id finished.capability_locks;
        }))

unfoldable pub complete : Detail → ActorId → Time → Db → Outcome
complete s actor_id now db =
    check_then db
      (assert_valid_transition s.request.status ChangeRequestStatus.completed "complete")
      (check_then db
        (if is_structural s.request.type
          then err (structural_type_needs_apply s.request.type)
          else ok tt)
        (commit db (λ db'. db')
          (finish_tx s ChangeRequestStatus.completed "EXECUTION_COMPLETED"
            (invalid_state_transition s.request.status "complete") actor_id none now db)))

unfoldable pub report_failure : Detail → ActorId → Option String → Time → Db → Outcome
report_failure s actor_id comment now db =
    check_then db
      (if status_eq s.request.status ChangeRequestStatus.executing
        then ok tt
        else err (invalid_state_transition s.request.status "report-failure"))
      (commit db (λ db'. db')
        (finish_tx s ChangeRequestStatus.approved "EXECUTION_FAILED"
          (invalid_state_transition s.request.status "report-failure") actor_id comment now db))
