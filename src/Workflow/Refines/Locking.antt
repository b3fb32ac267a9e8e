-- ===== src/Workflow/Refines/Locking.antt =====
-- `execute`, `complete`, `reportFailure` and `applyStructuralOperation` as moves.
use ecm_management.Base.{
  ◌≡◌, refl, sym, ap, subst, ◌∙◌, inl, inr, true, Option, none, some, List, [], ◌∷◌, String, arith,
  ◌==◌, elem, delete_many, Option-cases, Bool-cases,
}
use ecm_management.Schema.{
  Uuid, ActorId, Time, ChangeRequestStatus, ChangeRequest, CapabilityLock, ChangeRequestAuditEntry,
  EventEnvelope, invalid_state_transition, no_metadata, locked_capability_ids, applied, Db, Result,
  Error, ok, err, check-cases, Result-cases,
}
use ecm_management.ChangeRequest.Store.{Detail, guarded_update, append_trail, commit}
use ecm_management.ChangeRequest.Transitions.{trail_entry}
use ecm_management.ChangeRequest.Execution.{
  create_locks, release_locks, guarded, acquire_locks, keys_exist, execute_tx, execute, finish_tx,
  complete, report_failure,
}
use ecm_management.ChangeRequest.Apply.{
  still_executing, dispatch_op, apply_tx, emit, apply_structural_operation,
}
use ecm_management.Workflow.{IsOutside}
use ecm_management.Workflow.Frames.{IsFramed, apart, deleted, dispatch_op-IsFramed}
use ecm_management.Workflow.Views.{
  view, holder, IsOneLockEach, create_locks-some, holder-release, holder-delete_capability,
  delete_many-IsOneLockEach,
}
use ecm_management.Workflow.Moves.{
  Change, is_after_execution, IsLocking, IsReleasing, IsHeld, Move, stay, lock, release,
}
use ecm_management.Workflow.Refines.Plain.{
  Same-refl, IsOutside-Same, SameRequests, Same-SameRequests, update-Change, check_then-Move,
}

pub IsOutside-refl : (db : Db) → IsOutside db db
IsOutside-refl db = ground arith

-- The row that a change found is the one that a held read was taken of.
same_affected :
    (s : Detail) {to from : ChangeRequestStatus} {db db' : Db}
    → (held : IsHeld s db) → (change : Change s.request.id from to db db')
    → change.seen.affected ≡ s.request.affected_capability_ids
same_affected s held change = ground arith

locked-IsLocking :
    (id : Uuid) (affected : List Uuid) (actor_id : ActorId) (now : Time) (db db' : Db)
    {locks : List CapabilityLock}
    → create_locks affected id actor_id now db.capability_locks ≡ some locks
    → db'.capability_locks ≡ locks
    → IsOneLockEach db.capability_locks
    → IsLocking id affected db db'
locked-IsLocking id affected actor_id now db db' e same one =
    let (one', taken, were_free) =
      create_locks-some affected id actor_id now db.capability_locks e one in
    record {
      taken = λ c. ap (holder c) same ∙ taken c;
      were_free = were_free;
      one_each = λ _. subst IsOneLockEach (sym same) one';
    }

-- A transaction that throws writes nothing.
pub commit-Move :
    (db : Db) (r : Result Db)
    → ((db' : Db) → r ≡ ok db' → Move db db')
    → Move db (commit db (λ x. x) r).0
unfolding commit
commit-Move db (ok db') m = m db' refl
commit-Move db (err e) m = stay (Same-refl db)

-- What a transaction with a guarded update and a trail entry leaves.
abbrev written : Db → List ChangeRequest → List CapabilityLock → ChangeRequestAuditEntry → Db
written db requests locks entry = record db {
  change_requests = requests;
  capability_locks = locks;
  change_request_audit = entry ∷ db.change_request_audit;
}

execute_tx-ok :
    (s : Detail) (actor_id : ActorId) (now : Time) (db : Db) {db' : Db}
    → execute_tx s actor_id now db ≡ ok db'
    → (requests : List ChangeRequest) × (locks : List CapabilityLock) × (guarded_update s.request.id
          ChangeRequestStatus.approved ChangeRequestStatus.executing db.change_requests
        ≡ some requests)
      × (create_locks s.request.affected_capability_ids s.request.id actor_id now
            db.capability_locks
          ≡ some locks)
      × (db'
          ≡ written db requests locks (
              trail_entry s.request.id actor_id "EXECUTION_STARTED" ChangeRequestStatus.approved
                ChangeRequestStatus.executing none
                (locked_capability_ids s.request.affected_capability_ids)
                now))
unfolding execute_tx guarded acquire_locks append_trail
execute_tx-ok s actor_id now db h =
    elim (Option-cases (
      guarded_update s.request.id ChangeRequestStatus.approved ChangeRequestStatus.executing
        db.change_requests)) [
          | inl e ↦ absurd (ground arith)
          | inr (requests, e) ↦
              elim (Option-cases (
                create_locks s.request.affected_capability_ids s.request.id actor_id now
                  db.capability_locks)) [
                    | inl e' ↦ absurd (ground arith)
                    | inr (locks, e') ↦
                        elim (Bool-cases
                          (keys_exist s.request.affected_capability_ids db.capabilities)) [
                            | inl there ↦ (requests, locks, e, e', ground arith)
                            | inr missing ↦ absurd (ground arith)
                          ]
                  ]
        ]

pub execute-Move :
    (s : Detail) (actor_id : ActorId) (now : Time) (db : Db)
    → IsHeld s db
    → IsOneLockEach db.capability_locks
    → Move db (execute s actor_id now db).0
unfolding execute trail_entry
execute-Move s actor_id now db held one = check_then-Move db _ _ λ _.
    commit-Move db (execute_tx s actor_id now db) λ db' h.
      let (requests, locks, e, e', eq) = execute_tx-ok s actor_id now db h in
      subst (Move db) (sym eq) (started requests locks e e')
  where
    entry : ChangeRequestAuditEntry
    entry =
        trail_entry s.request.id actor_id "EXECUTION_STARTED" ChangeRequestStatus.approved
          ChangeRequestStatus.executing none
          (locked_capability_ids s.request.affected_capability_ids) now

    started :
        (requests : List ChangeRequest) (locks : List CapabilityLock)
        → guarded_update s.request.id ChangeRequestStatus.approved ChangeRequestStatus.executing
            db.change_requests
          ≡ some requests
        → create_locks s.request.affected_capability_ids s.request.id actor_id now
            db.capability_locks
          ≡ some locks
        → Move db (written db requests locks entry)
    started requests locks e e' =
        let change : Change s.request.id ChangeRequestStatus.approved ChangeRequestStatus.executing
            db (written db requests locks entry) =
          update-Change s.request.id ChangeRequestStatus.approved ChangeRequestStatus.executing
            entry (Same-SameRequests (Same-refl db)) e refl refl refl refl (omega arith)
            (IsOutside-refl (written db requests locks entry)) in
        lock s.request.id change refl (
          subst (λ a. IsLocking s.request.id a db (written db requests locks entry))
            (sym (same_affected s held change))
            (locked-IsLocking s.request.id s.request.affected_capability_ids actor_id now db _ e'
              refl one))

released-IsReleasing :
    (id : Uuid) (affected : List Uuid) (db db' : Db)
    → db'.capability_locks ≡ release_locks id db.capability_locks
    → IsReleasing id affected db db'
unfolding release_locks
released-IsReleasing id affected db db' e = record {
  released = λ one c. inl (ap (holder c) e ∙ holder-release c id db.capability_locks one);
  one_each =
      λ one. subst IsOneLockEach (sym e) (delete_many-IsOneLockEach _ db.capability_locks one);
}

-- Deleting a capability takes its lock away first.
deleted-IsReleasing :
    (id x : Uuid) (affected : List Uuid) (db db' : Db)
    → affected ≡ x ∷ []
    → db'.capability_locks
      ≡ release_locks id (delete_many (λ l. l.capability_id == x) db.capability_locks)
    → IsReleasing id affected db db'
unfolding release_locks
deleted-IsReleasing id x affected db db' target e = record {
  released = λ one c. elim (Bool-cases (c == x)) [
    | inl hit ↦ inr (
      ap (holder c) e
          ∙ ground (
            arith,
            holder-release c id left (left-one one),
            holder-delete_capability c x db.capability_locks,
          ),
      rw target (unfold elem in ground arith),
    )
    | inr other ↦ inl (
        ap (holder c) e
        ∙ ground (
          arith,
          holder-release c id left (left-one one),
          holder-delete_capability c x db.capability_locks,
        ))
  ];
  one_each = λ one. subst IsOneLockEach (sym e) (delete_many-IsOneLockEach _ left (left-one one));
}
  where
    left : List CapabilityLock
    left = delete_many (λ l. l.capability_id == x) db.capability_locks

    left-one : IsOneLockEach db.capability_locks → IsOneLockEach left
    left-one one = delete_many-IsOneLockEach _ db.capability_locks one

finish_tx-ok :
    (s : Detail) (to : ChangeRequestStatus) (event_type : String) (error : Error)
    (actor_id : ActorId) (comment : Option String) (now : Time) (db : Db) {db' : Db}
    → finish_tx s to event_type error actor_id comment now db ≡ ok db'
    → (requests : List ChangeRequest) × (guarded_update s.request.id ChangeRequestStatus.executing
          to db.change_requests
        ≡ some requests)
      × (db'
          ≡ written db requests (release_locks s.request.id db.capability_locks) (
              trail_entry s.request.id actor_id event_type ChangeRequestStatus.executing to comment
                no_metadata now))
unfolding finish_tx guarded append_trail
finish_tx-ok s to event_type error actor_id comment now db h =
    elim (Option-cases
      (guarded_update s.request.id ChangeRequestStatus.executing to db.change_requests)) [
        | inl e ↦ absurd (ground arith)
        | inr (requests, e) ↦ (requests, e, ground arith)
      ]

finish_tx-Move :
    (s : Detail) (to : ChangeRequestStatus) (event_type : String) (error : Error)
    (actor_id : ActorId) (comment : Option String) (now : Time) (db db' : Db)
    → is_after_execution to ≡ true
    → finish_tx s to event_type error actor_id comment now db ≡ ok db'
    → Move db db'
unfolding trail_entry
finish_tx-Move s to event_type error actor_id comment now db db' after h =
    let (requests, e, eq) = finish_tx-ok s to event_type error actor_id comment now db h in
    subst (Move db) (sym eq) (
      release s.request.id to
        (update-Change s.request.id ChangeRequestStatus.executing to entry
          (Same-SameRequests (Same-refl db)) e refl refl refl refl (omega arith) (IsOutside-refl _))
        after refl (released-IsReleasing s.request.id _ db _ refl))
  where
    entry : ChangeRequestAuditEntry
    entry =
        trail_entry s.request.id actor_id event_type ChangeRequestStatus.executing to comment
          no_metadata now

pub complete-Move :
    (s : Detail) (actor_id : ActorId) (now : Time) (db : Db)
    → Move db (complete s actor_id now db).0
unfolding complete
complete-Move s actor_id now db = check_then-Move db _ _ λ _. check_then-Move db _ _ λ _.
    commit-Move db _ λ db' h.
      finish_tx-Move s ChangeRequestStatus.completed "EXECUTION_COMPLETED"
        (invalid_state_transition s.request.status "complete") actor_id none now db db' refl h

pub report_failure-Move :
    (s : Detail) (actor_id : ActorId) (comment : Option String) (now : Time) (db : Db)
    → Move db (report_failure s actor_id comment now db).0
unfolding report_failure
report_failure-Move s actor_id comment now db = check_then-Move db _ _ λ _.
    commit-Move db _ λ db' h.
      finish_tx-Move s ChangeRequestStatus.approved "EXECUTION_FAILED"
        (invalid_state_transition s.request.status "report-failure") actor_id comment now db db'
        refl h

apply_tx-ok :
    (r : ChangeRequest) (actor_id : ActorId) (now : Time) (db : Db) {result : EventEnvelope × Db}
    → apply_tx r actor_id now db ≡ ok result
    → (done : EventEnvelope × Db) × (requests : List ChangeRequest) × (dispatch_op r actor_id now db
        ≡ ok done)
      × (guarded_update r.id ChangeRequestStatus.executing ChangeRequestStatus.completed
            done.1.change_requests
          ≡ some requests)
      × (result.1
          ≡ written done.1 requests (release_locks r.id done.1.capability_locks) (
              trail_entry r.id actor_id "STRUCTURAL_OPERATION_APPLIED" ChangeRequestStatus.executing
                ChangeRequestStatus.completed none
                (applied done.0)
                now))
unfolding apply_tx guarded append_trail
apply_tx-ok r actor_id now db h = elim (check-cases (still_executing r db)) [
  | inr (x, e) ↦ absurd (ground arith)
  | inl e₀ ↦ elim (Result-cases (dispatch_op r actor_id now db)) [
    | inr (x, e) ↦ absurd (ground arith)
    | inl (done, e) ↦
        elim (Option-cases (
          guarded_update r.id ChangeRequestStatus.executing ChangeRequestStatus.completed
            done.1.change_requests)) [
              | inl e' ↦ absurd (ground arith)
              | inr (requests, e') ↦ (done, requests, e, e', ground arith)
            ]
  ]
]

framed-SameRequests :
    {affected : List Uuid} {db done : Db} → IsFramed affected db done → SameRequests db done
framed-SameRequests (apart out) = Same-SameRequests (IsOutside-Same out)
framed-SameRequests (deleted x target requests decisions trail locks grows) = record {
  same_views = λ j i. view j (requests i);
  same_trail = trail;
  grows = grows;
}

framed-decisions :
    {affected : List Uuid} {db done : Db}
    → IsFramed affected db done
    → done.approval_decisions ≡ db.approval_decisions
framed-decisions (apart out) = out.same_decisions
framed-decisions (deleted x target requests decisions trail locks grows) = decisions

framed-IsReleasing :
    {affected : List Uuid} {db done : Db} (id : Uuid) (after : Db)
    → IsFramed affected db done
    → after.capability_locks ≡ release_locks id done.capability_locks
    → IsReleasing id affected db after
framed-IsReleasing {affected = a} {db = db} id after (apart out) e =
    released-IsReleasing id a db after (e ∙ ap (release_locks id) out.same_locks)
framed-IsReleasing {affected = a} {db = db} id after
      (deleted x target requests decisions trail locks grows) e =
    deleted-IsReleasing id x a db after target (e ∙ ap (release_locks id) locks)

-- Completion after an operation that was framed.
framed-Move :
    (r : ChangeRequest) (done after : Db) (requests : List ChangeRequest)
    (entry : ChangeRequestAuditEntry) (db : Db)
    → (frame : IsFramed r.affected_capability_ids db done)
    → guarded_update r.id ChangeRequestStatus.executing ChangeRequestStatus.completed
        done.change_requests
      ≡ some requests
    → entry.change_request_id ≡ r.id
    → entry.from_status ≡ some ChangeRequestStatus.executing
    → entry.to_status ≡ some ChangeRequestStatus.completed
    → IsOutside (written done requests (release_locks r.id done.capability_locks) entry) after
    → ((change : Change r.id ChangeRequestStatus.executing ChangeRequestStatus.completed db after)
        → change.seen.affected ≡ r.affected_capability_ids)
    → Move db after
framed-Move r done after requests entry db frame e i f t out aff =
    let change : Change r.id ChangeRequestStatus.executing ChangeRequestStatus.completed db after =
      update-Change r.id ChangeRequestStatus.executing ChangeRequestStatus.completed entry
        (framed-SameRequests frame) e refl i f t (omega arith) out in
    release r.id ChangeRequestStatus.completed change refl
      (out.same_decisions ∙ framed-decisions frame)
      (subst (λ a. IsReleasing r.id a db after) (sym (aff change))
        (framed-IsReleasing r.id after frame out.same_locks))

emit-Move :
    (db : Db) (r : Result (EventEnvelope × Db))
    → ((event : EventEnvelope) (db' : Db)
        → r ≡ ok (event, db')
        → Move db (record db' { events = event ∷ db'.events }))
    → Move db (emit db r).0
unfolding emit
emit-Move db (ok (event, db')) m = m event db' refl
emit-Move db (err e) m = stay (Same-refl db)

pub apply-Move :
    (s : Detail) (actor_id : ActorId) (now : Time) (db : Db)
    → IsHeld s db
    → Move db (apply_structural_operation s actor_id now db).0
unfolding apply_structural_operation trail_entry
apply-Move s actor_id now db held = check_then-Move db _ _ λ _. check_then-Move db _ _ λ _.
    emit-Move db _ λ event db' h.
      let (done, requests, e, e', eq) = apply_tx-ok s.request actor_id now db h in
      framed-Move s.request done.1 (record db' { events = event ∷ db'.events }) requests _ db
        (dispatch_op-IsFramed s.request actor_id now db e) e' refl refl refl
        (subst (λ (x : Db). IsOutside x (record db' { events = event ∷ db'.events })) eq
          (ground arith))
        (same_affected s held)
