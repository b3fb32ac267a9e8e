-- ===== src/Workflow/Frames.antt =====
-- The tables of the workflow under the structural operations: all but DELETE leave them alone, and
-- DELETE removes the lock of the capability that it deletes.
use ecm_management.Base.{◌≤◌, ◌≡◌, refl, ◌∙◌, Option, List, [], ◌∷◌, arith, ◌==◌, delete_many}
use ecm_management.Schema.{
  Uuid, ActorId, Time, Capability, Snapshot, CapabilityVersionChangeType, OperationPayload,
  ChangeRequestType, ChangeRequest, EventEnvelope, Db, ok,
}
use ecm_management.Structural.History.{record_change, ensure_draft_version_id}
use ecm_management.Structural.Operations.{
  change_capability, update_capability, apply_reparent, apply_promote, apply_demote, apply_delete,
  delete_one,
}
use ecm_management.Structural.Merge.{
  MergeState, find_capabilities, merge_source, merge_sources, apply_merge, merge_into, finish_merge,
  start_merge,
}
use ecm_management.Structural.Retire.{record_retirements, apply_retire, retire_all, retire_rows}
use ecm_management.ChangeRequest.Apply.{dispatch, dispatch_op}
use ecm_management.Workflow.{IsOutside}

ensure_draft-IsOutside :
    (actor_id : ActorId) (now : Time) (db : Db)
    → IsOutside db (ensure_draft_version_id actor_id now db).1
unfolding ensure_draft_version_id
ensure_draft-IsOutside actor_id now db = ground arith

pub record_change-IsOutside :
    (id : Uuid) (t : CapabilityVersionChangeType) (before after : Option Snapshot)
    (actor_id : ActorId) (now : Time) (db : Db)
    → IsOutside db (record_change id t before after actor_id now db)
unfolding record_change
record_change-IsOutside id t before after actor_id now db =
    ground (arith, ensure_draft-IsOutside actor_id now db)

pub change_capability-IsOutside :
    (id : Uuid) (t : CapabilityVersionChangeType) (f : Capability → Capability) (actor_id : ActorId)
    (now : Time) (db : Db)
    → IsOutside db (change_capability id t f actor_id now db)
unfolding change_capability
change_capability-IsOutside id t f actor_id now db =
    let h = record_change-IsOutside id t _ _ actor_id now (update_capability id f db) in
    record {
      same_requests = h.same_requests;
      same_decisions = h.same_decisions;
      same_locks = h.same_locks;
      same_trail = h.same_trail;
      later_uuid = h.later_uuid;
    }

pub IsOutside-trans : {a b c : Db} → IsOutside a b → IsOutside b c → IsOutside a c
IsOutside-trans h k = record {
  same_requests = k.same_requests ∙ h.same_requests;
  same_decisions = k.same_decisions ∙ h.same_decisions;
  same_locks = k.same_locks ∙ h.same_locks;
  same_trail = k.same_trail ∙ h.same_trail;
  later_uuid = omega arith;
}

merge_source-IsOutside :
    (cr survivor : Uuid) (actor_id : ActorId) (now : Time) (source : Capability) (s : MergeState)
    → IsOutside s.db (merge_source cr survivor actor_id now source s).db
unfolding merge_source
merge_source-IsOutside cr survivor actor_id now source s =
    let h =
      change_capability-IsOutside source.id CapabilityVersionChangeType.merge _ actor_id now _ in
    record {
      same_requests = h.same_requests;
      same_decisions = h.same_decisions;
      same_locks = h.same_locks;
      same_trail = h.same_trail;
      later_uuid = h.later_uuid;
    }

merge_sources-IsOutside :
    (cr survivor : Uuid) (actor_id : ActorId) (now : Time) (sources : List Capability)
    (s : MergeState)
    → IsOutside s.db (merge_sources cr survivor actor_id now sources s).db
unfolding merge_sources
merge_sources-IsOutside cr survivor actor_id now [] s = ground arith
merge_sources-IsOutside cr survivor actor_id now (c ∷ cs) s =
    IsOutside-trans (merge_source-IsOutside cr survivor actor_id now c s)
      (merge_sources-IsOutside cr survivor actor_id now cs _)

record_retirements-IsOutside :
    (ids : List Uuid) (before : List Capability) (actor_id : ActorId) (now : Time) (db : Db)
    → IsOutside db (record_retirements ids before actor_id now db)
unfolding record_retirements
record_retirements-IsOutside [] before actor_id now db = ground arith
record_retirements-IsOutside (id ∷ rest) before actor_id now db =
    IsOutside-trans (record_change-IsOutside id _ _ _ actor_id now db)
      (record_retirements-IsOutside rest before actor_id now _)

-- What an operation that succeeded may have done: nothing to the workflow, or the removal of the lock
-- of the one capability that it is about.
pub data IsFramed (affected : List Uuid) (db db' : Db) : Type 0 where
  apart : IsOutside db db' → IsFramed affected db db'
  deleted :
      (x : Uuid)
      → affected ≡ x ∷ []
      → db'.change_requests ≡ db.change_requests
      → db'.approval_decisions ≡ db.approval_decisions
      → db'.change_request_audit ≡ db.change_request_audit
      → db'.capability_locks ≡ delete_many (λ l. l.capability_id == x) db.capability_locks
      → db.next_uuid ≤ db'.next_uuid
      → IsFramed affected db db'

reparent-IsOutside :
    (cr id : Uuid) (raw : Option OperationPayload) (actor_id : ActorId) (now : Time) (db : Db)
    {done : EventEnvelope × Db}
    → apply_reparent cr id raw actor_id now db ≡ ok done
    → IsOutside db done.1
unfolding apply_reparent
reparent-IsOutside cr id raw actor_id now db h = grind (arith, change_capability-IsOutside)

promote-IsOutside :
    (cr id : Uuid) (actor_id : ActorId) (now : Time) (db : Db) {done : EventEnvelope × Db}
    → apply_promote cr id actor_id now db ≡ ok done
    → IsOutside db done.1
unfolding apply_promote
promote-IsOutside cr id actor_id now db h = grind (arith, change_capability-IsOutside)

demote-IsOutside :
    (cr id : Uuid) (actor_id : ActorId) (now : Time) (db : Db) {done : EventEnvelope × Db}
    → apply_demote cr id actor_id now db ≡ ok done
    → IsOutside db done.1
unfolding apply_demote
demote-IsOutside cr id actor_id now db h = grind (arith, change_capability-IsOutside)

merged-IsOutside :
    (cr survivor : Uuid) (actor_id : ActorId) (now : Time) (row : Capability)
    (sources : List Capability) (db : Db)
    → IsOutside db (
        finish_merge survivor actor_id now
          (merge_sources cr survivor actor_id now sources (start_merge row db)))
unfolding finish_merge start_merge
merged-IsOutside cr survivor actor_id now row sources db =
    IsOutside-trans (merge_sources-IsOutside cr survivor actor_id now sources _)
      (change_capability-IsOutside survivor CapabilityVersionChangeType.merge _ actor_id now _)

merge_into-IsOutside :
    (cr : Uuid) (affected : List Uuid) (survivor : Uuid) (actor_id : ActorId) (now : Time) (db : Db)
    {done : EventEnvelope × Db}
    → merge_into cr affected survivor actor_id now db ≡ ok done
    → IsOutside db done.1
unfolding merge_into
merge_into-IsOutside cr affected survivor actor_id now db h = grind (arith, merged-IsOutside)

merge-IsOutside :
    (cr : Uuid) (affected : List Uuid) (raw : Option OperationPayload) (actor_id : ActorId)
    (now : Time) (db : Db) {done : EventEnvelope × Db}
    → apply_merge cr affected raw actor_id now db ≡ ok done
    → IsOutside db done.1
unfolding apply_merge
merge-IsOutside cr affected raw actor_id now db h = grind (arith, merge_into-IsOutside)

retire_all-IsOutside :
    (affected : List Uuid) (effective_to : Time) (actor_id : ActorId) (now : Time) (db : Db)
    → IsOutside db (retire_all affected effective_to actor_id now db)
unfolding retire_all
retire_all-IsOutside affected effective_to actor_id now db = ground (
  arith,
  record_retirements-IsOutside affected (find_capabilities affected db.capabilities) actor_id now
      (record db { capabilities = retire_rows affected effective_to db.capabilities }),
)

retire-IsOutside :
    (cr : Uuid) (affected : List Uuid) (raw : Option OperationPayload) (actor_id : ActorId)
    (now : Time) (db : Db) {done : EventEnvelope × Db}
    → apply_retire cr affected raw actor_id now db ≡ ok done
    → IsOutside db done.1
unfolding apply_retire
retire-IsOutside cr affected raw actor_id now db h = grind (arith, retire_all-IsOutside)

delete-IsFramed :
    (cr : Uuid) (affected : List Uuid) (actor_id : ActorId) (now : Time) (db : Db)
    {done : EventEnvelope × Db}
    → apply_delete cr affected actor_id now db ≡ ok done
    → IsFramed affected db done.1
unfolding apply_delete delete_one
delete-IsFramed cr [] actor_id now db h = absurd (ground arith)
delete-IsFramed cr (x ∷ []) actor_id now db h =
    deleted x refl (ground arith) (ground arith) (ground arith) (ground arith) (ground arith)
delete-IsFramed cr (a ∷ b ∷ rest) actor_id now db h = absurd (ground arith)

dispatch-IsFramed :
    (t : ChangeRequestType) (r : ChangeRequest) (actor_id : ActorId) (now : Time) (db : Db)
    {done : EventEnvelope × Db}
    → dispatch t r actor_id now db ≡ ok done
    → IsFramed r.affected_capability_ids db done.1
unfolding dispatch
dispatch-IsFramed ChangeRequestType.reparent r actor_id now db h =
    apart (grind (arith, reparent-IsOutside))
dispatch-IsFramed ChangeRequestType.promote r actor_id now db h =
    apart (grind (arith, promote-IsOutside))
dispatch-IsFramed ChangeRequestType.demote r actor_id now db h =
    apart (grind (arith, demote-IsOutside))
dispatch-IsFramed ChangeRequestType.merge r actor_id now db h =
    apart (merge-IsOutside r.id r.affected_capability_ids r.operation_payload actor_id now db h)
dispatch-IsFramed ChangeRequestType.retire r actor_id now db h =
    apart (retire-IsOutside r.id r.affected_capability_ids r.operation_payload actor_id now db h)
dispatch-IsFramed ChangeRequestType.delete r actor_id now db h =
    delete-IsFramed r.id r.affected_capability_ids actor_id now db h
dispatch-IsFramed ChangeRequestType.create r actor_id now db h = absurd (ground arith)
dispatch-IsFramed ChangeRequestType.update r actor_id now db h = absurd (ground arith)

-- A structural operation that goes through leaves the requests, the decisions and the trail as they
-- are, and the locks too, but that it may take away the locks of one capability that the request
-- affects.
pub dispatch_op-IsFramed :
    (r : ChangeRequest) (actor_id : ActorId) (now : Time) (db : Db) {done : EventEnvelope × Db}
    → dispatch_op r actor_id now db ≡ ok done
    → IsFramed r.affected_capability_ids db done.1
unfolding dispatch_op
dispatch_op-IsFramed r actor_id now db h = dispatch-IsFramed r.type r actor_id now db h
