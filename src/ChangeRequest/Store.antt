-- ===== src/ChangeRequest/Store.antt =====
-- change-request.service.ts: reads, the status-guarded update that every handler commits by, the
-- trail, and the writes that follow a commit.
use ecm_management.Base.{
  Option, none, some, List, ◌∷◌, String, if◌then◌else◌, ◌==◌, str_eq, find_first, select,
  update_many,
}
use ecm_management.Schema.{
  Uuid, ActorId, Time, ChangeRequestStatus, status_eq, ChangeRequest, ApprovalDecision,
  ChangeRequestAuditEntry, AuditAction, AuditEntityType, AuditMetadata, NotificationEventType,
  change_request_submitted, change_request_approved, change_request_rejected, Db, Error,
  change_request_not_found, Result, ok, err,
}
use ecm_management.Structural.History.{elem_text}

-- A request as `findOne` returns it, with its decisions.
pub record Detail : Type 0 where
  pub request : ChangeRequest
  pub decisions : List ApprovalDecision

-- What a handler leaves: the database, and the exception if it throws.
abbrev pub Outcome : Type 0
Outcome = Db × Option Error

unfoldable pub find_request : Uuid → List ChangeRequest → Option ChangeRequest
find_request id requests = find_first (λ r. r.id == id) requests

unfoldable pub decisions_of : Uuid → List ApprovalDecision → List ApprovalDecision
decisions_of id = select (λ d. d.change_request_id == id)

unfoldable pub find_one : Uuid → Db → Result Detail
unfolding find_request
find_one id db = elim (find_request id db.change_requests) [
  | none ↦ err (change_request_not_found id)
  | some r ↦ ok (record { request = r; decisions = decisions_of id db.approval_decisions })
]

-- approvalDecisions.find((d) => d.approverRole === role)
unfoldable pub decision_by : String → List ApprovalDecision → Option ApprovalDecision
decision_by role = find_first (λ d. str_eq d.approver_role role)

unfoldable pub set_status : Uuid → ChangeRequestStatus → List ChangeRequest → List ChangeRequest
set_status id to = update_many (λ r. r.id == id) (λ r. record r { status = to })

-- updateMany({ where: { id, status: from }, data: { status: to } }); `none` if its count is 0. The
-- id is the primary key, so the count is 0 or 1.
unfoldable pub guarded_update :
    Uuid
    → ChangeRequestStatus
    → ChangeRequestStatus
    → List ChangeRequest
    → Option (List ChangeRequest)
unfolding set_status
guarded_update id from to requests = elim (find_request id requests) [
  | none ↦ none
  | some r ↦ if status_eq r.status from then some (set_status id to requests) else none
]

-- `current?.status ?? fallback`
unfoldable pub current_status :
    Uuid → ChangeRequestStatus → List ChangeRequest → ChangeRequestStatus
current_status id fallback requests = elim (find_request id requests) [
  | none ↦ fallback
  | some r ↦ r.status
]

unfoldable pub append_trail : ChangeRequestAuditEntry → Db → Db
append_trail entry db = record db { change_request_audit = entry ∷ db.change_request_audit }

-- auditService.record
unfoldable pub record_audit : Uuid → AuditAction → ActorId → AuditMetadata → Time → Db → Db
record_audit id action actor_id metadata now db = record db {
  audit_entries =
      record {
        entity_type = AuditEntityType.change_request;
        entity_id = id;
        action = action;
        actor_id = actor_id;
        metadata = metadata;
        timestamp = now;
      }
      ∷ db.audit_entries;
}

unfoldable pub status_to_audit_action : ChangeRequestStatus → AuditAction
status_to_audit_action ChangeRequestStatus.submitted = AuditAction.submit
status_to_audit_action ChangeRequestStatus.cancelled = AuditAction.cancel
status_to_audit_action ChangeRequestStatus.approved = AuditAction.approve
status_to_audit_action ChangeRequestStatus.rejected = AuditAction.reject
status_to_audit_action _ = AuditAction.update

-- The table `config` of `notifyCrRecipient`.
unfoldable pub notification_config : ChangeRequestStatus → Option (NotificationEventType × String)
notification_config ChangeRequestStatus.submitted =
    some (change_request_submitted, "Change request submitted")
notification_config ChangeRequestStatus.approved =
    some (change_request_approved, "Change request approved")
notification_config ChangeRequestStatus.rejected =
    some (change_request_rejected, "Change request rejected")
notification_config _ = none

-- A recipient that is no user breaks the foreign key, and the failure is swallowed.
unfoldable pub send_notification :
    Option (NotificationEventType × String) → ChangeRequestStatus → Uuid → ActorId → Db → Db
send_notification none status id recipient db = db
send_notification (some (event_type, title)) status id recipient db =
    if elem_text recipient db.users
    then record db {
      notifications =
          record {
            event_type = event_type;
            recipient_id = recipient;
            entity_id = id;
            title = title;
            status_metadata = status;
          }
          ∷ db.notifications;
    }
    else db

unfoldable pub notify_cr_recipient : ChangeRequestStatus → Uuid → ActorId → Db → Db
unfolding notification_config send_notification
notify_cr_recipient status id recipient db =
    send_notification (notification_config status) status id recipient db

-- A transaction that throws leaves the database as it was; what follows the commit runs only then.
unfoldable pub commit : Db → (Db → Db) → Result Db → Outcome
commit before after (ok db) = (after db, none)
commit before after (err e) = (before, some e)

-- A check before any write.
unfoldable pub check_then : Db → Result (Unit {0}) → Outcome → Outcome
check_then before (ok _) rest = rest
check_then before (err e) rest = (before, some e)
