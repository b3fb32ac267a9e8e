-- ===== src/Schema/Rows.antt =====
-- The rows of apps/api/prisma/schema.prisma. A UUID is the number that its bits spell, a DateTime
-- the milliseconds of its instant. Columns that only the database reads (the keys of audit, lock
-- and decision rows, updatedAt, the two legacy Json columns) are left out.
use ecm_management.Base.{ℕ, Bool, Option, List, String}
use ecm_management.Schema.Enums.{
  CapabilityType, LifecycleStatus, MappingState, ChangeRequestStatus, ChangeRequestType,
  ApprovalDecisionOutcome, CapabilityVersionChangeType, ModelVersionState, BranchType, AuditAction,
  AuditEntityType, NotificationEventType, DeliveryStatus,
}

abbrev pub Uuid : Type 0
Uuid = ℕ

abbrev pub ActorId : Type 0
ActorId = String

abbrev pub Time : Type 0
Time = ℕ

-- A text that a user wrote, or the rationale that a merge writes: survivor and change request.
pub data Rationale : Type 0 where
  written : String → Rationale
  merged_into : Uuid → Uuid → Rationale

pub record Capability : Type 0 where
  pub id : Uuid
  pub unique_name : String
  pub aliases : List String
  pub description : Option String
  pub domain : Option String
  pub type : CapabilityType
  pub parent_id : Option Uuid
  pub lifecycle_status : LifecycleStatus
  pub effective_from : Option Time
  pub effective_to : Option Time
  pub rationale : Option Rationale
  pub source_references : List String
  pub tags : List String
  pub steward_id : Option String
  pub steward_department : Option String
  pub name_guardrail_override : Bool
  pub name_guardrail_override_rationale : Option String
  pub is_erroneous : Bool
  pub erroneous_reason : Option String
  pub branch_origin_id : Option Uuid
  pub created_at : Time

-- `attributes` is the text of a JSON object.
pub record Mapping : Type 0 where
  pub id : Uuid
  pub mapping_type : String
  pub system_id : String
  pub capability_id : Uuid
  pub state : MappingState
  pub attributes : Option String
  pub created_at : Time

-- A value of a snapshot column.
pub data Json : Type 0 where
  null : Json
  text : String → Json
  texts : List String → Json
  flag : Bool → Json
  uuid : Uuid → Json
  moment : Time → Json
  merge_note : Uuid → Uuid → Json

-- A JSON object: its entries in order.
abbrev pub Snapshot : Type 0
Snapshot = List (String × Json)

-- One entry of changedFields: its key, and the values before and after. `none` is JavaScript's
-- `undefined`, a key that the snapshot lacks.
pub record ChangedField : Type 0 where
  pub key : String
  pub before : Option Json
  pub after : Option Json

pub record CapabilityVersion : Type 0 where
  pub id : Uuid
  pub capability_id : Uuid
  pub model_version_id : Uuid
  pub change_type : CapabilityVersionChangeType
  pub changed_fields : List ChangedField
  pub before_snapshot : Option Snapshot
  pub after_snapshot : Option Snapshot
  pub changed_by : ActorId
  pub changed_at : Time
  pub previous_version_id : Option Uuid

-- A label that a user chose, or one stamped with the time of its making.
pub data VersionLabel : Type 0 where
  named : String → VersionLabel
  draft_at : Time → VersionLabel
  rollback_draft_at : Time → VersionLabel
  what_if_at : String → Time → VersionLabel

pub record ModelVersion : Type 0 where
  pub id : Uuid
  pub version_label : VersionLabel
  pub state : ModelVersionState
  pub base_version_id : Option Uuid
  pub branch_type : BranchType
  pub branch_name : Option String
  pub description : Option String
  pub notes : Option String
  pub created_by : ActorId
  pub approved_by : Option ActorId
  pub published_at : Option Time
  pub rollback_of_version_id : Option Uuid
  pub created_at : Time

-- `effectiveTo` as `new Date` reads it: an instant, or an invalid date.
pub data DateText : Type 0 where
  instant : Time → DateText
  invalid_date : DateText

-- ChangeRequest.operationPayload: an object with the keys that the operations read, or JSON of
-- another kind. A key that is absent, null or the empty text is `none`.
pub data OperationPayload : Type 0 where
  object : Option Uuid → Option Uuid → Option DateText → OperationPayload
  not_an_object : OperationPayload

pub data ImpactSeverity : Type 0 where
  low medium high : ImpactSeverity

-- A summary that the requester wrote, or the line that request-approval computes: severity, all
-- mappings, active mappings, systems.
pub data ImpactText : Type 0 where
  written : String → ImpactText
  computed : ImpactSeverity → ℕ → ℕ → ℕ → ImpactText

pub record ChangeRequest : Type 0 where
  pub id : Uuid
  pub type : ChangeRequestType
  pub status : ChangeRequestStatus
  pub requested_by : ActorId
  pub rationale : Option String
  pub affected_capability_ids : List Uuid
  pub operation_payload : Option OperationPayload
  pub impact_summary : Option ImpactText
  pub downstream_plan : Option String
  pub created_at : Time

pub record ApprovalDecision : Type 0 where
  pub change_request_id : Uuid
  pub approver_role : String
  pub approver_id : ActorId
  pub decision : ApprovalDecisionOutcome
  pub comment : Option String
  pub decided_at : Time

-- Written after the commit of a structural operation.
pub data DomainEvent : Type 0 where
  capability_reparented : Uuid → Option Uuid → Option Uuid → DomainEvent
  capability_promoted : Uuid → DomainEvent
  capability_demoted : Uuid → DomainEvent
  capability_merged : Uuid → List Uuid → ℕ → ℕ → DomainEvent
  capability_retired : List Uuid → List Uuid → Time → DomainEvent
  capability_deleted : Uuid → DomainEvent

-- A domain event with the fields that all payloads share.
pub record EventEnvelope : Type 0 where
  pub event : DomainEvent
  pub change_request_id : Uuid
  pub actor_id : ActorId
  pub occurred_at : Time

pub data TrailMetadata : Type 0 where
  no_metadata : TrailMetadata
  decided : String → ApprovalDecisionOutcome → TrailMetadata
  locked_capability_ids : List Uuid → TrailMetadata
  applied : EventEnvelope → TrailMetadata

pub record ChangeRequestAuditEntry : Type 0 where
  pub change_request_id : Uuid
  pub actor_id : ActorId
  pub event_type : String
  pub from_status : Option ChangeRequestStatus
  pub to_status : Option ChangeRequestStatus
  pub comment : Option String
  pub metadata : TrailMetadata
  pub created_at : Time

pub record CapabilityLock : Type 0 where
  pub capability_id : Uuid
  pub change_request_id : Uuid
  pub locked_at : Time
  pub locked_by : ActorId

pub data AuditMetadata : Type 0 where
  created_as : ChangeRequestType → ChangeRequestStatus → ActorId → AuditMetadata
  transition : ChangeRequestStatus → ChangeRequestStatus → String → AuditMetadata
  decision : String → ApprovalDecisionOutcome → ChangeRequestStatus → AuditMetadata
  published_as : String → Uuid → AuditMetadata
  rolled_back_to : Uuid → Option String → AuditMetadata
  mapped : String → Uuid → MappingState → AuditMetadata
  remapped : Option String → Option MappingState → Option String → AuditMetadata
  nothing_more : AuditMetadata

pub record AuditEntry : Type 0 where
  pub entity_type : AuditEntityType
  pub entity_id : Uuid
  pub action : AuditAction
  pub actor_id : ActorId
  pub metadata : AuditMetadata
  pub timestamp : Time

pub record TaskOrNotification : Type 0 where
  pub event_type : NotificationEventType
  pub recipient_id : ActorId
  pub entity_id : Uuid
  pub title : String
  pub status_metadata : ChangeRequestStatus

-- What a publish event points to: `change-request/${id}`, `model-version/${id}`, `rollback/${id}`.
pub data PayloadRef : Type 0 where
  change_request_ref model_version_ref rollback_ref : Uuid → PayloadRef

-- The types of publish events.
pub data PublishEventType : Type 0 where
  reparented promoted demoted merged retired deleted published rolled_back : PublishEventType

-- A row of the outbox. A worker's name ends in a UUID, and is that number here.
pub record PublishEvent : Type 0 where
  pub id : Uuid
  pub event_type : PublishEventType
  pub model_version_id : Uuid
  pub entity_id : Uuid
  pub payload_ref : Option PayloadRef
  pub published_at : Time
  pub delivery_status : DeliveryStatus
  pub attempt_count : ℕ
  pub max_attempts : ℕ
  pub last_attempt_at : Option Time
  pub next_attempt_at : Option Time
  pub delivered_at : Option Time
  pub last_error : Option String
  pub lease_owner : Option Uuid
  pub lease_expires_at : Option Time

-- The database, and the events handed to the in-process bus. Tables that grow at the end of a
-- history (versions, trail, audit, notifications, events) have their newest row first.
pub record Db : Type 0 where
  pub capabilities : List Capability
  pub mappings : List Mapping
  pub capability_versions : List CapabilityVersion
  pub model_versions : List ModelVersion
  pub capability_locks : List CapabilityLock
  pub change_requests : List ChangeRequest
  pub approval_decisions : List ApprovalDecision
  pub change_request_audit : List ChangeRequestAuditEntry
  pub audit_entries : List AuditEntry
  pub notifications : List TaskOrNotification
  pub users : List ActorId
  pub events : List EventEnvelope
  pub publish_events : List PublishEvent
  pub next_uuid : Uuid
