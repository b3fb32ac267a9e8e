-- ===== src/Schema/Enums.antt =====
-- The enums of apps/api/prisma/schema.prisma and packages/shared/src/types, with an index for
-- each one that the services compare by `===`.
use ecm_management.Base.{ℕ, ◌≡◌, refl, Bool, true, false, ◌==◌, arith}

pub data CapabilityType : Type 0 where
  abstract leaf : CapabilityType

pub data LifecycleStatus : Type 0 where
  draft active deprecated retired : LifecycleStatus

pub data MappingState : Type 0 where
  active inactive pending : MappingState

pub data ChangeRequestStatus : Type 0 where
  draft submitted pending_approval approved executing completed rejected cancelled :
      ChangeRequestStatus

pub data ChangeRequestType : Type 0 where
  create update delete reparent promote demote merge retire : ChangeRequestType

pub data ApprovalDecisionOutcome : Type 0 where
  approved rejected : ApprovalDecisionOutcome

pub data CapabilityVersionChangeType : Type 0 where
  create update rename reparent promote demote merge retire delete : CapabilityVersionChangeType

pub data ModelVersionState : Type 0 where
  draft published rolled_back : ModelVersionState

pub data BranchType : Type 0 where
  main what_if : BranchType

pub data AuditAction : Type 0 where
  create update delete publish rollback submit approve reject cancel lock unlock login logout
        permission_change :
      AuditAction

pub data AuditEntityType : Type 0 where
  capability change_request model_version mapping downstream_consumer user auth_event :
      AuditEntityType

pub data NotificationEventType : Type 0 where
  change_request_submitted change_request_approved change_request_rejected metadata_changed
        model_published model_rolled_back task_assigned :
      NotificationEventType

pub data DeliveryStatus : Type 0 where
  pending delivered failed retrying : DeliveryStatus

pub data UserRole : Type 0 where
  viewer contributor steward curator governance_approver integration_engineer admin : UserRole

abbrev pub status_index : ChangeRequestStatus → ℕ
status_index ChangeRequestStatus.draft = 0
status_index ChangeRequestStatus.submitted = 1
status_index ChangeRequestStatus.pending_approval = 2
status_index ChangeRequestStatus.approved = 3
status_index ChangeRequestStatus.executing = 4
status_index ChangeRequestStatus.completed = 5
status_index ChangeRequestStatus.rejected = 6
status_index ChangeRequestStatus.cancelled = 7

-- `===` on statuses.
unfoldable pub status_eq : ChangeRequestStatus → ChangeRequestStatus → Bool
status_eq s t = status_index s == status_index t

pub status_eq→eq : (s t : ChangeRequestStatus) → status_eq s t ≡ true → s ≡ t
unfolding status_eq
status_eq→eq ChangeRequestStatus.draft t h = ground arith
status_eq→eq _ t h = ground arith

pub status_eq_refl : (s : ChangeRequestStatus) → status_eq s s ≡ true
unfolding status_eq
status_eq_refl ChangeRequestStatus.draft = refl
status_eq_refl _ = refl

unfoldable pub is_leaf : CapabilityType → Bool
is_leaf CapabilityType.leaf = true
is_leaf CapabilityType.abstract = false

unfoldable pub is_retired : LifecycleStatus → Bool
is_retired LifecycleStatus.retired = true
is_retired _ = false

unfoldable pub is_draft : LifecycleStatus → Bool
is_draft LifecycleStatus.draft = true
is_draft _ = false

unfoldable pub is_active : MappingState → Bool
is_active MappingState.active = true
is_active _ = false

unfoldable pub is_inactive : MappingState → Bool
is_inactive MappingState.inactive = true
is_inactive _ = false

unfoldable pub is_pending : MappingState → Bool
is_pending MappingState.pending = true
is_pending _ = false

unfoldable pub is_approved : ApprovalDecisionOutcome → Bool
is_approved ApprovalDecisionOutcome.approved = true
is_approved ApprovalDecisionOutcome.rejected = false
