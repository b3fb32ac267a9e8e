-- ===== src/Workflow/Moves.antt =====
-- The abstract workflow: what one step may do to the requests, the decisions, the locks and the
-- trail, and what a read that is still held says of the database.
use ecm_management.Base.{
  ◌≤◌, ◌<◌, ◌≡◌, ◌⊎◌, Bool, true, false, Option, none, some, List, ◌∷◌, String, if◌then◌else◌, ◌==◌,
  elem,
}
use ecm_management.Schema.{
  Uuid, ChangeRequestStatus, is_approved, ApprovalDecision, ChangeRequestAuditEntry, Db,
}
use ecm_management.ChangeRequest.Store.{Detail, decision_by, decisions_of}
use ecm_management.ChangeRequest.Decisions.{curator_role, governance_board_role}
use ecm_management.Workflow.Views.{RequestView, view, with_status, holder, IsOneLockEach}

abbrev pub view_in : Uuid → Db → Option RequestView
view_in id db = view id db.change_requests

abbrev pub holder_in : Uuid → Db → Option Uuid
holder_in c db = holder c db.capability_locks

abbrev pub decision_in : String → Uuid → Db → Option ApprovalDecision
decision_in role id db = decision_by role (decisions_of id db.approval_decisions)

abbrev pub CuratorDecided : Uuid → Db → Type 0
CuratorDecided id db = (d : ApprovalDecision) × (decision_in curator_role id db ≡ some d)

-- The approvals of the curator and of the governance board are both recorded.
pub record BothApproved (id : Uuid) (db : Db) : Type 0 where
  pub curator : ApprovalDecision
  pub board : ApprovalDecision
  pub by_curator : decision_in curator_role id db ≡ some curator
  pub by_board : decision_in governance_board_role id db ≡ some board
  pub curator_approves : is_approved curator.decision ≡ true
  pub board_approves : is_approved board.decision ≡ true

pub record HasRejection (id : Uuid) (db : Db) : Type 0 where
  pub role : String
  pub rejection : ApprovalDecision
  pub recorded : decision_in role id db ≡ some rejection
  pub rejects : is_approved rejection.decision ≡ false

-- One trail entry more, for this request and these statuses.
pub record IsLogged (id : Uuid) (from to : ChangeRequestStatus) (db db' : Db) : Type 0 where
  pub entry : ChangeRequestAuditEntry
  pub appended : db'.change_request_audit ≡ entry ∷ db.change_request_audit
  pub of_request : entry.change_request_id ≡ id
  pub from_old : entry.from_status ≡ some from
  pub to_new : entry.to_status ≡ some to

-- One request goes from a status to a status, and the trail says so.
pub record Change (id : Uuid) (from to : ChangeRequestStatus) (db db' : Db) : Type 0 where
  pub seen : RequestView
  pub found : view_in id db ≡ some seen
  pub was : seen.status ≡ from
  pub moved :
      (j : Uuid) → view_in j db' ≡ (if j == id then with_status to (view_in j db) else view_in j db)
  pub logged : IsLogged id from to db db'
  pub grows : db.next_uuid ≤ db'.next_uuid

pub record Same (db db' : Db) : Type 0 where
  pub same_views : (j : Uuid) → view_in j db' ≡ view_in j db
  pub same_decisions : db'.approval_decisions ≡ db.approval_decisions
  pub same_locks : db'.capability_locks ≡ db.capability_locks
  pub same_trail : db'.change_request_audit ≡ db.change_request_audit
  pub grows : db.next_uuid ≤ db'.next_uuid

-- Transitions that have no decision and no lock to do with.
abbrev pub is_plain : ChangeRequestStatus → ChangeRequestStatus → Bool
is_plain ChangeRequestStatus.draft ChangeRequestStatus.submitted = true
is_plain ChangeRequestStatus.draft ChangeRequestStatus.cancelled = true
is_plain ChangeRequestStatus.submitted ChangeRequestStatus.pending_approval = true
is_plain ChangeRequestStatus.submitted ChangeRequestStatus.cancelled = true
is_plain _ _ = false

-- What is on record once a request under approval has gone to `to`.
pub record IsDecided (id : Uuid) (to : ChangeRequestStatus) (db : Db) : Type 0 where
  pub curator_decided : CuratorDecided id db
  pub approved_by_both : to ≡ ChangeRequestStatus.approved → BothApproved id db
  pub rejected_by_one : to ≡ ChangeRequestStatus.rejected → HasRejection id db

-- The statuses that a decision leads to.
abbrev pub is_decision_status : ChangeRequestStatus → Bool
is_decision_status ChangeRequestStatus.pending_approval = true
is_decision_status ChangeRequestStatus.approved = true
is_decision_status ChangeRequestStatus.rejected = true
is_decision_status _ = false

-- The statuses that an execution ends in.
abbrev pub is_after_execution : ChangeRequestStatus → Bool
is_after_execution ChangeRequestStatus.completed = true
is_after_execution ChangeRequestStatus.approved = true
is_after_execution _ = false

-- `id` took the locks of all its capabilities, each of them free before.
pub record IsLocking (id : Uuid) (affected : List Uuid) (db db' : Db) : Type 0 where
  pub taken : (c : Uuid) → holder_in c db' ≡ (if elem c affected then some id else holder_in c db)
  pub were_free : (c : Uuid) → elem c affected ≡ true → holder_in c db ≡ none
  pub one_each : IsOneLockEach db.capability_locks → IsOneLockEach db'.capability_locks

abbrev pub unless_held_by : Uuid → Option Uuid → Option Uuid
unless_held_by id none = none
unless_held_by id (some h) = if h == id then none else some h

-- `id` gave its locks back. The lock of a capability that it deletes goes with the capability.
pub record IsReleasing (id : Uuid) (affected : List Uuid) (db db' : Db) : Type 0 where
  pub released :
      IsOneLockEach db.capability_locks
      → (c : Uuid)
      → (holder_in c db' ≡ unless_held_by id (holder_in c db))
        ⊎ ((holder_in c db' ≡ none) × (elem c affected ≡ true))
  pub one_each : IsOneLockEach db.capability_locks → IsOneLockEach db'.capability_locks

-- A request is opened under a new id, as a draft.
pub record IsOpening (id : Uuid) (db db' : Db) : Type 0 where
  pub opened : RequestView
  pub as_draft : opened.status ≡ ChangeRequestStatus.draft
  pub new_id : id ≡ db.next_uuid
  pub used_up : db.next_uuid < db'.next_uuid
  pub added : (j : Uuid) → view_in j db' ≡ (if j == id then some opened else view_in j db)
  pub same_trail : db'.change_request_audit ≡ db.change_request_audit

pub data Move (db db' : Db) : Type 0 where
  stay : Same db db' → Move db db'
  open_request :
      (id : Uuid)
      → IsOpening id db db'
      → db'.approval_decisions ≡ db.approval_decisions
      → db'.capability_locks ≡ db.capability_locks
      → Move db db'
  advance :
      (id : Uuid) (from to : ChangeRequestStatus)
      → Change id from to db db'
      → is_plain from to ≡ true
      → db'.approval_decisions ≡ db.approval_decisions
      → db'.capability_locks ≡ db.capability_locks
      → Move db db'
  decide :
      (id : Uuid) (to : ChangeRequestStatus) (d : ApprovalDecision)
      → Change id ChangeRequestStatus.pending_approval to db db'
      → is_decision_status to ≡ true
      → db'.approval_decisions ≡ d ∷ db.approval_decisions
      → d.change_request_id ≡ id
      → decision_in d.approver_role id db ≡ none
      → IsDecided id to db'
      → db'.capability_locks ≡ db.capability_locks
      → Move db db'
  lock :
      (id : Uuid)
      → (change : Change id ChangeRequestStatus.approved ChangeRequestStatus.executing db db')
      → db'.approval_decisions ≡ db.approval_decisions
      → IsLocking id change.seen.affected db db'
      → Move db db'
  release :
      (id : Uuid) (to : ChangeRequestStatus)
      → (change : Change id ChangeRequestStatus.executing to db db') → is_after_execution to ≡ true
      → db'.approval_decisions ≡ db.approval_decisions
      → IsReleasing id change.seen.affected db db'
      → Move db db'

-- What a read still says: the parts that never change, the decisions that were there, and, if the
-- request was under approval, that it still is or that the curator has decided.
pub record IsHeld (s : Detail) (db : Db) : Type 0 where
  pub row : RequestView
  pub found : view_in s.request.id db ≡ some row
  pub same_type : row.type ≡ s.request.type
  pub same_affected : row.affected ≡ s.request.affected_capability_ids
  pub decisions_kept :
      (role : String) (d : ApprovalDecision)
      → decision_by role s.decisions ≡ some d
      → decision_in role s.request.id db ≡ some d
  pub pending_until_decided :
      s.request.status ≡ ChangeRequestStatus.pending_approval
      → (row.status ≡ ChangeRequestStatus.pending_approval) ⊎ CuratorDecided s.request.id db
