-- ===== src/Examples.antt =====
-- A run of the change-request service on a small model: REPARENT of capability 3 under capability 2,
-- from its creation to its execution, and two runs that end early.
use ecm_management.Base.{
  ◌≡◌, refl, sym, subst, Bool-cases, ==→eq, inl, inr, ◌≢◌, ◌⊎◌, true, false, Option, none, some,
  List, [], ◌∷◌, Memᴰ, arith, if◌then◌else◌, ◌==◌, find_first, select, update_many, delete_many,
  count, elem, IsDistinct, String,
}
use ecm_management.Schema.{
  Uuid, Time, CapabilityType, LifecycleStatus, ChangeRequestStatus, ChangeRequestType,
  ApprovalDecisionOutcome, ApprovalDecision, ImpactText, ImpactSeverity, status_eq, is_approved,
  is_retired, Capability, object, ChangeRequest, capability_locked, circular_reference,
  EventEnvelope, Db, Result, ok, err,
}
use ecm_management.Structural.Hierarchy.{
  find_capability, parent_of, walk_up, assert_not_descendant, out_of_fuel,
}
use ecm_management.Structural.Hierarchy.Walk.{Avoids, Meets, assert_not_descendant-ends}
use ecm_management.Structural.Hierarchy.Forest.{
  Height, root, child, IsForest, Relinks-IsForest, assert_not_descendant-decides,
}
use ecm_management.Structural.History.{elem_text}
use ecm_management.Structural.Operations.{apply_reparent}
use ecm_management.Structural.Operations.Reparenting.{reparent_decides}
use ecm_management.Structural.Merge.{
  apply_merge, merge_into, missing, find_capabilities, ids, assert_no_source_above, finish_merge,
}
use ecm_management.Structural.Merge.Merging.{merge-IsForest}
use ecm_management.ChangeRequest.Apply.{dispatch_op}
use ecm_management.Workflow.Frames.{IsFramed, dispatch_op-IsFramed}
use ecm_management.Impact.{
  analyse, is_destructive, summarise, newest_first, group_by_system, compute_severity,
}
use ecm_management.ChangeRequest.Store.{
  Detail, find_request, decisions_of, find_one, decision_by, set_status, guarded_update,
  append_trail, record_audit, status_to_audit_action, notification_config, send_notification,
  notify_cr_recipient, commit, check_then,
}
use ecm_management.ChangeRequest.Transitions.{
  is_terminal, valid_transitions, includes, assert_valid_transition, trail_entry, transition_tx,
  apply_transition, CreateChangeRequestDto, new_request, create, create_row, log_creation, submit,
  cancel, impact_gate, lacks_plan, lacks_summary, fill_summary, computed_summary, request_approval,
}
use ecm_management.ChangeRequest.Decisions.{
  ApprovalDecisionDto, check_sequence, no_duplicate, check_decision, decision_effect, new_decision,
  insert_decision, move_status, status_after, decision_tx, announce, submit_decision,
}
use ecm_management.ChangeRequest.Execution.{
  find_lock, new_lock, create_locks, guarded, acquire_locks, keys_exist, execute_tx, execute,
}
use ecm_management.Workflow.{
  Call, submits, requests_approval, executes, decides, cancels, run_call, System, read, creates,
  logs, handles, Reach, start, then_step,
}
use ecm_management.Workflow.Views.{RequestView, view, holder}
use ecm_management.Workflow.Moves.{Move, view_in, holder_in, BothApproved, HasRejection}
use ecm_management.Workflow.Invariant.Reads.{IsSuccessor}
use ecm_management.Workflow.Invariant.Locking.{is_executing}
use ecm_management.Workflow.Invariant.Trail.{at, replay, extend}
use ecm_management.Workflow.Claims.{Reach-Inv, run_call-Move}
use ecm_management.Workflow.Safety.{
  executing_exclusive, execution_holds_locks, lock_tells_execution, approved_by_both,
  rejected_by_one, trail_tells_status, requests_follow_map, terminal_absorbs, execute_repeated,
}
use ecm_management.Base.{not, ◌&&◌}
use ecm_management.Schema.{MappingState, is_retired, is_active, is_draft}
use ecm_management.Structural.Hierarchy.{count_children, has_parent}
use ecm_management.Structural.Retire.{apply_retire, has_parent_in}
use ecm_management.Structural.Retire.Retiring.{retire-settles}
use ecm_management.Structural.Operations.{apply_delete, delete_one}
use ecm_management.Structural.Operations.Deleting.{dangles, delete-settles}
use ecm_management.Schema.{Snapshot, text, uuid}
use ecm_management.Structural.History.{entry, entry_eq, compute_changed_fields}
use ecm_management.Structural.History.Delta.{rebuilt, compute_changed_fields-rebuilds}
use ecm_management.Workflow.Progress.{execute-free}
use ecm_management.Impact.Counts.{IsConsistent, analyse-IsConsistent}

abbrev capability : Uuid → Option Uuid → CapabilityType → Capability
capability id parent type = record {
  id = id;
  unique_name = "capability";
  aliases = [];
  description = none;
  domain = none;
  type = type;
  parent_id = parent;
  lifecycle_status = LifecycleStatus.active;
  effective_from = none;
  effective_to = none;
  rationale = none;
  source_references = [];
  tags = [];
  steward_id = none;
  steward_department = none;
  name_guardrail_override = false;
  name_guardrail_override_rationale = none;
  is_erroneous = false;
  erroneous_reason = none;
  branch_origin_id = none;
  created_at = 0;
}

abbrev three_capabilities : List Capability
three_capabilities =
    capability 1 none CapabilityType.abstract
    ∷ capability 2 (some 1) CapabilityType.abstract
    ∷ capability 3 (some 1) CapabilityType.leaf
    ∷ []

abbrev empty_workflow : Db
empty_workflow = record {
  capabilities = three_capabilities;
  mappings = [];
  capability_versions = [];
  model_versions = [];
  capability_locks = [];
  change_requests = [];
  approval_decisions = [];
  change_request_audit = [];
  audit_entries = [];
  notifications = [];
  users = "ada" ∷ [];
  events = [];
  publish_events = [];
  next_uuid = 10;
}

abbrev reparent_dto : CreateChangeRequestDto
reparent_dto = record {
  type = ChangeRequestType.reparent;
  rationale = "tidy up";
  affected_capability_ids = 3 ∷ [];
  operation_payload = some (object (some 2) none none);
  downstream_plan = none;
  impact_summary = none;
}

abbrev approves : ApprovalDecisionDto
approves = record { decision = ApprovalDecisionOutcome.approved; comment = none }

abbrev rejects : ApprovalDecisionDto
rejects = record { decision = ApprovalDecisionOutcome.rejected; comment = none }

abbrev approval_of : String → ApprovalDecisionOutcome → Time → ApprovalDecision
approval_of role outcome now = record {
  change_request_id = 10;
  approver_role = role;
  approver_id = "ada";
  decision = outcome;
  comment = none;
  decided_at = now;
}

-- The request as a handler reads it.
abbrev reading : ChangeRequestStatus → Option ImpactText → List ApprovalDecision → Detail
reading status summary decisions = record {
  request = record {
    id = 10;
    type = ChangeRequestType.reparent;
    status = status;
    requested_by = "ada";
    rationale = some "tidy up";
    affected_capability_ids = 3 ∷ [];
    operation_payload = some (object (some 2) none none);
    impact_summary = summary;
    downstream_plan = none;
    created_at = 100;
  };
  decisions = decisions;
}

abbrev no_impact : Option ImpactText
no_impact = some (ImpactText.computed ImpactSeverity.low 0 0 0)

abbrev as_draft : Detail
as_draft = reading ChangeRequestStatus.draft none []

abbrev as_submitted : Detail
as_submitted = reading ChangeRequestStatus.submitted none []

abbrev as_pending : Detail
as_pending = reading ChangeRequestStatus.pending_approval no_impact []

abbrev as_half_approved : Detail
as_half_approved =
    reading ChangeRequestStatus.pending_approval no_impact
      (approval_of "curator" ApprovalDecisionOutcome.approved 103 ∷ [])

abbrev as_approved : Detail
as_approved = reading ChangeRequestStatus.approved no_impact (
    approval_of "governance-board" ApprovalDecisionOutcome.approved 104
    ∷ approval_of "curator" ApprovalDecisionOutcome.approved 103
    ∷ [])

abbrev handled : Call → Detail → Time → System → System
handled call s now sys = record sys { db = (run_call call s "ada" now sys.db).0 }

abbrev holding : Detail → System → System
holding s sys = record sys { reads = s ∷ sys.reads }

abbrev fresh : System
fresh = record { db = empty_workflow; reads = []; creations = [] }

abbrev created : System
created = holding as_draft (record fresh { db = create reparent_dto "ada" 100 empty_workflow })

abbrev submitted : System
submitted = holding as_submitted (handled submits as_draft 101 created)

abbrev pending : System
pending = holding as_pending (handled requests_approval as_submitted 102 submitted)

abbrev half_approved : System
half_approved =
    holding as_half_approved (handled (decides approves "curator") as_pending 103 pending)

abbrev approved : System
approved =
    holding as_approved
      (handled (decides approves "governance-board") as_half_approved 104 half_approved)

abbrev executing : System
executing = handled executes as_approved 105 approved

-- The draft is cancelled, or the curator turns it down.
abbrev cancelled : System
cancelled = handled (cancels none) as_draft 101 created

abbrev rejected : System
rejected = handled (decides rejects "curator") as_pending 103 pending

created_read : find_one 10 created.db ≡ ok as_draft
unfolding acquire_locks keys_exist find_capability analyse announce append_trail apply_transition
    assert_valid_transition cancel check_decision check_sequence check_then commit compute_severity
    computed_summary count create create_row log_creation create_locks decision_by decision_effect
    decision_tx decisions_of elem elem_text execute execute_tx extend fill_summary find_first
    find_lock find_one find_request group_by_system guarded guarded_update holder impact_gate
    includes insert_decision is_approved is_destructive is_terminal lacks_plan lacks_summary
    move_status new_decision new_lock new_request newest_first no_duplicate notification_config
    notify_cr_recipient record_audit replay request_approval run_call select send_notification
    set_status status_after status_eq status_to_audit_action submit submit_decision summarise
    trail_entry transition_tx update_many valid_transitions view
created_read = refl

created-Reach : Reach created
unfolding create create_row log_creation append_trail record_audit new_request delete_many select
created-Reach =
    then_step
      (then_step
        (then_step
          (start (record {
            no_requests = refl;
            no_decisions = refl;
            no_locks = refl;
            no_trail = refl;
            no_reads = refl;
            no_creations = refl;
          }))
          (creates reparent_dto "ada" 100))
        (logs (new_request reparent_dto "ada" 10 100) 100 (Memᴰ.head refl)))
      (read 10 as_draft created_read)

submitted_read : find_one 10 submitted.db ≡ ok as_submitted
unfolding acquire_locks keys_exist find_capability analyse announce append_trail apply_transition
    assert_valid_transition cancel check_decision check_sequence check_then commit compute_severity
    computed_summary count create create_row log_creation create_locks decision_by decision_effect
    decision_tx decisions_of elem elem_text execute execute_tx extend fill_summary find_first
    find_lock find_one find_request group_by_system guarded guarded_update holder impact_gate
    includes insert_decision is_approved is_destructive is_terminal lacks_plan lacks_summary
    move_status new_decision new_lock new_request newest_first no_duplicate notification_config
    notify_cr_recipient record_audit replay request_approval run_call select send_notification
    set_status status_after status_eq status_to_audit_action submit submit_decision summarise
    trail_entry transition_tx update_many valid_transitions view
submitted_read = refl

submitted-Reach : Reach submitted
submitted-Reach =
    then_step (then_step created-Reach (handles submits as_draft "ada" 101 (Memᴰ.head refl)))
      (read 10 as_submitted submitted_read)

pending_read : find_one 10 pending.db ≡ ok as_pending
unfolding acquire_locks keys_exist find_capability analyse announce append_trail apply_transition
    assert_valid_transition cancel check_decision check_sequence check_then commit compute_severity
    computed_summary count create create_row log_creation create_locks decision_by decision_effect
    decision_tx decisions_of elem elem_text execute execute_tx extend fill_summary find_first
    find_lock find_one find_request group_by_system guarded guarded_update holder impact_gate
    includes insert_decision is_approved is_destructive is_terminal lacks_plan lacks_summary
    move_status new_decision new_lock new_request newest_first no_duplicate notification_config
    notify_cr_recipient record_audit replay request_approval run_call select send_notification
    set_status status_after status_eq status_to_audit_action submit submit_decision summarise
    trail_entry transition_tx update_many valid_transitions view
pending_read = refl

pending-Reach : Reach pending
pending-Reach =
    then_step
      (then_step submitted-Reach
        (handles requests_approval as_submitted "ada" 102 (Memᴰ.head refl)))
      (read 10 as_pending pending_read)

half_approved_read : find_one 10 half_approved.db ≡ ok as_half_approved
unfolding acquire_locks keys_exist find_capability analyse announce append_trail apply_transition
    assert_valid_transition cancel check_decision check_sequence check_then commit compute_severity
    computed_summary count create create_row log_creation create_locks decision_by decision_effect
    decision_tx decisions_of elem elem_text execute execute_tx extend fill_summary find_first
    find_lock find_one find_request group_by_system guarded guarded_update holder impact_gate
    includes insert_decision is_approved is_destructive is_terminal lacks_plan lacks_summary
    move_status new_decision new_lock new_request newest_first no_duplicate notification_config
    notify_cr_recipient record_audit replay request_approval run_call select send_notification
    set_status status_after status_eq status_to_audit_action submit submit_decision summarise
    trail_entry transition_tx update_many valid_transitions view
half_approved_read = refl

half_approved-Reach : Reach half_approved
half_approved-Reach =
    then_step
      (then_step pending-Reach
        (handles (decides approves "curator") as_pending "ada" 103 (Memᴰ.head refl)))
      (read 10 as_half_approved half_approved_read)

approved_read : find_one 10 approved.db ≡ ok as_approved
unfolding acquire_locks keys_exist find_capability analyse announce append_trail apply_transition
    assert_valid_transition cancel check_decision check_sequence check_then commit compute_severity
    computed_summary count create create_row log_creation create_locks decision_by decision_effect
    decision_tx decisions_of elem elem_text execute execute_tx extend fill_summary find_first
    find_lock find_one find_request group_by_system guarded guarded_update holder impact_gate
    includes insert_decision is_approved is_destructive is_terminal lacks_plan lacks_summary
    move_status new_decision new_lock new_request newest_first no_duplicate notification_config
    notify_cr_recipient record_audit replay request_approval run_call select send_notification
    set_status status_after status_eq status_to_audit_action submit submit_decision summarise
    trail_entry transition_tx update_many valid_transitions view
approved_read = refl

approved-Reach : Reach approved
approved-Reach =
    then_step
      (then_step half_approved-Reach
        (handles (decides approves "governance-board") as_half_approved "ada" 104 (Memᴰ.head refl)))
      (read 10 as_approved approved_read)

executing-Reach : Reach executing
executing-Reach = then_step approved-Reach (handles executes as_approved "ada" 105 (Memᴰ.head refl))

cancelled-Reach : Reach cancelled
cancelled-Reach =
    then_step created-Reach (handles (cancels none) as_draft "ada" 101 (Memᴰ.head refl))

rejected-Reach : Reach rejected
rejected-Reach =
    then_step pending-Reach
      (handles (decides rejects "curator") as_pending "ada" 103 (Memᴰ.head refl))

abbrev seen_as : ChangeRequestStatus → RequestView
seen_as status = record { status = status; type = ChangeRequestType.reparent; affected = 3 ∷ [] }

executing_seen : view_in 10 executing.db ≡ some (seen_as ChangeRequestStatus.executing)
unfolding acquire_locks keys_exist find_capability analyse announce append_trail apply_transition
    assert_valid_transition cancel check_decision check_sequence check_then commit compute_severity
    computed_summary count create create_row log_creation create_locks decision_by decision_effect
    decision_tx decisions_of elem elem_text execute execute_tx extend fill_summary find_first
    find_lock find_one find_request group_by_system guarded guarded_update holder impact_gate
    includes insert_decision is_approved is_destructive is_terminal lacks_plan lacks_summary
    move_status new_decision new_lock new_request newest_first no_duplicate notification_config
    notify_cr_recipient record_audit replay request_approval run_call select send_notification
    set_status status_after status_eq status_to_audit_action submit submit_decision summarise
    trail_entry transition_tx update_many valid_transitions view
executing_seen = refl

cancelled_seen : view_in 10 cancelled.db ≡ some (seen_as ChangeRequestStatus.cancelled)
unfolding acquire_locks keys_exist find_capability analyse announce append_trail apply_transition
    assert_valid_transition cancel check_decision check_sequence check_then commit compute_severity
    computed_summary count create create_row log_creation create_locks decision_by decision_effect
    decision_tx decisions_of elem elem_text execute execute_tx extend fill_summary find_first
    find_lock find_one find_request group_by_system guarded guarded_update holder impact_gate
    includes insert_decision is_approved is_destructive is_terminal lacks_plan lacks_summary
    move_status new_decision new_lock new_request newest_first no_duplicate notification_config
    notify_cr_recipient record_audit replay request_approval run_call select send_notification
    set_status status_after status_eq status_to_audit_action submit submit_decision summarise
    trail_entry transition_tx update_many valid_transitions view
cancelled_seen = refl

rejected_seen : view_in 10 rejected.db ≡ some (seen_as ChangeRequestStatus.rejected)
unfolding acquire_locks keys_exist find_capability analyse announce append_trail apply_transition
    assert_valid_transition cancel check_decision check_sequence check_then commit compute_severity
    computed_summary count create create_row log_creation create_locks decision_by decision_effect
    decision_tx decisions_of elem elem_text execute execute_tx extend fill_summary find_first
    find_lock find_one find_request group_by_system guarded guarded_update holder impact_gate
    includes insert_decision is_approved is_destructive is_terminal lacks_plan lacks_summary
    move_status new_decision new_lock new_request newest_first no_duplicate notification_config
    notify_cr_recipient record_audit replay request_approval run_call select send_notification
    set_status status_after status_eq status_to_audit_action submit submit_decision summarise
    trail_entry transition_tx update_many valid_transitions view
rejected_seen = refl

created_seen : view_in 10 created.db ≡ some (seen_as ChangeRequestStatus.draft)
unfolding acquire_locks keys_exist find_capability analyse announce append_trail apply_transition
    assert_valid_transition cancel check_decision check_sequence check_then commit compute_severity
    computed_summary count create create_row log_creation create_locks decision_by decision_effect
    decision_tx decisions_of elem elem_text execute execute_tx extend fill_summary find_first
    find_lock find_one find_request group_by_system guarded guarded_update holder impact_gate
    includes insert_decision is_approved is_destructive is_terminal lacks_plan lacks_summary
    move_status new_decision new_lock new_request newest_first no_duplicate notification_config
    notify_cr_recipient record_audit replay request_approval run_call select send_notification
    set_status status_after status_eq status_to_audit_action submit submit_decision summarise
    trail_entry transition_tx update_many valid_transitions view
created_seen = refl

executing_holds : holder_in 3 executing.db ≡ some 10
unfolding acquire_locks keys_exist find_capability analyse announce append_trail apply_transition
    assert_valid_transition cancel check_decision check_sequence check_then commit compute_severity
    computed_summary count create create_row log_creation create_locks decision_by decision_effect
    decision_tx decisions_of elem elem_text execute execute_tx extend fill_summary find_first
    find_lock find_one find_request group_by_system guarded guarded_update holder impact_gate
    includes insert_decision is_approved is_destructive is_terminal lacks_plan lacks_summary
    move_status new_decision new_lock new_request newest_first no_duplicate notification_config
    notify_cr_recipient record_audit replay request_approval run_call select send_notification
    set_status status_after status_eq status_to_audit_action submit submit_decision summarise
    trail_entry transition_tx update_many valid_transitions view
executing_holds = refl

affects_three : elem 3 (3 ∷ []) ≡ true
unfolding acquire_locks keys_exist find_capability analyse announce append_trail apply_transition
    assert_valid_transition cancel check_decision check_sequence check_then commit compute_severity
    computed_summary count create create_row log_creation create_locks decision_by decision_effect
    decision_tx decisions_of elem elem_text execute execute_tx extend fill_summary find_first
    find_lock find_one find_request group_by_system guarded guarded_update holder impact_gate
    includes insert_decision is_approved is_destructive is_terminal lacks_plan lacks_summary
    move_status new_decision new_lock new_request newest_first no_duplicate notification_config
    notify_cr_recipient record_audit replay request_approval run_call select send_notification
    set_status status_after status_eq status_to_audit_action submit submit_decision summarise
    trail_entry transition_tx update_many valid_transitions view
affects_three = refl

abbrev the_request : Uuid
the_request = 10

executing_exclusive_example : the_request ≡ the_request
executing_exclusive_example =
    executing_exclusive 3 the_request the_request (seen_as ChangeRequestStatus.executing)
      (seen_as ChangeRequestStatus.executing) executing-Reach executing_seen executing_seen refl
      refl affects_three affects_three

execution_holds_locks_example : holder_in 3 executing.db ≡ some 10
execution_holds_locks_example =
    execution_holds_locks 3 10 (seen_as ChangeRequestStatus.executing) executing-Reach
      executing_seen refl affects_three

lock_tells_execution_example :
    (v : RequestView) × (view_in 10 executing.db ≡ some v)
    × (is_executing v.status ≡ true)
    × (elem 3 v.affected ≡ true)
lock_tells_execution_example = lock_tells_execution 3 10 executing-Reach executing_holds

approved_by_both_example : BothApproved 10 executing.db
approved_by_both_example =
    approved_by_both 10 (seen_as ChangeRequestStatus.executing) executing-Reach executing_seen refl

rejected_by_one_example : HasRejection 10 rejected.db
rejected_by_one_example =
    rejected_by_one 10 (seen_as ChangeRequestStatus.rejected) rejected-Reach rejected_seen refl

trail_tells_status_example :
    replay 10 executing.db.change_request_audit ≡ at ChangeRequestStatus.executing
trail_tells_status_example =
    trail_tells_status 10 (seen_as ChangeRequestStatus.executing) executing-Reach executing_seen

requests_follow_map_example :
    (v' : RequestView) × (view_in 10 (handled submits as_draft 101 created).db ≡ some v')
    × IsSuccessor (seen_as ChangeRequestStatus.draft) v'
requests_follow_map_example =
    requests_follow_map 10 (seen_as ChangeRequestStatus.draft) created-Reach
      (handles submits as_draft "ada" 101 (Memᴰ.head refl)) created_seen

terminal_absorbs_example :
    (v' : RequestView) × (view_in 10 (handled submits as_draft 102 cancelled).db ≡ some v')
    × (v'.status ≡ ChangeRequestStatus.cancelled)
terminal_absorbs_example =
    terminal_absorbs 10 (seen_as ChangeRequestStatus.cancelled) cancelled-Reach
      (handles submits as_draft "ada" 102 (Memᴰ.head refl)) cancelled_seen
      (unfold is_terminal in refl)

run_call-Move_example : Move approved.db executing.db
run_call-Move_example =
    run_call-Move executes as_approved "ada" 105 approved.db
      ((Reach-Inv approved-Reach).held as_approved (Memᴰ.head refl))
      (Reach-Inv approved-Reach).locked.one_each

-- A request that names capability 3 twice, approved.
abbrev named_twice : Detail
named_twice = record {
  request = record as_approved.request { affected_capability_ids = 3 ∷ 3 ∷ [] };
  decisions = [];
}

abbrev with_named_twice : Db
with_named_twice = record empty_workflow { change_requests = named_twice.request ∷ [] }

twice_found :
    guarded_update 10 ChangeRequestStatus.approved ChangeRequestStatus.executing
      with_named_twice.change_requests
    ≡ some (record named_twice.request { status = ChangeRequestStatus.executing } ∷ [])
unfolding guarded_update find_request find_first status_eq set_status update_many
twice_found = refl

twice_repeated : ¬ IsDistinct (3 ∷ 3 ∷ [])
unfolding elem
twice_repeated (e, rest) = cc

execute_repeated_example :
    execute named_twice "ada" 105 with_named_twice
    ≡ (with_named_twice, some (capability_locked (3 ∷ 3 ∷ [])))
execute_repeated_example =
    execute_repeated named_twice "ada" 105 with_named_twice
      (record named_twice.request { status = ChangeRequestStatus.executing } ∷ []) refl twice_found
      twice_repeated

only_under_one :
    (c : Uuid)
    → (parent_of c three_capabilities ≡ parent_of c []) ⊎ (parent_of c three_capabilities ≡ some 1)
unfolding parent_of find_first
only_under_one c = ground arith

one_is_root : parent_of 1 three_capabilities ≡ none
unfolding parent_of find_first
one_is_root = refl

no_parent : (c : Uuid) → parent_of c [] ≡ none
unfolding parent_of find_first
no_parent c = refl

three-IsForest : IsForest three_capabilities
three-IsForest =
    Relinks-IsForest {target = some 1} only_under_one
      (child 1 (subst (λ o. Height three_capabilities 0 o) (sym one_is_root) root))
      (λ c. (1, child c (subst (λ o. Height [] 0 o) (sym (no_parent c)) root)))

finds_three :
    find_capability 3 three_capabilities ≡ some (capability 3 (some 1) CapabilityType.leaf)
unfolding find_capability find_first
finds_three = refl

finds_two :
    find_capability 2 three_capabilities ≡ some (capability 2 (some 1) CapabilityType.abstract)
unfolding find_capability find_first
finds_two = refl

reparent_decides_example :
    ((done : EventEnvelope × Db) × (apply_reparent 10 3
          (some (object (some 2) none none))
          "ada"
          106
          empty_workflow
        ≡ ok done)
      × ((c : Uuid)
          → parent_of c done.1.capabilities
            ≡ (if c == 3 then some 2 else parent_of c three_capabilities))
      × IsForest done.1.capabilities)
    ⊎ ((apply_reparent 10 3 (some (object (some 2) none none)) "ada" 106 empty_workflow
          ≡ err circular_reference)
        × Meets 3 three_capabilities (some 2))
reparent_decides_example =
    reparent_decides 10 3 2 none none "ada" 106 empty_workflow
      (capability 3 (some 1) CapabilityType.leaf) (capability 2 (some 1) CapabilityType.abstract)
      three-IsForest finds_three finds_two (λ e. omega (arith, e))

assert_not_descendant-decides_example :
    ((assert_not_descendant 1 3 three_capabilities ≡ ok tt) × Avoids 1 three_capabilities (some 3))
    ⊎ ((assert_not_descendant 1 3 three_capabilities ≡ err circular_reference)
        × Meets 1 three_capabilities (some 3))
assert_not_descendant-decides_example =
    assert_not_descendant-decides 1 3 three_capabilities three-IsForest

-- The run of MERGE of 3 into 2.
abbrev merged : Result (EventEnvelope × Db)
merged = apply_merge 10 (2 ∷ 3 ∷ []) (some (object none (some 2) none)) "ada" 106 empty_workflow

abbrev merge_request : ChangeRequest
merge_request = record as_approved.request {
  type = ChangeRequestType.merge;
  affected_capability_ids = 2 ∷ 3 ∷ [];
  operation_payload = some (object none (some 2) none);
}

merge_runs : (done : EventEnvelope × Db) × (merged ≡ ok done)
unfolding apply_merge merge_into missing find_capabilities select elem ids find_capability
    find_first assert_no_source_above assert_not_descendant walk_up parent_of is_retired
    finish_merge
merge_runs = (_, refl)

merge_dispatched : dispatch_op merge_request "ada" 106 empty_workflow ≡ ok merge_runs.0
unfolding dispatch_op
merge_dispatched = merge_runs.1

merge-IsForest_example : IsForest merge_runs.0.1.capabilities
merge-IsForest_example =
    merge-IsForest 10 (2 ∷ 3 ∷ []) (some (object none (some 2) none)) "ada" 106 empty_workflow
      merge_runs.0 three-IsForest merge_runs.1

dispatch_op-IsFramed_example : IsFramed (2 ∷ 3 ∷ []) empty_workflow merge_runs.0.1
dispatch_op-IsFramed_example =
    dispatch_op-IsFramed merge_request "ada" 106 empty_workflow merge_dispatched

assert_not_descendant-ends_example : walk_up 4 1 (some 3) [] three_capabilities ≢ out_of_fuel
assert_not_descendant-ends_example = assert_not_descendant-ends 1 3 three_capabilities

-- RETIRE of 3, with its mappings.
abbrev with_mapping : Db
with_mapping = record empty_workflow {
  mappings =
      record {
        id = 20;
        mapping_type = "REALIZES";
        system_id = "billing";
        capability_id = 3;
        state = MappingState.active;
        attributes = none;
        created_at = 50;
      }
      ∷ [];
}

retire_runs :
    (done : EventEnvelope × Db) × (apply_retire 10 (3 ∷ []) none "ada" 106 with_mapping ≡ ok done)
unfolding apply_retire missing find_capabilities ids select elem is_retired count has_parent_in
retire_runs = (_, refl)

retire-settles_example :
    (count
        (λ c. elem c.id (3 ∷ []) && not (is_retired c.lifecycle_status))
        retire_runs.0.1.capabilities
      ≡ 0)
    × (count (λ m. elem m.capability_id (3 ∷ []) && is_active m.state) retire_runs.0.1.mappings ≡ 0)
retire-settles_example =
    retire-settles 10 (3 ∷ []) none "ada" 106 with_mapping retire_runs.0 retire_runs.1

-- DELETE of 3, flagged as erroneous.
abbrev with_erroneous : Db
with_erroneous = record with_mapping {
  capabilities =
      capability 1 none CapabilityType.abstract
      ∷ record (capability 3 (some 1) CapabilityType.leaf) { is_erroneous = true }
      ∷ [];
}

no_link_dangles : count (dangles with_erroneous.capabilities) with_erroneous.capabilities ≡ 0
unfolding count dangles find_capability find_first
no_link_dangles = refl

delete_runs :
    (done : EventEnvelope × Db) × (apply_delete 10 (3 ∷ []) "ada" 106 with_erroneous ≡ ok done)
unfolding apply_delete delete_one find_capability find_first is_draft count_children count
    has_parent
delete_runs = (_, refl)

delete-settles_example :
    (find_capability 3 delete_runs.0.1.capabilities ≡ none)
    × (count (λ m. m.capability_id == 3) delete_runs.0.1.mappings ≡ 0)
    × (count (dangles delete_runs.0.1.capabilities) delete_runs.0.1.capabilities ≡ 0)
delete-settles_example =
    delete-settles 10 3 "ada" 106 with_erroneous delete_runs.0 no_link_dangles delete_runs.1

analyse-IsConsistent_example :
    IsConsistent (analyse (3 ∷ []) (some ChangeRequestType.retire) with_mapping)
analyse-IsConsistent_example =
    analyse-IsConsistent (3 ∷ []) (some ChangeRequestType.retire) with_mapping

-- The same request with each capability once, and no lock in the table.
abbrev with_approved : Db
with_approved = record empty_workflow { change_requests = as_approved.request ∷ [] }

approved_found :
    guarded_update 10 ChangeRequestStatus.approved ChangeRequestStatus.executing
      with_approved.change_requests
    ≡ some (record as_approved.request { status = ChangeRequestStatus.executing } ∷ [])
unfolding guarded_update find_request find_first status_eq set_status update_many
approved_found = refl

three_once : IsDistinct (3 ∷ [])
unfolding elem
three_once = (refl, tt)

none_locked : (c : Uuid) → elem c (3 ∷ []) ≡ true → find_lock c [] ≡ none
unfolding find_lock find_first
none_locked c m = refl

found_three : find_capability 3 three_capabilities ≢ none
unfolding find_capability find_first
found_three e = ground arith

three_exists : (c : Uuid) → elem c (3 ∷ []) ≡ true → find_capability c three_capabilities ≢ none
unfolding elem
three_exists c m missing = elim (Bool-cases (3 == c)) [
  | inl hit ↦
      found_three
        (subst (λ x. find_capability x three_capabilities ≡ none) (sym (==→eq 3 c hit)) missing)
  | inr miss ↦ absurd (ground arith)
]

execute-free_example :
    ((execute as_approved "ada" 105 with_approved).1 ≡ none)
    × ((execute as_approved "ada" 105 with_approved).0.change_requests
        ≡ record as_approved.request { status = ChangeRequestStatus.executing } ∷ [])
execute-free_example =
    execute-free as_approved "ada" 105 with_approved
      (record as_approved.request { status = ChangeRequestStatus.executing } ∷ []) refl
      approved_found three_once three_exists none_locked

abbrev before_promotion : Snapshot
before_promotion = ("id", uuid 3) ∷ ("type", text "LEAF") ∷ []

abbrev after_promotion : Snapshot
after_promotion = ("id", uuid 3) ∷ ("type", text "ABSTRACT") ∷ []

compute_changed_fields-rebuilds_example :
    entry_eq
      (rebuilt "type" before_promotion
        (compute_changed_fields (some before_promotion) (some after_promotion)))
      (entry "type" after_promotion)
    ≡ true
compute_changed_fields-rebuilds_example =
    compute_changed_fields-rebuilds "type" before_promotion after_promotion
