-- ===== src/ChangeRequest/Transitions.antt =====
-- change-request.service.ts: the transition map, `applyTransition`, and the handlers `create`,
-- `submit`, `requestApproval` and `cancel`.
use ecm_management.Base.{
  ℕ, suc, Bool, true, false, ◌&&◌, ◌||◌, Option, none, some, List, [], ◌∷◌, String, if◌then◌else◌,
  ◌==◌, leb, ltb, str_eq, update_many,
}
use Prim.Native.Char.{code}
use ecm_management.Schema.{
  Uuid, ActorId, Time, ChangeRequestStatus, ChangeRequestType, status_eq, ChangeRequest,
  ChangeRequestAuditEntry, TrailMetadata, no_metadata, AuditAction, created_as, transition,
  ImpactText, OperationPayload, Db, invalid_state_transition, downstream_plan_required, Result, ok,
  err,
}
use ecm_management.Impact.{ImpactSummaryData, analyse, is_destructive}
use ecm_management.ChangeRequest.Store.{
  Detail, Outcome, guarded_update, current_status, append_trail, record_audit,
  status_to_audit_action, notify_cr_recipient, commit, check_then,
}

-- TERMINAL_STATUSES
unfoldable pub is_terminal : ChangeRequestStatus → Bool
is_terminal ChangeRequestStatus.completed = true
is_terminal ChangeRequestStatus.rejected = true
is_terminal ChangeRequestStatus.cancelled = true
is_terminal _ = false

-- VALID_TRANSITIONS; a status that is no key has none.
unfoldable pub valid_transitions : ChangeRequestStatus → List ChangeRequestStatus
valid_transitions ChangeRequestStatus.draft =
    ChangeRequestStatus.submitted ∷ ChangeRequestStatus.cancelled ∷ []
valid_transitions ChangeRequestStatus.submitted =
    ChangeRequestStatus.pending_approval ∷ ChangeRequestStatus.cancelled ∷ []
valid_transitions ChangeRequestStatus.pending_approval =
    ChangeRequestStatus.approved ∷ ChangeRequestStatus.rejected ∷ []
valid_transitions ChangeRequestStatus.approved = ChangeRequestStatus.executing ∷ []
valid_transitions ChangeRequestStatus.executing =
    ChangeRequestStatus.completed ∷ ChangeRequestStatus.approved ∷ []
valid_transitions _ = []

unfoldable pub includes : ChangeRequestStatus → List ChangeRequestStatus → Bool
unfolding status_eq
includes s [] = false
includes s (t ∷ ts) = status_eq t s || includes s ts

unfoldable pub assert_valid_transition :
    ChangeRequestStatus → ChangeRequestStatus → String → Result (Unit {0})
unfolding is_terminal valid_transitions includes
assert_valid_transition from to action =
    if is_terminal from
    then err (invalid_state_transition from action)
    else if includes to (valid_transitions from)
    then ok tt
    else err (invalid_state_transition from action)

unfoldable pub trail_entry :
    Uuid
    → ActorId
    → String
    → ChangeRequestStatus
    → ChangeRequestStatus
    → Option String
    → TrailMetadata
    → Time
    → ChangeRequestAuditEntry
trail_entry id actor_id event_type from to comment metadata now = record {
  change_request_id = id;
  actor_id = actor_id;
  event_type = event_type;
  from_status = some from;
  to_status = some to;
  comment = comment;
  metadata = metadata;
  created_at = now;
}

-- The transaction of `applyTransition`.
unfoldable pub transition_tx :
    Uuid
    → ChangeRequestStatus
    → ChangeRequestStatus
    → ActorId
    → String
    → Option String
    → Time
    → Db
    → Result Db
unfolding trail_entry append_trail
transition_tx id from to actor_id event_type comment now db =
    elim (guarded_update id from to db.change_requests) [
      | none ↦ err (invalid_state_transition (current_status id from db.change_requests) event_type)
      | some requests ↦ ok (
          append_trail (trail_entry id actor_id event_type from to comment no_metadata now)
            (record db { change_requests = requests }))
    ]

unfoldable pub apply_transition :
    Detail → ChangeRequestStatus → ActorId → String → Option String → Time → Db → Outcome
unfolding transition_tx commit
apply_transition s to actor_id event_type comment now db =
    commit db
      (λ db'. notify_cr_recipient to s.request.id s.request.requested_by (
        record_audit s.request.id (status_to_audit_action to) actor_id
          (transition s.request.status to event_type) now db'))
      (transition_tx s.request.id s.request.status to actor_id event_type comment now db)

-- The body of a request for `create`, as the controller validates it.
pub record CreateChangeRequestDto : Type 0 where
  pub type : ChangeRequestType
  pub rationale : String
  pub affected_capability_ids : List Uuid
  pub operation_payload : Option OperationPayload
  pub downstream_plan : Option String
  pub impact_summary : Option ImpactText

unfoldable pub new_request : CreateChangeRequestDto → ActorId → Uuid → Time → ChangeRequest
new_request dto requested_by id now = record {
  id = id;
  type = dto.type;
  status = ChangeRequestStatus.draft;
  requested_by = requested_by;
  rationale = some dto.rationale;
  affected_capability_ids = dto.affected_capability_ids;
  operation_payload = dto.operation_payload;
  impact_summary = dto.impact_summary;
  downstream_plan = dto.downstream_plan;
  created_at = now;
}

-- The first write of `create`: the row.
unfoldable pub create_row : CreateChangeRequestDto → ActorId → Time → Db → Db
unfolding new_request
create_row dto requested_by now db = record db {
  change_requests = new_request dto requested_by db.next_uuid now ∷ db.change_requests;
  next_uuid = suc db.next_uuid;
}

-- The rest of `create`, outside any transaction: the trail entry (`appendAudit`) and the audit.
unfoldable pub log_creation : ChangeRequest → Time → Db → Db
unfolding append_trail record_audit
log_creation r now db =
    record_audit r.id AuditAction.create r.requested_by (created_as r.type r.status r.requested_by)
      now
      (append_trail
        (record {
          change_request_id = r.id;
          actor_id = r.requested_by;
          event_type = "CREATED";
          from_status = none;
          to_status = some ChangeRequestStatus.draft;
          comment = none;
          metadata = no_metadata;
          created_at = now;
        })
        db)

-- The whole handler, when nothing comes between its writes.
unfoldable pub create : CreateChangeRequestDto → ActorId → Time → Db → Db
unfolding new_request
create dto requested_by now db =
    log_creation (new_request dto requested_by db.next_uuid now) now
      (create_row dto requested_by now db)

unfoldable pub submit : Detail → ActorId → Time → Db → Outcome
submit s actor_id now db =
    check_then db (assert_valid_transition s.request.status ChangeRequestStatus.submitted "submit")
      (apply_transition s ChangeRequestStatus.submitted actor_id "SUBMITTED" none now db)

unfoldable pub cancel : Detail → ActorId → Option String → Time → Db → Outcome
cancel s actor_id comment now db =
    check_then db (assert_valid_transition s.request.status ChangeRequestStatus.cancelled "cancel")
      (apply_transition s ChangeRequestStatus.cancelled actor_id "CANCELLED" comment now db)

-- What `trim` takes away: white space and line ends.
unfoldable pub is_space : ℕ → Bool
is_space c =
    (leb 9 c && leb c 13)
    || c == 32
    || c == 160
    || c == 5760
    || (leb 8192 c && leb c 8202)
    || c == 8232
    || c == 8233
    || c == 8239
    || c == 8287
    || c == 12288
    || c == 65279

unfoldable pub is_blank : String → Bool
unfolding is_space
is_blank String.[] = true
is_blank (String.◌∷◌ c s) = is_space (code c) && is_blank s

-- `!(cr.downstreamPlan?.trim())`
unfoldable pub lacks_plan : Option String → Bool
lacks_plan none = true
lacks_plan (some plan) = is_blank plan

-- The impact gate: RETIRE and MERGE with active mappings want a downstream plan.
unfoldable pub impact_gate : ChangeRequest → ImpactSummaryData → Result (Unit {0})
impact_gate r impact =
    if is_destructive r.type && (ltb 0 impact.active_mappings && lacks_plan r.downstream_plan)
    then err (downstream_plan_required r.type impact.active_mappings impact.affected_system_count)
    else ok tt

unfoldable pub computed_summary : ImpactSummaryData → ImpactText
computed_summary impact =
    ImpactText.computed impact.severity impact.total_mappings impact.active_mappings
      impact.affected_system_count

-- `!cr.impactSummary`
unfoldable pub lacks_summary : Option ImpactText → Bool
lacks_summary none = true
lacks_summary (some (ImpactText.written t)) = str_eq t ""
lacks_summary (some (ImpactText.computed _ _ _ _)) = false

unfoldable pub fill_summary : ChangeRequest → ImpactSummaryData → Db → Db
unfolding computed_summary
fill_summary r impact db =
    if lacks_summary r.impact_summary
    then record db {
      change_requests =
          update_many (λ x. x.id == r.id)
            (λ x. record x { impact_summary = some (computed_summary impact) }) db.change_requests;
    }
    else db

-- The summary is stored before the transition and outside its transaction.
unfoldable pub request_approval : Detail → ActorId → Time → Db → Outcome
request_approval s actor_id now db =
    let impact = (analyse s.request.affected_capability_ids (some s.request.type) db).summary in
    check_then db
      (assert_valid_transition s.request.status ChangeRequestStatus.pending_approval
        "request-approval")
      (check_then db (impact_gate s.request impact) (
        apply_transition s ChangeRequestStatus.pending_approval actor_id "PENDING_APPROVAL" none now
          (fill_summary s.request impact db)))
