-- ===== src/Delivery.antt =====
-- apps/api/src/integration: the outbox (publish-event.service.ts) and the worker that delivers it
-- (publish-event-delivery-worker.service.ts).
pub mod Backoff
pub mod Rows
pub mod System
pub mod Invariant
pub mod Safety
mod Examples
use ecm_management.Base.{
  ℕ, zero, suc, ◌+◌, ◌-◌, ◌*◌, ◌^◌, min, Bool, true, false, ◌&&◌, ◌||◌, Option, none, some, List,
  [], ◌∷◌, String, if◌then◌else◌, ◌==◌, ltb, leb, length, take, select, count, find_first,
  update_many,
}
use ecm_management.Schema.{
  Uuid, Time, DeliveryStatus, PublishEvent, PublishEventType, PayloadRef, ModelVersion, Db, Error,
  no_draft_for_event, Result, ok, err,
}
use ecm_management.Structural.History.{is_main_draft}

abbrev pub default_max_attempts : ℕ
default_max_attempts = 5

abbrev pub lease_duration_ms : ℕ
lease_duration_ms = 30000

abbrev pub base_retry_delay_ms : ℕ
base_retry_delay_ms = 30000

abbrev pub max_retry_delay_ms : ℕ
max_retry_delay_ms = 15 * 60000

abbrev pub default_batch_size : ℕ
default_batch_size = 25

-- createOutboxRecord
unfoldable pub new_event :
    Uuid → PublishEventType → Uuid → Uuid → Option PayloadRef → Option ℕ → Time → PublishEvent
new_event id event_type model_version_id entity_id payload_ref max_attempts now = record {
  id = id;
  event_type = event_type;
  model_version_id = model_version_id;
  entity_id = entity_id;
  payload_ref = payload_ref;
  published_at = now;
  delivery_status = DeliveryStatus.pending;
  attempt_count = 0;
  max_attempts = elim max_attempts [ none ↦ default_max_attempts | some n ↦ n ];
  last_attempt_at = none;
  next_attempt_at = some now;
  delivered_at = none;
  last_error = none;
  lease_owner = none;
  lease_expires_at = none;
}

unfoldable pub record_model_version_event :
    PublishEventType → Uuid → Option Uuid → Option PayloadRef → Option ℕ → Time → Db → Db
unfolding new_event
record_model_version_event event_type model_version_id entity_id payload_ref max_attempts now db =
    record db {
      publish_events =
          new_event db.next_uuid event_type model_version_id
            (elim entity_id [ none ↦ model_version_id | some id ↦ id ]) payload_ref max_attempts now
          ∷ db.publish_events;
      next_uuid = suc db.next_uuid;
    }

unfoldable pub record_capability_event :
    PublishEventType → Uuid → Option PayloadRef → Option ℕ → Time → Db → Result Db
record_capability_event event_type capability_id payload_ref max_attempts now db =
    elim (find_first is_main_draft db.model_versions) [
      | none ↦ err no_draft_for_event
      | some draft ↦ ok (
          record_model_version_event event_type draft.id (some capability_id) payload_ref
            max_attempts now db)
    ]

-- CLAIMABLE_STATUSES
unfoldable pub is_claimable : DeliveryStatus → Bool
is_claimable DeliveryStatus.pending = true
is_claimable DeliveryStatus.retrying = true
is_claimable _ = false

-- `lte` in SQL: NULL is never at or before an instant.
unfoldable pub at_or_before : Option Time → Time → Bool
at_or_before none now = false
at_or_before (some t) now = leb t now

unfoldable pub lease_is_free : Option Time → Time → Bool
lease_is_free none now = true
lease_is_free (some t) now = leb t now

-- buildDueEventWhere
unfoldable pub is_due : Time → PublishEvent → Bool
unfolding is_claimable at_or_before lease_is_free
is_due now e =
    is_claimable e.delivery_status
    && at_or_before e.next_attempt_at now
    && lease_is_free e.lease_expires_at now

-- orderBy: [{ nextAttemptAt: 'asc' }, { publishedAt: 'asc' }]; NULLs come last.
unfoldable pub time_before : Option Time → Option Time → Bool
time_before none b = false
time_before (some a) none = true
time_before (some a) (some b) = ltb a b

unfoldable pub comes_first : PublishEvent → PublishEvent → Bool
unfolding time_before
comes_first a b =
    if time_before a.next_attempt_at b.next_attempt_at
    then true
    else if time_before b.next_attempt_at a.next_attempt_at
    then false
    else leb a.published_at b.published_at

unfoldable pub insert_event : PublishEvent → List PublishEvent → List PublishEvent
insert_event e [] = e ∷ []
insert_event e (x ∷ xs) =
    let rest = insert_event e xs in if comes_first e x then e ∷ x ∷ xs else x ∷ rest

unfoldable pub in_order : List PublishEvent → List PublishEvent
in_order [] = []
in_order (e ∷ es) = insert_event e (in_order es)

-- findMany({ where: due, orderBy, take: batchSize })
unfoldable pub candidates : ℕ → Time → List PublishEvent → List PublishEvent
candidates batch_size now events = take batch_size (in_order (select (is_due now) events))

unfoldable pub find_event : Uuid → List PublishEvent → Option PublishEvent
find_event id = find_first (λ e. e.id == id)

-- The guarded update of one candidate: its row, if it is still due.
unfoldable pub is_claimed : Time → Uuid → PublishEvent → Bool
is_claimed now id e = e.id == id && is_due now e

unfoldable pub with_lease : Uuid → Time → PublishEvent → PublishEvent
with_lease worker now e = record e {
  lease_owner = some worker;
  lease_expires_at = some (now + lease_duration_ms);
}

-- The loop over the candidates: the ids whose update counts one row, and the table.
unfoldable pub claim_each :
    List PublishEvent → Uuid → Time → List PublishEvent → List Uuid × List PublishEvent
claim_each [] worker now events = ([], events)
claim_each (c ∷ cs) worker now events =
    let (ids, events') =
      claim_each cs worker now (update_many (is_claimed now c.id) (with_lease worker now) events) in
    (if count (is_claimed now c.id) events == 1 then c.id ∷ ids else ids, events')

unfoldable pub is_owned : Uuid → PublishEvent → Bool
is_owned worker e = elim e.lease_owner [ none ↦ false | some w ↦ w == worker ]

abbrev pub keep_owned : Uuid → Option PublishEvent → List PublishEvent → List PublishEvent
keep_owned worker none rest = rest
keep_owned worker (some e) rest = if is_owned worker e then e ∷ rest else rest

-- Rows by their primary key, those that the worker leases.
unfoldable pub owned_rows : List Uuid → Uuid → List PublishEvent → List PublishEvent
owned_rows [] worker events = []
owned_rows (id ∷ ids) worker events =
    keep_owned worker (find_event id events) (owned_rows ids worker events)

-- claimDueEvents after its first query: the claimed rows, and the table.
unfoldable pub claim_candidates :
    List PublishEvent → Uuid → Time → List PublishEvent → List PublishEvent × List PublishEvent
claim_candidates cs worker now events =
    let (ids, events') = claim_each cs worker now events in
    (in_order (owned_rows ids worker events'), events')

unfoldable pub claim_due_events :
    ℕ → Uuid → Time → List PublishEvent → List PublishEvent × List PublishEvent
claim_due_events batch_size worker now events =
    claim_candidates (candidates batch_size now events) worker now events

-- The rows that markDelivered and markAttemptFailure may write.
unfoldable pub is_markable : Uuid → Uuid → PublishEvent → Bool
is_markable id worker e = e.id == id && is_owned worker e && is_claimable e.delivery_status

unfoldable pub delivered_row : ℕ → Time → PublishEvent → PublishEvent
delivered_row attempt_count attempted_at e = record e {
  delivery_status = DeliveryStatus.delivered;
  attempt_count = attempt_count;
  last_attempt_at = some attempted_at;
  next_attempt_at = none;
  delivered_at = some attempted_at;
  last_error = none;
  lease_owner = none;
  lease_expires_at = none;
}

-- Whether the update counted one row, and the table.
unfoldable pub mark_delivered :
    PublishEvent → Uuid → Time → List PublishEvent → Bool × List PublishEvent
mark_delivered event worker attempted_at events = (
  count (is_markable event.id worker) events == 1,
  update_many (is_markable event.id worker) (delivered_row (event.attempt_count + 1) attempted_at)
      events,
)

-- computeNextAttemptAt's delay; `Math.max(0, attemptCount - 1)` is the subtraction that stops at 0.
unfoldable pub backoff_ms : ℕ → ℕ
backoff_ms attempt_count = min (base_retry_delay_ms * 2 ^ (attempt_count - 1)) max_retry_delay_ms

unfoldable pub failed_row : ℕ → Bool → Time → String → PublishEvent → PublishEvent
failed_row attempt_count should_retry attempted_at error e = record e {
  delivery_status = if should_retry then DeliveryStatus.retrying else DeliveryStatus.failed;
  attempt_count = attempt_count;
  last_attempt_at = some attempted_at;
  next_attempt_at = if should_retry then some (attempted_at + backoff_ms attempt_count) else none;
  delivered_at = none;
  last_error = some error;
  lease_owner = none;
  lease_expires_at = none;
}

unfoldable pub mark_attempt_failure :
    PublishEvent
    → Uuid
    → Time
    → String
    → List PublishEvent
    → Option DeliveryStatus × List PublishEvent
mark_attempt_failure event worker attempted_at error events =
    let attempt_count = event.attempt_count + 1 in
    let should_retry = ltb attempt_count event.max_attempts in
    (
      if count (is_markable event.id worker) events == 1
          then some (if should_retry then DeliveryStatus.retrying else DeliveryStatus.failed)
          else none,
      update_many (is_markable event.id worker)
          (failed_row attempt_count should_retry attempted_at error) events,
    )

pub record ProcessResult : Type 0 where
  pub claimed_count : ℕ
  pub delivered_count : ℕ
  pub retried_count : ℕ
  pub failed_count : ℕ

-- One attempt: when it ended, and the error if it failed, as `formatError` leaves it.
pub record Attempt : Type 0 where
  pub attempted_at : Time
  pub error : Option String

abbrev pub add_status : Option DeliveryStatus → ProcessResult → ProcessResult
add_status (some DeliveryStatus.retrying) r = record r { retried_count = suc r.retried_count }
add_status (some DeliveryStatus.failed) r = record r { failed_count = suc r.failed_count }
add_status _ r = r

unfoldable pub process_event :
    PublishEvent
    → Attempt
    → Uuid
    → ProcessResult
    → List PublishEvent
    → ProcessResult × List PublishEvent
process_event event attempt worker result events = elim attempt.error [
  | none ↦
      let (marked, events') = mark_delivered event worker attempt.attempted_at events in
      (
        if marked then record result { delivered_count = suc result.delivered_count } else result,
        events',
      )
  | some error ↦
      let (status, events') = mark_attempt_failure event worker attempt.attempted_at error events in
      (add_status status result, events')
]

-- The loop over the claimed events. `deliver` stands for the HTTP calls of the delivery client.
unfoldable pub process_events :
    (PublishEvent → Attempt)
    → List PublishEvent
    → Uuid
    → ProcessResult
    → List PublishEvent
    → ProcessResult × List PublishEvent
process_events deliver [] worker result events = (result, events)
process_events deliver (e ∷ es) worker result events =
    let (result', events') = process_event e (deliver e) worker result events in
    process_events deliver es worker result' events'

unfoldable pub process_due_events :
    (PublishEvent → Attempt)
    → ℕ
    → Uuid
    → Time
    → List PublishEvent
    → ProcessResult × List PublishEvent
process_due_events deliver batch_size worker now events =
    let (claimed, events') = claim_due_events batch_size worker now events in
    process_events deliver claimed worker
      (record {
        claimed_count = length claimed;
        delivered_count = 0;
        retried_count = 0;
        failed_count = 0;
      })
      events'
