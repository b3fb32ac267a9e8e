-- ===== src/Delivery/System.antt =====
-- The outbox with any number of workers side by side. A run of `processDueEvents` has a name of its
-- own; it claims, and marks its claims one by one, in any order and at any time, or never. The
-- clocks of the workers need not agree.
use ecm_management.Base.{
  ℕ, ◌≤◌, ◌≡◌, false, Option, none, List, [], ◌∷◌, ◌++◌, map, String, Memᴰ, elem,
}
use ecm_management.Schema.{Uuid, Time, PublishEvent, PublishEventType, PayloadRef}
use ecm_management.Delivery.{
  new_event, find_event, claim_candidates, mark_delivered, mark_attempt_failure,
}

-- A worker, and a row as it was when the worker claimed it.
abbrev pub Claim : Type 0
Claim = Uuid × PublishEvent

pub record Outbox : Type 0 where
  pub events : List PublishEvent
  pub claims : List Claim
  pub workers : List Uuid

abbrev pub claimed_by : Uuid → List PublishEvent → List Claim
claimed_by worker = map λ e. (worker, e)

pub data Step : Outbox → Outbox → Type 0 where
  records :
      {o : Outbox} (id : Uuid) (event_type : PublishEventType) (model_version_id entity_id : Uuid)
      (payload_ref : Option PayloadRef) (max_attempts : Option ℕ) (now : Time)
      → find_event id o.events ≡ none
      → 1
        ≤ (new_event id event_type model_version_id entity_id payload_ref max_attempts
            now).max_attempts
      → Step o (record o {
        events =
            new_event id event_type model_version_id entity_id payload_ref max_attempts now
            ∷ o.events;
      })
  claims :
      {o : Outbox} (candidates : List PublishEvent) (worker : Uuid) (now : Time)
      → elem worker o.workers ≡ false
      → Step o (record {
        events = (claim_candidates candidates worker now o.events).1;
        claims = claimed_by worker (claim_candidates candidates worker now o.events).0 ++ o.claims;
        workers = worker ∷ o.workers;
      })
  delivers :
      {o : Outbox} (worker : Uuid) (event : PublishEvent) (attempted_at : Time)
      → Memᴰ (worker, event) o.claims
      → Step o (record o { events = (mark_delivered event worker attempted_at o.events).1 })
  fails :
      {o : Outbox} (worker : Uuid) (event : PublishEvent) (attempted_at : Time) (error : String)
      → Memᴰ (worker, event) o.claims
      → Step o
          (record o { events = (mark_attempt_failure event worker attempted_at error o.events).1 })

pub data Reach : Outbox → Type 0 where
  start : Reach (record { events = []; claims = []; workers = [] })
  then_step : {o o' : Outbox} → Reach o → Step o o' → Reach o'
