-- ===== src/Delivery/Examples.antt =====
-- An event of the outbox that one worker fails to deliver and another takes over.
use ecm_management.Base.{
  ◌≤◌, ◌<◌, ◌≡◌, refl, ◌⊎◌, true, none, some, [], ◌∷◌, Memᴰ, arith, elem, count, find_first,
  update_many,
}
use ecm_management.Schema.{Uuid, DeliveryStatus, PublishEvent, PublishEventType}
use ecm_management.Delivery.{
  new_event, find_event, is_claimable, is_due, at_or_before, lease_is_free, is_claimed, with_lease,
  claim_each, is_owned, owned_rows, in_order, insert_event, claim_candidates, claim_due_events,
  is_markable, delivered_row, failed_row, mark_delivered, mark_attempt_failure, backoff_ms,
  base_retry_delay_ms, max_retry_delay_ms,
}
use ecm_management.Delivery.Backoff.{backoff_ms_bounds}
use ecm_management.Delivery.System.{Outbox, Step, records, claims, fails, Reach, start, then_step}
use ecm_management.Delivery.Safety.{attempts_bounded, settled_stays, lease_excludes, taken_over}

backoff_ms_bounds_example :
    (base_retry_delay_ms ≤ backoff_ms 2)
    × (backoff_ms 4 ≤ max_retry_delay_ms)
    × (backoff_ms 2 ≤ backoff_ms 4)
    × (backoff_ms 10 ≡ max_retry_delay_ms)
backoff_ms_bounds_example = backoff_ms_bounds 2 4 (omega arith)

abbrev fresh : PublishEvent
fresh = new_event 1 PublishEventType.published 7 7 none none 1000

abbrev first_worker : Uuid
first_worker = 91

abbrev second_worker : Uuid
second_worker = 92

abbrev leased : PublishEvent
leased = with_lease first_worker 2000 fresh

abbrev retried : PublishEvent
retried = failed_row 1 true 2100 "timeout" leased

abbrev recorded : Outbox
recorded = record { events = fresh ∷ []; claims = []; workers = [] }

abbrev claimed : Outbox
claimed = record {
  events = leased ∷ [];
  claims = (first_worker, leased) ∷ [];
  workers = first_worker ∷ [];
}

abbrev failed_once : Outbox
failed_once = record {
  events = retried ∷ [];
  claims = (first_worker, leased) ∷ [];
  workers = first_worker ∷ [];
}

recorded-Reach : Reach recorded
unfolding find_event find_first new_event
recorded-Reach =
    then_step start (records 1 PublishEventType.published 7 7 none none 1000 refl (omega arith))

claims_it : Step recorded claimed
unfolding claim_candidates claim_each is_claimed is_due is_claimable at_or_before lease_is_free
    with_lease new_event count update_many in_order insert_event owned_rows is_owned find_event
    find_first elem
claims_it = claims (fresh ∷ []) first_worker 2000 refl

fails_once : Step claimed failed_once
unfolding mark_attempt_failure is_markable is_owned is_claimable with_lease new_event update_many
    failed_row
fails_once = fails first_worker leased 2100 "timeout" (Memᴰ.head refl)

failed_once-Reach : Reach failed_once
failed_once-Reach = then_step (then_step recorded-Reach claims_it) fails_once

attempts_bounded_example :
    (retried.attempt_count ≤ retried.max_attempts)
    × (((is_claimable retried.delivery_status ≡ true)
          × (retried.attempt_count < retried.max_attempts))
        ⊎ ((retried.delivery_status ≡ DeliveryStatus.delivered)
            ⊎ ((retried.delivery_status ≡ DeliveryStatus.failed)
                × (retried.attempt_count ≡ retried.max_attempts))))
attempts_bounded_example =
    attempts_bounded 1 retried failed_once-Reach
      (unfold find_event find_first failed_row with_lease new_event in refl)

abbrev delivered : PublishEvent
delivered = delivered_row 1 2100 leased

abbrev delivered_outbox : Outbox
delivered_outbox = record {
  events = delivered ∷ [];
  claims = (first_worker, leased) ∷ [];
  workers = first_worker ∷ [];
}

abbrev claimed_again : Outbox
claimed_again = record {
  events = delivered ∷ [];
  claims = (first_worker, leased) ∷ [];
  workers = second_worker ∷ first_worker ∷ [];
}

claims_again : Step delivered_outbox claimed_again
unfolding claim_candidates claim_each is_claimed is_due is_claimable at_or_before lease_is_free
    with_lease new_event delivered_row count update_many in_order insert_event owned_rows is_owned
    find_event find_first elem
claims_again = claims (fresh ∷ []) second_worker 40000 refl

settled_stays_example : find_event 1 claimed_again.events ≡ some delivered
settled_stays_example =
    settled_stays 1 delivered claims_again
      (unfold find_event find_first delivered_row with_lease new_event in refl)
      (unfold delivered_row is_claimable in refl)

lease_excludes_example :
    find_event 1 (claim_due_events 25 second_worker 20000 (leased ∷ [])).1 ≡ some leased
lease_excludes_example =
    lease_excludes 25 second_worker 20000 32000 (leased ∷ []) 1 leased
      (unfold find_event find_first with_lease new_event in refl) (unfold with_lease in refl)
      (omega arith)

taken_over_example :
    (find_event 1
        (mark_delivered leased first_worker 41000
          (claim_candidates (leased ∷ []) second_worker 40000 (leased ∷ [])).1).1
      ≡ some (with_lease second_worker 40000 leased))
    × (find_event 1
          (mark_attempt_failure leased first_worker 41000 "timeout"
            (claim_candidates (leased ∷ []) second_worker 40000 (leased ∷ [])).1).1
        ≡ some (with_lease second_worker 40000 leased))
unfolding with_lease new_event
taken_over_example =
    taken_over (leased ∷ []) first_worker second_worker 40000 41000 "timeout" (leased ∷ []) leased
      leased (unfold find_event find_first in refl)
      (unfold is_due is_claimable at_or_before lease_is_free in refl) (unfold elem in refl)
      (ground arith)
