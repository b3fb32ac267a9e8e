-- ===== src/Delivery/Safety.antt =====
-- The safety properties of the outbox and its workers.
use mathlib.Core.Option
use ecm_management.Base.{
  ℕ, ◌+◌, ◌≤◌, ◌<◌, ◌≡◌, refl, ap, ◌∙◌, ◌⊎◌, inl, inr, ◌≢◌, Bool, true, false, some, List, [], ◌∷◌,
  map, String, arith, ◌==◌, ==→eq, ne→==, Bool-cases, find_first, update_many, elem,
}
use ecm_management.Schema.{Uuid, Time, DeliveryStatus, PublishEvent}
use ecm_management.Delivery.{
  find_event, is_due, with_lease, claim_each, claim_candidates, claim_due_events, candidates,
  is_claimed, is_owned, is_claimable, is_markable, delivered_row, failed_row, mark_delivered,
  mark_attempt_failure, new_event,
}
use ecm_management.Delivery.Rows.{
  update_row, find_event-update, find_event-id, claim_each-row, with_lease-not-due,
}
use ecm_management.Delivery.System.{Outbox, Step, records, claims, delivers, fails, Reach}
use ecm_management.Delivery.Invariant.{IsSound, Reach-Inv}

fate :
    (e : PublishEvent) (s : DeliveryStatus)
    → e.delivery_status ≡ s
    → IsSound e
    → (e.attempt_count ≤ e.max_attempts)
      × (((is_claimable e.delivery_status ≡ true) × (e.attempt_count < e.max_attempts))
          ⊎ ((e.delivery_status ≡ DeliveryStatus.delivered)
              ⊎ ((e.delivery_status ≡ DeliveryStatus.failed) × (e.attempt_count ≡ e.max_attempts))))
unfolding is_claimable
fate e DeliveryStatus.pending h s = (s.bounded, inl (rw h refl, s.room (rw h refl)))
fate e DeliveryStatus.retrying h s = (s.bounded, inl (rw h refl, s.room (rw h refl)))
fate e DeliveryStatus.delivered h s = (s.bounded, inr (inl h))
fate e DeliveryStatus.failed h s = (s.bounded, inr (inr (h, s.spent (rw h refl))))

-- In every reachable outbox no event has more attempts than it may have, and an event waits with an
-- attempt left, is delivered, or has failed with every attempt made.
pub attempts_bounded :
    {o : Outbox} (j : Uuid) (e : PublishEvent)
    → Reach o
    → find_event j o.events ≡ some e
    → (e.attempt_count ≤ e.max_attempts)
      × (((is_claimable e.delivery_status ≡ true) × (e.attempt_count < e.max_attempts))
          ⊎ ((e.delivery_status ≡ DeliveryStatus.delivered)
              ⊎ ((e.delivery_status ≡ DeliveryStatus.failed) × (e.attempt_count ≡ e.max_attempts))))
attempts_bounded j e r found = fate e e.delivery_status refl ((Reach-Inv r).sound j e found)

untouched :
    (j : Uuid) (p : PublishEvent → Bool) (f : PublishEvent → PublishEvent) (e : PublishEvent)
    (events : List PublishEvent)
    → ((x : PublishEvent) → (f x).id ≡ x.id)
    → find_event j events ≡ some e
    → p e ≡ false
    → find_event j (update_many p f events) ≡ some e
untouched j p f e events keep found miss = ground (arith, find_event-update j p f events keep)

settled_mark :
    (id worker : Uuid) (e : PublishEvent)
    → is_claimable e.delivery_status ≡ false
    → is_markable id worker e ≡ false
unfolding is_markable
settled_mark id worker e h = ground arith

-- No step changes the row of an event that is delivered or has failed.
pub settled_stays :
    {o o' : Outbox} (j : Uuid) (e : PublishEvent)
    → Step o o'
    → find_event j o.events ≡ some e
    → is_claimable e.delivery_status ≡ false
    → find_event j o'.events ≡ some e
unfolding find_event find_first mark_delivered mark_attempt_failure claim_candidates
settled_stays {o = o} j e (records id t version entity ref max now fresh some_attempts) found
      settled =
    elim (Bool-cases (id == j)) [
      | inl hit ↦ absurd (ground (arith, ==→eq id j hit, fresh))
      | inr miss ↦ unfold new_event in ground arith
    ]
settled_stays {o = o} j e (claims cs worker now new) found settled =
    let (e', after, l) = claim_each-row cs worker now o.events j e found in
    elim l [
      | inl same ↦ after ∙ ap some same
      | inr (_, due) ↦ absurd (unfold is_due in ground arith)
    ]
settled_stays {o = o} j e (delivers worker event at mem) found settled =
    untouched j (is_markable event.id worker) (delivered_row (event.attempt_count + 1) at) e
      o.events (λ x. unfold delivered_row in refl) found (settled_mark event.id worker e settled)
settled_stays {o = o} j e (fails worker event at error mem) found settled =
    untouched j (is_markable event.id worker) _ e o.events (λ x. unfold failed_row in refl) found
      (settled_mark event.id worker e settled)

-- While a lease has not run out by the claimer's clock, a claim leaves the event to its holder.
pub lease_excludes :
    (batch_size : ℕ) (worker : Uuid) (now t : Time) (events : List PublishEvent) (j : Uuid)
    (e : PublishEvent)
    → find_event j events ≡ some e
    → e.lease_expires_at ≡ some t
    → now < t
    → find_event j (claim_due_events batch_size worker now events).1 ≡ some e
unfolding claim_due_events claim_candidates
lease_excludes batch_size worker now t events j e found lease valid =
    let (e', after, l) =
      claim_each-row (candidates batch_size now events) worker now events j e found in
    elim l [
      | inl same ↦ after ∙ ap some same
      | inr (_, due) ↦ absurd (unfold is_due in ground arith)
    ]

-- A due row among the candidates is leased.
claim_each-takes :
    (cs : List PublishEvent) (worker : Uuid) (now : Time) (events : List PublishEvent) (j : Uuid)
    (e : PublishEvent)
    → find_event j events ≡ some e
    → is_due now e ≡ true
    → elem j (map (λ c. c.id) cs) ≡ true
    → find_event j (claim_each cs worker now events).1 ≡ some (with_lease worker now e)
unfolding claim_each elem is_claimed
claim_each-takes [] worker now events j e found due here = cc
claim_each-takes (c ∷ cs) worker now events j e found due here =
    elim (Bool-cases (is_claimed now c.id e)) [
      | inl hit ↦
          let (e', after, l) = claim_each-row cs worker now next j (with_lease worker now e) (
            find_event-update j (is_claimed now c.id) (with_lease worker now) events keep
            ∙ ap (Option.map (update_row (is_claimed now c.id) (with_lease worker now))) found
            ∙ rw hit refl) in
          elim l [
            | inl same ↦ after ∙ ap some same
            | inr (_, again) ↦ absurd (ground (arith, with_lease-not-due worker now e))
          ]
      | inr miss ↦
          claim_each-takes cs worker now next j e
            (untouched j (is_claimed now c.id) (with_lease worker now) e events keep found miss) due
            (ground (arith, find_event-id j events e found))
    ]
  where
    next : List PublishEvent
    next = update_many (is_claimed now c.id) (with_lease worker now) events

    keep : (x : PublishEvent) → (with_lease worker now x).id ≡ x.id
    keep x = unfold with_lease in refl

other_mark :
    (id worker worker' : Uuid) (now : Time) (e : PublishEvent)
    → worker' ≢ worker
    → is_markable id worker (with_lease worker' now e) ≡ false
unfolding is_markable is_owned with_lease
other_mark id worker worker' now e ne = ground (arith, ne→== worker' worker ne)

-- Once another worker has claimed an event, its first worker, however late, changes nothing of the
-- event's row, neither by reporting it delivered nor by reporting the attempt failed.
pub taken_over :
    (cs : List PublishEvent) (worker worker' : Uuid) (now at : Time) (error : String)
    (events : List PublishEvent) (event e : PublishEvent)
    → find_event event.id events ≡ some e
    → is_due now e ≡ true
    → elem event.id (map (λ c. c.id) cs) ≡ true
    → worker' ≢ worker
    → (find_event event.id
          (mark_delivered event worker at (claim_candidates cs worker' now events).1).1
        ≡ some (with_lease worker' now e))
      × (find_event event.id
            (mark_attempt_failure event worker at error
              (claim_candidates cs worker' now events).1).1
          ≡ some (with_lease worker' now e))
unfolding claim_candidates mark_delivered mark_attempt_failure
taken_over cs worker worker' now at error events event e found due here ne =
    let taken = claim_each-takes cs worker' now events event.id e found due here in
    let miss = other_mark event.id worker worker' now e ne in
    (
      untouched event.id (is_markable event.id worker) (delivered_row (event.attempt_count + 1) at)
          (with_lease worker' now e) (claim_each cs worker' now events).1
          (λ x. unfold delivered_row in refl) taken miss,
      untouched event.id (is_markable event.id worker) _ (with_lease worker' now e)
          (claim_each cs worker' now events).1 (λ x. unfold failed_row in refl) taken miss,
    )
