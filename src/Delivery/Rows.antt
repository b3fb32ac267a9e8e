-- ===== src/Delivery/Rows.antt =====
-- Rows of the outbox by their id, under the updates of the worker.
use mathlib.Core.Option
use ecm_management.Base.{
  ◌≡◌, refl, sym, ap, ◌∙◌, subst, ◌⊎◌, inl, inr, Bool, true, false, Option, none, some, List, [],
  ◌∷◌, arith, if◌then◌else◌, ==→eq, Bool-cases, find_first, update_many, All,
}
use ecm_management.Schema.{Uuid, Time, PublishEvent}
use ecm_management.Delivery.{
  find_event, is_claimed, is_due, with_lease, claim_each, is_owned, keep_owned, owned_rows,
  in_order, insert_event, comes_first,
}

abbrev pub update_row :
    (PublishEvent → Bool) → (PublishEvent → PublishEvent) → PublishEvent → PublishEvent
update_row p f e = if p e then f e else e

pub find_event-update :
    (j : Uuid) (p : PublishEvent → Bool) (f : PublishEvent → PublishEvent)
    (events : List PublishEvent)
    → ((e : PublishEvent) → (f e).id ≡ e.id)
    → find_event j (update_many p f events) ≡ Option.map (update_row p f) (find_event j events)
unfolding find_event find_first update_many
find_event-update j p f [] keep = refl
find_event-update j p f (e ∷ es) keep = ground (arith, keep e, find_event-update j p f es keep)

pub find_event-id :
    (j : Uuid) (events : List PublishEvent) (e : PublishEvent)
    → find_event j events ≡ some e
    → e.id ≡ j
unfolding find_event find_first
find_event-id j [] e h = cc
find_event-id j (x ∷ xs) e h = ground (arith, find_event-id j xs e, ==→eq x.id j)

-- What the claims of one worker may do to a row: nothing, or lease it while it is due.
abbrev pub Leased : Uuid → Time → PublishEvent → PublishEvent → Type 0
Leased worker now e e' = (e' ≡ e) ⊎ ((e' ≡ with_lease worker now e) × (is_due now e ≡ true))

pub with_lease-not-due :
    (worker : Uuid) (now : Time) (e : PublishEvent) → is_due now (with_lease worker now e) ≡ false
unfolding is_due with_lease
with_lease-not-due worker now e = ground arith

pub claim_each-row :
    (cs : List PublishEvent) (worker : Uuid) (now : Time) (events : List PublishEvent) (j : Uuid)
    (e : PublishEvent)
    → find_event j events ≡ some e
    → (e' : PublishEvent) × (find_event j (claim_each cs worker now events).1 ≡ some e')
      × Leased worker now e e'
unfolding claim_each is_claimed
claim_each-row [] worker now events j e h = (e, h, inl refl)
claim_each-row (c ∷ cs) worker now events j e h = elim (Bool-cases (is_claimed now c.id e)) [
  | inl hit ↦
      let (e', found, l) =
        claim_each-row cs worker now events' j (with_lease worker now e) (stepped ∙ rw hit refl) in
      (
        e',
        found,
        elim l [
          | inl same ↦ inr (same, ground arith)
          | inr (_, due) ↦ absurd (ground (arith, with_lease-not-due worker now e))
        ],
      )
  | inr miss ↦ claim_each-row cs worker now events' j e (stepped ∙ rw miss refl)
]
  where
    events' : List PublishEvent
    events' = update_many (is_claimed now c.id) (with_lease worker now) events

    stepped :
        find_event j events' ≡ some (update_row (is_claimed now c.id) (with_lease worker now) e)
    stepped =
        find_event-update j (is_claimed now c.id) (with_lease worker now) events
          (λ x. unfold with_lease in refl)
        ∙ ap (Option.map (update_row (is_claimed now c.id) (with_lease worker now))) h

pub claim_each-none :
    (cs : List PublishEvent) (worker : Uuid) (now : Time) (events : List PublishEvent) (j : Uuid)
    → find_event j events ≡ none
    → find_event j (claim_each cs worker now events).1 ≡ none
unfolding claim_each
claim_each-none [] worker now events j h = h
claim_each-none (c ∷ cs) worker now events j h =
    claim_each-none cs worker now (update_many (is_claimed now c.id) (with_lease worker now) events)
      j
      (find_event-update j (is_claimed now c.id) (with_lease worker now) events
          (λ x. unfold with_lease in refl)
        ∙ ap (Option.map (update_row (is_claimed now c.id) (with_lease worker now))) h)

-- What holds of every row holds of every row in order.
All-insert_event :
    (P : PublishEvent → Type 0) (e : PublishEvent) (es : List PublishEvent)
    → P e
    → All P es
    → All P (insert_event e es)
unfolding insert_event
All-insert_event P e [] p all = (p, tt)
All-insert_event P e (x ∷ xs) p (q, all) = elim (Bool-cases (comes_first e x)) [
  | inl first ↦ rw first (p, (q, all))
  | inr later ↦ rw later (q, All-insert_event P e xs p all)
]

pub All-in_order :
    (P : PublishEvent → Type 0) (es : List PublishEvent) → All P es → All P (in_order es)
unfolding in_order
All-in_order P [] all = tt
All-in_order P (e ∷ es) (p, all) = All-insert_event P e (in_order es) p (All-in_order P es all)

-- The rows that a claim returns are rows of the table, and the worker's.
abbrev pub IsOwnedRow : Uuid → List PublishEvent → PublishEvent → Type 0
IsOwnedRow worker events e = (find_event e.id events ≡ some e) × (is_owned worker e ≡ true)

keep_owned-IsOwnedRow :
    (id worker : Uuid) (events rest : List PublishEvent) (o : Option PublishEvent)
    → find_event id events ≡ o
    → All (IsOwnedRow worker events) rest
    → All (IsOwnedRow worker events) (keep_owned worker o rest)
keep_owned-IsOwnedRow id worker events rest none e all = all
keep_owned-IsOwnedRow id worker events rest (some r) e all = elim (Bool-cases (is_owned worker r)) [
  | inr other ↦ rw other all
  | inl mine ↦
      rw mine (
        (subst (λ i. find_event i events ≡ some r) (sym (find_event-id id events r e)) e, mine),
        all,
      )
]

pub owned_rows-IsOwnedRow :
    (ids : List Uuid) (worker : Uuid) (events : List PublishEvent)
    → All (IsOwnedRow worker events) (owned_rows ids worker events)
unfolding owned_rows
owned_rows-IsOwnedRow [] worker events = tt
owned_rows-IsOwnedRow (id ∷ ids) worker events =
    keep_owned-IsOwnedRow id worker events (owned_rows ids worker events) (find_event id events)
      refl (owned_rows-IsOwnedRow ids worker events)
