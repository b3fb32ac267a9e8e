-- ===== src/Delivery/Invariant.antt =====
-- What every step of the outbox keeps: how a row's status, attempts and lease fit together, and that
-- a worker that still leases a row knows its attempts.
use ecm_management.Base.{
  ℕ, ◌+◌, ◌≤◌, ◌<◌, ◌≡◌, refl, sym, subst, inl, inr, Bool, true, false, none, some, List, [], ◌∷◌,
  ◌++◌, Memᴰ, String, arith, ◌==◌, ltb, ==→eq, ==_refl, Bool-cases, Option-cases, find_first,
  update_many, elem, All,
}
use ecm_management.Schema.{Uuid, Time, DeliveryStatus, PublishEvent}
use ecm_management.Delivery.{
  find_event, is_due, with_lease, claim_each, claim_candidates, is_owned, owned_rows, in_order,
  is_claimable, is_markable, delivered_row, failed_row, mark_delivered, mark_attempt_failure,
  new_event,
}
use ecm_management.Delivery.Rows.{
  find_event-update, find_event-id, Leased, claim_each-row, claim_each-none, All-in_order,
  IsOwnedRow, owned_rows-IsOwnedRow,
}
use ecm_management.Delivery.System.{
  Claim, Outbox, claimed_by, Step, records, claims, delivers, fails, Reach, start, then_step,
}

abbrev pub is_failed : DeliveryStatus → Bool
is_failed DeliveryStatus.failed = true
is_failed _ = false

pub record IsSound (e : PublishEvent) : Type 0 where
  pub bounded : e.attempt_count ≤ e.max_attempts
  pub room : is_claimable e.delivery_status ≡ true → e.attempt_count < e.max_attempts
  pub spent : is_failed e.delivery_status ≡ true → e.attempt_count ≡ e.max_attempts
  pub scheduled : is_claimable e.delivery_status ≡ true → (t : Time) × (e.next_attempt_at ≡ some t)
  pub settled :
      is_claimable e.delivery_status ≡ false → (e.next_attempt_at ≡ none) × (e.lease_owner ≡ none)

-- A claim that still holds tells the attempts of its row.
pub record Agrees (o : Outbox) (c : Claim) : Type 0 where
  pub named : elem c.0 o.workers ≡ true
  pub tells :
      (r : PublishEvent)
      → find_event c.1.id o.events ≡ some r
      → is_owned c.0 r ≡ true
      → (r.attempt_count ≡ c.1.attempt_count) × (r.max_attempts ≡ c.1.max_attempts)

pub record Inv (o : Outbox) : Type 0 where
  pub sound : (j : Uuid) (e : PublishEvent) → find_event j o.events ≡ some e → IsSound e
  pub agrees : All (Agrees o) o.claims

All-mem {ℓ} : {A : Type ℓ} (P : A → Type 0) (xs : List A) (x : A) → All P xs → Memᴰ x xs → P x
All-mem P [] x all m = elim m [ ]
All-mem P (y ∷ ys) x (p, all) (Memᴰ.head e) = subst P (sym e) p
All-mem P (y ∷ ys) x (p, all) (Memᴰ.tail m) = All-mem P ys x all m

pub All-map {ℓ κ} :
    {A : Type ℓ} (P Q : A → Type κ) (xs : List A) → ((x : A) → P x → Q x) → All P xs → All Q xs
All-map P Q [] f all = tt
All-map P Q (x ∷ xs) f (p, all) = (f x p, All-map P Q xs f all)

-- An update that a marked row passes keeps the invariant, if it keeps a row sound and gives back its
-- lease.
marked-Inv :
    {o : Outbox} (p : PublishEvent → Bool) (f : PublishEvent → PublishEvent)
    → ((e : PublishEvent) → (f e).id ≡ e.id)
    → ((e : PublishEvent) → (f e).lease_owner ≡ none)
    → ((j : Uuid) (e : PublishEvent) → find_event j o.events ≡ some e → p e ≡ true → IsSound (f e))
    → Inv o
    → Inv (record o { events = update_many p f o.events })
marked-Inv {o = o} p f keep free good inv = record {
  sound = λ j e' h. elim (Option-cases (find_event j o.events)) [
    | inl n ↦ absurd (ground (arith, find_event-update j p f o.events keep))
    | inr (e, found) ↦ elim (Bool-cases (p e)) [
      | inl hit ↦
          subst IsSound (ground (arith, find_event-update j p f o.events keep)) (good j e found hit)
      | inr miss ↦
          subst IsSound (ground (arith, find_event-update j p f o.events keep))
            (inv.sound j e found)
    ]
  ];
  agrees =
      All-map (Agrees o) (Agrees (record o { events = update_many p f o.events })) o.claims
        (λ c a. record {
          named = a.named;
          tells = λ r h own. elim (Option-cases (find_event c.1.id o.events)) [
            | inl n ↦ absurd (ground (arith, find_event-update c.1.id p f o.events keep))
            | inr (e, found) ↦ elim (Bool-cases (p e)) [
              | inl hit ↦ absurd (
                  unfold is_owned in
                  ground (arith, find_event-update c.1.id p f o.events keep, free e))
              | inr miss ↦
                  a.tells r (ground (arith, find_event-update c.1.id p f o.events keep)) own
            ]
          ];
        })
        inv.agrees;
}

delivers-Inv :
    {o : Outbox} (worker : Uuid) (event : PublishEvent) (at : Time)
    → Inv o
    → Agrees o (worker, event)
    → Inv (record o { events = (mark_delivered event worker at o.events).1 })
unfolding mark_delivered delivered_row
delivers-Inv {o = o} worker event at inv a =
    marked-Inv (is_markable event.id worker) (delivered_row (event.attempt_count + 1) at)
      (λ e. refl) (λ e. refl)
      (λ j e found hit.
        let s = inv.sound j e found in
        let own : is_owned worker e ≡ true = unfold is_markable in ground arith in
        let open_ : is_claimable e.delivery_status ≡ true = unfold is_markable in ground arith in
        let same : j ≡ event.id =
          unfold is_markable in
          ground (arith, ==→eq e.id event.id, find_event-id j o.events e found) in
        let t = a.tells e (subst (λ i. find_event i o.events ≡ some e) same found) own in
        unfold is_claimable in
        record {
          bounded = ground (arith, t, s.room open_);
          room = λ h. cc;
          spent = λ h. cc;
          scheduled = λ h. cc;
          settled = λ h. (refl, refl);
        })
      inv

failed_row-IsSound :
    (n : ℕ) (should_retry : Bool) (at : Time) (error : String) (e : PublishEvent)
    → n ≤ e.max_attempts
    → (should_retry ≡ true → n < e.max_attempts)
    → (should_retry ≡ false → n ≡ e.max_attempts)
    → IsSound (failed_row n should_retry at error e)
unfolding failed_row is_claimable
failed_row-IsSound n true at error e le more done = record {
  bounded = le;
  room = λ h. more refl;
  spent = λ h. cc;
  scheduled = λ h. (_, refl);
  settled = λ h. cc;
}
failed_row-IsSound n false at error e le more done = record {
  bounded = le;
  room = λ h. cc;
  spent = λ h. done refl;
  scheduled = λ h. cc;
  settled = λ h. (refl, refl);
}

fails-Inv :
    {o : Outbox} (worker : Uuid) (event : PublishEvent) (at : Time) (error : String)
    → Inv o
    → Agrees o (worker, event)
    → Inv (record o { events = (mark_attempt_failure event worker at error o.events).1 })
unfolding mark_attempt_failure failed_row
fails-Inv {o = o} worker event at error inv a =
    marked-Inv (is_markable event.id worker)
      (failed_row (event.attempt_count + 1) (ltb (event.attempt_count + 1) event.max_attempts) at
        error)
      (λ e. refl) (λ e. refl)
      (λ j e found hit.
        let s = inv.sound j e found in
        let own : is_owned worker e ≡ true = unfold is_markable in ground arith in
        let open_ : is_claimable e.delivery_status ≡ true = unfold is_markable in ground arith in
        let same : j ≡ event.id =
          unfold is_markable in
          ground (arith, ==→eq e.id event.id, find_event-id j o.events e found) in
        let t = a.tells e (subst (λ i. find_event i o.events ≡ some e) same found) own in
        failed_row-IsSound (event.attempt_count + 1)
          (ltb (event.attempt_count + 1) event.max_attempts) at error e
          (ground (arith, t, s.room open_)) (λ h. ground (arith, t))
          (λ h. ground (arith, t, s.room open_)))
      inv

All-append : (P : Claim → Type 0) (xs ys : List Claim) → All P xs → All P ys → All P (xs ++ ys)
All-append P [] ys a b = b
All-append P (x ∷ xs) ys (p, a) b = (p, All-append P xs ys a b)

claimed_by-All :
    (P : Claim → Type 0) (Q : PublishEvent → Type 0) (worker : Uuid) (es : List PublishEvent)
    → ((e : PublishEvent) → Q e → P (worker, e))
    → All Q es
    → All P (claimed_by worker es)
claimed_by-All P Q worker [] f all = tt
claimed_by-All P Q worker (e ∷ es) f (q, all) = (f e q, claimed_by-All P Q worker es f all)

-- The row before a claim's update.
unclaimed :
    (cs : List PublishEvent) (worker : Uuid) (now : Time) (events : List PublishEvent) (j : Uuid)
    (e' : PublishEvent)
    → find_event j (claim_each cs worker now events).1 ≡ some e'
    → (e : PublishEvent) × (find_event j events ≡ some e) × Leased worker now e e'
unclaimed cs worker now events j e' h = elim (Option-cases (find_event j events)) [
  | inl n ↦ absurd (ground (arith, claim_each-none cs worker now events j n))
  | inr (e, found) ↦
      let (r, after, l) = claim_each-row cs worker now events j e found in
      (e, found, subst (Leased worker now e) (ground arith) l)
]

with_lease-IsSound :
    (worker : Uuid) (now : Time) (e : PublishEvent)
    → is_due now e ≡ true
    → IsSound e
    → IsSound (with_lease worker now e)
unfolding with_lease is_due
with_lease-IsSound worker now e due s = record {
  bounded = s.bounded;
  room = s.room;
  spent = s.spent;
  scheduled = s.scheduled;
  settled = λ h. ground arith;
}

other_worker :
    (w v : Uuid) (ws : List Uuid) → elem w ws ≡ false → elem v ws ≡ true → (w == v) ≡ false
other_worker w v ws new old = elim (Bool-cases (w == v)) [
  | inr e ↦ e
  | inl e ↦ absurd (ground (arith, subst (λ x. elem x ws ≡ true) (sym (==→eq w v e)) old))
]

claims-Inv :
    {o : Outbox} (cs : List PublishEvent) (worker : Uuid) (now : Time)
    → elem worker o.workers ≡ false
    → Inv o
    → Inv (record {
      events = (claim_candidates cs worker now o.events).1;
      claims = claimed_by worker (claim_candidates cs worker now o.events).0 ++ o.claims;
      workers = worker ∷ o.workers;
    })
unfolding claim_candidates
claims-Inv {o = o} cs worker now new inv = record {
  sound = λ j e' h.
      let (e, found, l) = unclaimed cs worker now o.events j e' h in
      elim l [
        | inl same ↦ subst IsSound (sym same) (inv.sound j e found)
        | inr (leased, due) ↦
            subst IsSound (sym leased) (with_lease-IsSound worker now e due (inv.sound j e found))
      ];
  agrees =
      All-append (Agrees next) (claimed_by worker (in_order rows)) o.claims
        (claimed_by-All (Agrees next) (IsOwnedRow worker table) worker (in_order rows)
          (λ e (found, own). record {
            named = unfold elem in ground (arith, ==_refl worker);
            tells = λ r h own'. ground arith;
          })
          (All-in_order (IsOwnedRow worker table) rows
            (owned_rows-IsOwnedRow (claim_each cs worker now o.events).0 worker table)))
        (All-map (Agrees o) (Agrees next) o.claims
          (λ c a. record {
            named = unfold elem in ground (arith, a.named);
            tells = λ r h own.
                let (e, found, l) = unclaimed cs worker now o.events c.1.id r h in
                elim l [
                  | inl same ↦
                      subst
                        (λ x.
                          (x.attempt_count ≡ c.1.attempt_count)
                          × (x.max_attempts ≡ c.1.max_attempts))
                        (sym same) (a.tells e found (subst (λ x. is_owned c.0 x ≡ true) same own))
                  | inr (leased, due) ↦ absurd (
                      unfold is_owned with_lease in
                      ground (arith, other_worker worker c.0 o.workers new a.named))
                ];
          })
          inv.agrees);
}
  where
    table : List PublishEvent
    table = (claim_each cs worker now o.events).1

    rows : List PublishEvent
    rows = owned_rows (claim_each cs worker now o.events).0 worker table

    next : Outbox
    next = record {
      events = table;
      claims = claimed_by worker (in_order rows) ++ o.claims;
      workers = worker ∷ o.workers;
    }

records-Inv :
    {o : Outbox} (e : PublishEvent)
    → find_event e.id o.events ≡ none
    → IsSound e
    → e.lease_owner ≡ none
    → Inv o
    → Inv (record o { events = e ∷ o.events })
unfolding find_event find_first is_owned
records-Inv {o = o} e fresh s free inv = record {
  sound = λ j r h. elim (Bool-cases (e.id == j)) [
    | inl hit ↦ subst IsSound (ground arith) s
    | inr miss ↦ inv.sound j r (ground arith)
  ];
  agrees =
      All-map (Agrees o) (Agrees (record o { events = e ∷ o.events })) o.claims
        (λ c a. record {
          named = a.named;
          tells = λ r h own. elim (Bool-cases (e.id == c.1.id)) [
            | inl hit ↦ absurd (ground arith)
            | inr miss ↦ a.tells r (ground arith) own
          ];
        })
        inv.agrees;
}

pub Step-Inv : {o o' : Outbox} → Step o o' → Inv o → Inv o'
Step-Inv {o = o} (records id t version entity ref max now fresh some_attempts) inv =
    records-Inv (new_event id t version entity ref max now) (unfold new_event in fresh)
      (unfold new_event is_claimable in
        record {
          bounded = omega arith;
          room = λ h. some_attempts;
          spent = λ h. cc;
          scheduled = λ h. (now, refl);
          settled = λ h. cc;
        })
      (unfold new_event in refl) inv
Step-Inv (claims cs worker now new) inv = claims-Inv cs worker now new inv
Step-Inv {o = o} (delivers worker event at mem) inv =
    delivers-Inv worker event at inv (All-mem (Agrees o) o.claims (worker, event) inv.agrees mem)
Step-Inv {o = o} (fails worker event at error mem) inv =
    fails-Inv worker event at error inv (All-mem (Agrees o) o.claims (worker, event) inv.agrees mem)

pub Reach-Inv : {o : Outbox} → Reach o → Inv o
unfolding find_event find_first
Reach-Inv start = record { sound = λ j e h. absurd (cc); agrees = tt }
Reach-Inv (then_step r st) = Step-Inv st (Reach-Inv r)
