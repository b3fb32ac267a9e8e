-- ===== src/Branches/Listing.antt =====
-- How the list of a branch's capabilities and the look-up of one agree.
use ecm_management.Base.{
  ◌≡◌, refl, sym, ap, subst, ◌⊎◌, inl, inr, ◌≢◌, true, Option, none, some, List, [], ◌∷◌, ◌++◌,
  Memᴰ, arith, ==→eq, ==_refl, Bool-cases, Option-cases, elem,
}
use ecm_management.Schema.{
  Uuid, Time, CapabilityVersion, ModelVersion, Snapshot, Db, Result, ok, Result-cases,
}
use ecm_management.Versions.States.{
  is_create, State, is_delete, newest_states, entries_at, states_at, state_of,
}
use ecm_management.Versions.Newest.{newest_states-seen}
use ecm_management.Branches.Lifecycle.{get_branch}
use ecm_management.Branches.Projection.{
  branch_entries, latest_entry, push, overridden, from_base, created_snapshot, created_in_branch,
  projected, list_capabilities_in_branch, shown, get_capability_in_branch,
}

Mem-append : (s : Snapshot) (xs ys : List Snapshot) → Memᴰ s (xs ++ ys) → Memᴰ s xs ⊎ Memᴰ s ys
Mem-append s [] ys m = inr m
Mem-append s (x ∷ xs) ys (Memᴰ.head e) = inl (Memᴰ.head e)
Mem-append s (x ∷ xs) ys (Memᴰ.tail m) = elim (Mem-append s xs ys m) [
  | inl left ↦ inl (Memᴰ.tail left)
  | inr right ↦ inr right
]

Mem-push :
    (s : Snapshot) (o : Option Snapshot) (rest : List Snapshot)
    → Memᴰ s (push o rest)
    → (o ≡ some s) ⊎ Memᴰ s rest
Mem-push s none rest m = inr m
Mem-push s (some x) rest (Memᴰ.head e) = inl (ap some (sym e))
Mem-push s (some x) rest (Memᴰ.tail m) = inr m

-- No capability has two states.
abbrev Keyed : List State → Type 0
Keyed [] = Unit {0}
Keyed ((c, x) ∷ rest) = (state_of c rest ≡ none) × Keyed rest

newest_states-Keyed :
    (seen : List Uuid) (vs : List CapabilityVersion) → Keyed (newest_states seen vs)
unfolding newest_states elem
newest_states-Keyed seen [] = tt
newest_states-Keyed seen (v ∷ vs) = elim (Bool-cases (elem v.capability_id seen)) [
  | inl old ↦ rw (old, newest_states) (newest_states-Keyed seen vs)
  | inr new ↦
      rw (new, newest_states)
        (
          newest_states-seen v.capability_id (v.capability_id ∷ seen) vs
              (ground (arith, ==_refl v.capability_id)),
          newest_states-Keyed (v.capability_id ∷ seen) vs,
        )
]

-- A snapshot that the list shows of a capability that exists at the base.
abbrev ShownAtBase : List State → List CapabilityVersion → Snapshot → Uuid → Type 0
ShownAtBase base entries s d =
    (b : Snapshot) × (state_of d base ≡ some (some b))
    × (overridden b (latest_entry d entries) ≡ some s)

from_base-shows :
    (all base : List State) (entries : List CapabilityVersion) (s : Snapshot)
    → Keyed base
    → ((d : Uuid) (x : Option Snapshot) → state_of d base ≡ some x → state_of d all ≡ some x)
    → Memᴰ s (from_base base entries)
    → (d : Uuid) × ShownAtBase all entries s d
unfolding from_base state_of
from_base-shows all [] entries s k sub m = elim m [ ]
from_base-shows all ((c, none) ∷ rest) entries s (new, k) sub m =
    from_base-shows all rest entries s k (λ d x h. sub d x (ground (arith, ==→eq c d))) m
from_base-shows all ((c, some b) ∷ rest) entries s (new, k) sub m =
    elim (Mem-push s (overridden b (latest_entry c entries)) (from_base rest entries) m) [
      | inl here ↦ (c, (b, sub c (some b) (ground (arith, ==_refl c)), here))
      | inr there ↦
          from_base-shows all rest entries s k (λ d x h. sub d x (ground (arith, ==→eq c d))) there
    ]

-- A snapshot that the list shows of a capability that the branch created.
abbrev ShownCreated : List State → List CapabilityVersion → Snapshot → Uuid → Type 0
ShownCreated base entries s d =
    (v : CapabilityVersion) × (latest_entry d entries ≡ some v)
    × (state_of d base ≡ none)
    × (is_create v.change_type ≡ true)
    × (v.after_snapshot ≡ some s)

created_snapshot-some :
    (o : Option CapabilityVersion) (s : Snapshot)
    → created_snapshot o ≡ some s
    → (v : CapabilityVersion) × (o ≡ some v)
      × (is_create v.change_type ≡ true)
      × (v.after_snapshot ≡ some s)
created_snapshot-some none s h = absurd (ground arith)
created_snapshot-some (some v) s h = (v, refl, ground arith, ground arith)

created_in_branch-shows :
    (keys : List Uuid) (base : List State) (entries : List CapabilityVersion) (s : Snapshot)
    → Memᴰ s (created_in_branch keys base entries)
    → (d : Uuid) × ShownCreated base entries s d
unfolding created_in_branch
created_in_branch-shows [] base entries s m = elim m [ ]
created_in_branch-shows (c ∷ keys) base entries s m = elim (Option-cases (state_of c base)) [
  | inr (x, known) ↦ created_in_branch-shows keys base entries s (subst (Memᴰ s) (rw known refl) m)
  | inl unknown ↦
      elim (Mem-push s (created_snapshot (latest_entry c entries))
        (created_in_branch keys base entries) (subst (Memᴰ s) (rw unknown refl) m)) [
          | inl here ↦
              let (v, latest, made, after) =
                created_snapshot-some (latest_entry c entries) s here in
              (c, (v, latest, unknown, made, after))
          | inr there ↦ created_in_branch-shows keys base entries s there
        ]
]

shown-overridden :
    (o : Option CapabilityVersion) (b s : Snapshot) (d : Uuid)
    → overridden b o ≡ some s
    → shown o d (ok b) ≡ ok s
shown-overridden none b s d h = ground arith
shown-overridden (some v) b s d h = ground arith

shown-created :
    (v : CapabilityVersion) (s : Snapshot) (d : Uuid) (base : Result Snapshot)
    → is_create v.change_type ≡ true
    → v.after_snapshot ≡ some s
    → shown (some v) d base ≡ ok s
unfolding is_create is_delete
shown-created v s d base made after = ground arith

-- What a list was made of.
listed_as :
    (collate : List Snapshot → List Snapshot) (branch_id : Uuid) (now : Time) (db : Db)
    (listed : List Snapshot)
    → list_capabilities_in_branch collate branch_id now db ≡ ok listed
    → (b : ModelVersion) × (base : Uuid) × (get_branch branch_id db ≡ ok b)
      × (b.base_version_id ≡ some base)
      × (listed ≡ collate (projected (states_at base now db) (branch_entries branch_id db)))
unfolding list_capabilities_in_branch
listed_as collate branch_id now db listed h = elim (Result-cases (get_branch branch_id db)) [
  | inr (e, fails) ↦ absurd (ground arith)
  | inl (b, found) ↦ elim (Option-cases b.base_version_id) [
    | inl missing ↦ absurd (ground arith)
    | inr (base, there) ↦ (b, base, found, there, ground arith)
  ]
]

-- A snapshot of a projection is of a capability that the look-up shows in the same way, and that
-- exists at the base or whose last entry in the branch creates it.
projected-shows :
    (branch_id base : Uuid) (now : Time) (db : Db) (b : ModelVersion) (s : Snapshot)
    → get_branch branch_id db ≡ ok b
    → b.base_version_id ≡ some base
    → Memᴰ s (projected (states_at base now db) (branch_entries branch_id db))
    → (d : Uuid) × (get_capability_in_branch branch_id d now db ≡ ok s)
      × ((state_of d (states_at base now db) ≢ none)
          ⊎ ((v : CapabilityVersion) × (latest_entry d (branch_entries branch_id db) ≡ some v)
              × (is_create v.change_type ≡ true)))
unfolding projected get_capability_in_branch
projected-shows branch_id base now db b s found at m =
    elim (Mem-append s (from_base (states_at base now db) (branch_entries branch_id db)) _ m) [
      | inl old ↦
          let (d, (x, state, over)) =
            from_base-shows (states_at base now db) (states_at base now db)
              (branch_entries branch_id db) s
              (unfold states_at in newest_states-Keyed [] (entries_at base now db)) (λ d x h. h)
              old in
          (
            d,
            rw (found, at, state)
                (shown-overridden (latest_entry d (branch_entries branch_id db)) x s d over),
            inl (λ missing. ground arith),
          )
      | inr new ↦
          let (d, (v, latest, unknown, made, after)) =
            created_in_branch-shows _ (states_at base now db) (branch_entries branch_id db) s new in
          (d, rw (found, latest) (shown-created v s d _ made after), inr (v, latest, made))
    ]

-- Every snapshot that the list of a branch's capabilities holds is the one that the look-up of some
-- capability in that branch returns, if the sort by name only moves rows.
pub list_capabilities_in_branch-shown :
    (collate : List Snapshot → List Snapshot)
    (collate_keeps : (xs : List Snapshot) (s : Snapshot) → Memᴰ s (collate xs) → Memᴰ s xs)
    (branch_id : Uuid) (now : Time) (db : Db) (listed : List Snapshot) (s : Snapshot)
    → list_capabilities_in_branch collate branch_id now db ≡ ok listed
    → Memᴰ s listed
    → (d : Uuid) × (get_capability_in_branch branch_id d now db ≡ ok s)
list_capabilities_in_branch-shown collate collate_keeps branch_id now db listed s h m =
    let (b, base, found, at, same) = listed_as collate branch_id now db listed h in
    let (d, here, _) =
      projected-shows branch_id base now db b s found at
        (collate_keeps _ s (subst (Memᴰ s) same m)) in
    (d, here)
