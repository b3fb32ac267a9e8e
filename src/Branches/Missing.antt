-- ===== src/Branches/Missing.antt =====
-- What the list of a branch's capabilities leaves out.
use mathlib.Core.List.{reverse, reverse_aux}
use ecm_management.Base.{
  ◌≡◌, ◌≢◌, refl, sym, ap, ◌∙◌, inl, inr, Bool, false, not, Option, none, some, List, [], ◌∷◌, ◌++◌,
  arith, ==→eq, ◌==◌, Bool-cases, Option-cases, elem, select, find_first,
}
use ecm_management.Schema.{
  Uuid, Time, CapabilityVersion, CapabilityVersionChangeType, ModelVersion, Snapshot, Db, ok,
}
use ecm_management.Versions.States.{is_create, State, is_delete, states_at, state_of}
use ecm_management.Branches.Lifecycle.{get_branch}
use ecm_management.Branches.Projection.{
  branch_entries, latest_entry, entry_keys, from_base, created_snapshot, created_in_branch,
  projected, list_capabilities_in_branch, get_capability_in_branch,
}

-- A history without the entries of one capability.
unfoldable pub without : Uuid → List CapabilityVersion → List CapabilityVersion
without c = select (λ v. not (v.capability_id == c))

latest_entry-without :
    (c d : Uuid) (vs : List CapabilityVersion)
    → (d == c) ≡ false
    → latest_entry d (without c vs) ≡ latest_entry d vs
unfolding latest_entry without find_first select
latest_entry-without c d [] other = refl
latest_entry-without c d (v ∷ vs) other = elim (Bool-cases (v.capability_id == d)) [
  | inl hit ↦ ground (arith, latest_entry-without c d vs other, ==→eq v.capability_id d hit)
  | inr miss ↦ ground (arith, latest_entry-without c d vs other)
]

state_of-rest :
    (c d : Uuid) (x : Option Snapshot) (rest : List State)
    → state_of c ((d, x) ∷ rest) ≡ none
    → ((d == c) ≡ false) × (state_of c rest ≡ none)
unfolding state_of
state_of-rest c d x rest h = elim (Option-cases (state_of c rest)) [
  | inr (s, found) ↦ absurd (ground arith)
  | inl unknown ↦ elim (Bool-cases (d == c)) [
    | inl hit ↦ absurd (ground arith)
    | inr other ↦ (other, unknown)
  ]
]

from_base-without :
    (c : Uuid) (base : List State) (vs : List CapabilityVersion)
    → state_of c base ≡ none
    → from_base base (without c vs) ≡ from_base base vs
unfolding from_base state_of
from_base-without c [] vs unknown = refl
from_base-without c ((d, none) ∷ rest) vs unknown =
    from_base-without c rest vs (state_of-rest c d none rest unknown).1
from_base-without c ((d, some b) ∷ rest) vs unknown =
    let (other, later) = state_of-rest c d (some b) rest unknown in
    rw (latest_entry-without c d vs other, from_base-without c rest vs later) refl

created_in_branch-without :
    (c : Uuid) (keys : List Uuid) (base : List State) (vs : List CapabilityVersion)
    → state_of c base ≡ none
    → created_snapshot (latest_entry c vs) ≡ none
    → created_in_branch (select (λ d. not (d == c)) keys) base (without c vs)
      ≡ created_in_branch keys base vs
unfolding created_in_branch select
created_in_branch-without c [] base vs unknown quiet = refl
created_in_branch-without c (d ∷ keys) base vs unknown quiet = elim (Bool-cases (d == c)) [
  | inl hit ↦
      rw (hit, ==→eq d c hit, unknown, quiet)
        (created_in_branch-without c keys base vs unknown quiet)
  | inr other ↦
      rw
        (
          other,
          created_in_branch,
          latest_entry-without c d vs other,
          created_in_branch-without c keys base vs unknown quiet,
        )
        refl
]

entry_keys-without :
    (c : Uuid) (seen seen' : List Uuid) (vs : List CapabilityVersion)
    → ((d : Uuid) → (d == c) ≡ false → elem d seen' ≡ elem d seen)
    → entry_keys seen' (without c vs) ≡ select (λ d. not (d == c)) (entry_keys seen vs)
unfolding entry_keys without select elem
entry_keys-without c seen seen' [] same = refl
entry_keys-without c seen seen' (v ∷ vs) same = elim (Bool-cases (v.capability_id == c)) [
  | inl hit ↦ elim (Bool-cases (elem v.capability_id seen)) [
    | inl old ↦ rw (hit, old) (entry_keys-without c seen seen' vs same)
    | inr new ↦
        rw (new, hit)
          (entry_keys-without c (v.capability_id ∷ seen) seen' vs (λ d other.
            ground (arith, same d other, ==→eq v.capability_id c hit, ==→eq v.capability_id d)))
  ]
  | inr other ↦ elim (Bool-cases (elem v.capability_id seen)) [
    | inl old ↦
        rw (other, old, entry_keys, same v.capability_id other ∙ old)
          (entry_keys-without c seen seen' vs same)
    | inr new ↦
        rw (other, new, entry_keys, same v.capability_id other ∙ new, other)
          (ap (λ ks. v.capability_id ∷ ks)
            (entry_keys-without c (v.capability_id ∷ seen) (v.capability_id ∷ seen') vs
              (λ d away. ground (arith, same d away))))
  ]
]

select-reverse_aux :
    (p : CapabilityVersion → Bool) (xs acc : List CapabilityVersion)
    → select p (reverse_aux xs acc) ≡ reverse_aux (select p xs) (select p acc)
unfolding select
select-reverse_aux p [] acc = refl
select-reverse_aux p (x ∷ xs) acc = elim (Bool-cases (p x)) [
  | inl keep ↦ rw keep (select-reverse_aux p xs (x ∷ acc) ∙ rw keep refl)
  | inr drop ↦ rw drop (select-reverse_aux p xs (x ∷ acc) ∙ rw drop refl)
]

reverse-without :
    (c : Uuid) (vs : List CapabilityVersion) → reverse (without c vs) ≡ without c (reverse vs)
unfolding without select
reverse-without c vs = sym (select-reverse_aux (λ v. not (v.capability_id == c)) vs [])

-- A capability that is not at the base and that the branch does not create adds nothing.
projected-without :
    (c : Uuid) (base : List State) (vs : List CapabilityVersion)
    → state_of c base ≡ none
    → created_snapshot (latest_entry c vs) ≡ none
    → projected base (without c vs) ≡ projected base vs
unfolding projected
projected-without c base vs unknown quiet = rw (from_base-without c base vs unknown) (
    ap (λ ss. from_base base vs ++ ss)
      (ap (λ ks. created_in_branch ks base (without c vs))
          (ap (entry_keys []) (reverse-without c vs)
            ∙ entry_keys-without c [] [] (reverse vs) (λ d other. refl))
        ∙ created_in_branch-without c (entry_keys [] (reverse vs)) base vs unknown quiet))

is_create-no :
    (t : CapabilityVersionChangeType) → t ≢ CapabilityVersionChangeType.create → is_create t ≡ false
unfolding is_create
is_create-no CapabilityVersionChangeType.create h = absurd (h refl)
is_create-no _ h = refl

is_delete-no :
    (t : CapabilityVersionChangeType) → t ≢ CapabilityVersionChangeType.delete → is_delete t ≡ false
unfolding is_delete
is_delete-no CapabilityVersionChangeType.delete h = absurd (h refl)
is_delete-no _ h = refl

-- A capability that the base lacks, whose last entry in the branch has a snapshot and neither creates
-- nor deletes it, is returned by the look-up, yet the list is the one that the branch would give
-- without any of the capability's entries.
pub list_misses_updated :
    (collate : List Snapshot → List Snapshot) (branch_id base : Uuid) (now : Time) (db : Db)
    (b : ModelVersion) (c : Uuid) (v : CapabilityVersion) (after : Snapshot)
    → get_branch branch_id db ≡ ok b
    → b.base_version_id ≡ some base
    → state_of c (states_at base now db) ≡ none
    → latest_entry c (branch_entries branch_id db) ≡ some v
    → v.change_type ≢ CapabilityVersionChangeType.create
    → v.change_type ≢ CapabilityVersionChangeType.delete
    → v.after_snapshot ≡ some after
    → (get_capability_in_branch branch_id c now db ≡ ok after)
      × (list_capabilities_in_branch collate branch_id now db
          ≡ ok (
              collate
                (projected (states_at base now db) (without c (branch_entries branch_id db)))))
unfolding list_capabilities_in_branch get_capability_in_branch
list_misses_updated collate branch_id base now db b c v after found at unknown latest not_made
      not_deleted kept =
    let no_create = is_create-no v.change_type not_made in
    let no_delete = is_delete-no v.change_type not_deleted in
    (
      rw (found, latest, no_delete, kept) refl,
      rw (found, at)
          (ap (λ ss. ok (collate ss))
            (sym (
              projected-without c (states_at base now db) (branch_entries branch_id db) unknown
                (rw (latest, no_create) refl)))),
    )
