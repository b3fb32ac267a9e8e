-- ===== src/Versions/Newest.antt =====
-- What `buildCapabilityStateAtVersion` and `getCapabilityStateAtVersion` find of one capability.
use ecm_management.Base.{
  ◌≡◌, ◌≢◌, refl, sym, subst, inl, inr, true, false, Option, none, some, List, [], ◌∷◌, ◌==◌, ==→eq,
  ==_refl, select, elem, find_first, arith, Bool-cases,
}
use ecm_management.Schema.{Uuid, Time, CapabilityVersion, CapabilityVersionChangeType, Snapshot, Db}
use ecm_management.Versions.States.{
  versions_at, is_delete, target_snapshot, newest_states, entries_at, states_at, state_of,
}
use ecm_management.Versions.Range.{InRange, elem-InRange, InRange-elem}

pub newest_states-seen :
    (c : Uuid) (seen : List Uuid) (vs : List CapabilityVersion)
    → elem c seen ≡ true
    → state_of c (newest_states seen vs) ≡ none
unfolding newest_states state_of elem
newest_states-seen c seen [] h = refl
newest_states-seen c seen (v ∷ vs) h = ground (
  arith,
  newest_states-seen c seen vs,
  newest_states-seen c (v.capability_id ∷ seen) vs,
  ==→eq v.capability_id c,
)

abbrev as_state : Option CapabilityVersion → Option (Option Snapshot)
as_state none = none
as_state (some v) = some (target_snapshot v)

newest_states-state_of :
    (c : Uuid) (seen : List Uuid) (vs : List CapabilityVersion)
    → elem c seen ≡ false
    → state_of c (newest_states seen vs) ≡ as_state (find_first (λ v. v.capability_id == c) vs)
unfolding newest_states state_of find_first elem
newest_states-state_of c seen [] new = refl
newest_states-state_of c seen (v ∷ vs) new = elim (Bool-cases (v.capability_id == c)) [
  | inl hit ↦ ground (
    arith,
    subst (λ x. elem x seen ≡ false) (sym (==→eq v.capability_id c hit)) new,
    newest_states-seen c (v.capability_id ∷ seen) vs,
  )
  | inr miss ↦ ground (
    arith,
    newest_states-state_of c seen vs new,
    newest_states-state_of c (v.capability_id ∷ seen) vs,
  )
]

-- What a history, newest entry first, says of a capability at a version: nothing, that it was
-- deleted, or its snapshot after the newest entry in range.
pub data StateOf (version_id : Uuid) (now : Time) (db : Db) (c : Uuid)
    : List CapabilityVersion → Option (Option Snapshot) → Type 0 where
  untouched : StateOf version_id now db c [] none
  of_another :
      {v : CapabilityVersion} {vs : List CapabilityVersion} {s : Option (Option Snapshot)}
      → v.capability_id ≢ c
      → StateOf version_id now db c vs s
      → StateOf version_id now db c (v ∷ vs) s
  out_of_range :
      {v : CapabilityVersion} {vs : List CapabilityVersion} {s : Option (Option Snapshot)}
      → ¬ InRange version_id now db v.model_version_id
      → StateOf version_id now db c vs s
      → StateOf version_id now db c (v ∷ vs) s
  deletes :
      {v : CapabilityVersion} {vs : List CapabilityVersion}
      → v.capability_id ≡ c
      → InRange version_id now db v.model_version_id
      → v.change_type ≡ CapabilityVersionChangeType.delete
      → StateOf version_id now db c (v ∷ vs) (some none)
  leaves :
      {v : CapabilityVersion} {vs : List CapabilityVersion}
      → v.capability_id ≡ c
      → InRange version_id now db v.model_version_id
      → v.change_type ≢ CapabilityVersionChangeType.delete
      → StateOf version_id now db c (v ∷ vs) (some v.after_snapshot)

is_delete-only :
    (t : CapabilityVersionChangeType) → is_delete t ≡ true → t ≡ CapabilityVersionChangeType.delete
unfolding is_delete
is_delete-only CapabilityVersionChangeType.delete h = refl
is_delete-only _ h = absurd (ground arith)

newest-StateOf :
    (version_id : Uuid) (now : Time) (db : Db) (c : Uuid) (v : CapabilityVersion)
    (vs : List CapabilityVersion)
    → v.capability_id ≡ c
    → InRange version_id now db v.model_version_id
    → StateOf version_id now db c (v ∷ vs) (some (target_snapshot v))
unfolding is_delete
newest-StateOf version_id now db c v vs e r = elim (Bool-cases (is_delete v.change_type)) [
  | inl gone ↦
      subst (λ s. StateOf version_id now db c (v ∷ vs) (some s)) (rw gone refl)
        (deletes e r (is_delete-only v.change_type gone))
  | inr stays ↦
      subst (λ s. StateOf version_id now db c (v ∷ vs) (some s)) (rw stays refl)
        (leaves e r (λ d. ground arith))
]

-- The first entry of the capability in range is what the history says.
first-StateOf :
    (version_id : Uuid) (now : Time) (db : Db) (c : Uuid) (vs : List CapabilityVersion)
    → StateOf version_id now db c vs (
        as_state (
          find_first
            (λ v. v.capability_id == c)
            (select (λ v. elem v.model_version_id (versions_at version_id now db)) vs)))
unfolding find_first select
first-StateOf version_id now db c [] = untouched
first-StateOf version_id now db c (v ∷ vs) =
    elim (Bool-cases (elem v.model_version_id (versions_at version_id now db))) [
      | inr out ↦ subst (StateOf version_id now db c (v ∷ vs)) (rw out refl) (
          out_of_range (λ r. ground (arith, InRange-elem version_id now db v.model_version_id r))
            (first-StateOf version_id now db c vs))
      | inl within ↦ elim (Bool-cases (v.capability_id == c)) [
        | inr other ↦
            subst (StateOf version_id now db c (v ∷ vs)) (rw (within, find_first, other) refl)
              (of_another (λ e. ground (arith, ==_refl c)) (first-StateOf version_id now db c vs))
        | inl hit ↦
            subst (StateOf version_id now db c (v ∷ vs)) (rw (within, find_first, hit) refl) (
              newest-StateOf version_id now db c v vs (==→eq v.capability_id c hit)
                (elem-InRange version_id now db v.model_version_id within))
      ]
    ]

-- The state of a capability at a version is what its newest entry in range says: its snapshot after
-- that entry, or nothing if the entry deletes it; without such an entry it has no state. In range
-- are the asked version and those published no later than it was published (else made; the moment of
-- the question, if there is no such version), all of them versions of MAIN.
pub states_at-newest :
    (version_id : Uuid) (now : Time) (db : Db) (c : Uuid)
    → StateOf version_id now db c db.capability_versions (state_of c (states_at version_id now db))
unfolding states_at entries_at
states_at-newest version_id now db c =
    subst (StateOf version_id now db c db.capability_versions)
      (sym (newest_states-state_of c [] (entries_at version_id now db) (unfold elem in refl)))
      (first-StateOf version_id now db c db.capability_versions)
