-- ===== src/Mappings/Filter.antt =====
-- The filter of a list of mappings.
use text.Mathlib.TextEquality.{eq_iff}
use ecm_management.Base.{
  ◌≡◌, refl, sym, ap, subst, ◌∙◌, true, Bool, inl, inr, Option, none, some, List, [], ◌∷◌, arith,
  select, Memᴰ, String, str_eq, ==→eq, ==_refl, ◌==◌, Bool-cases,
}
use ecm_management.Schema.{Uuid, Mapping, MappingState}
use ecm_management.Mappings.{ListMappingsDto, same_state, passes, matches}

-- A mapping has what the filter asks for; what is not given is not asked for.
pub record PassesFilter (dto : ListMappingsDto) (m : Mapping) : Type 0 where
  pub by_state : (s : MappingState) → dto.state ≡ some s → m.state ≡ s
  pub by_type : (t : String) → dto.mapping_type ≡ some t → m.mapping_type ≡ t
  pub by_system : (t : String) → dto.system_id ≡ some t → m.system_id ≡ t
  pub by_capability : (c : Uuid) → dto.capability_id ≡ some c → m.capability_id ≡ c

same_state→eq : (s t : MappingState) → same_state s t ≡ true → s ≡ t
same_state→eq MappingState.active MappingState.active h = refl
same_state→eq MappingState.inactive MappingState.inactive h = refl
same_state→eq MappingState.pending MappingState.pending h = refl
same_state→eq MappingState.active MappingState.inactive h = absurd (ground arith)
same_state→eq MappingState.active MappingState.pending h = absurd (ground arith)
same_state→eq MappingState.inactive MappingState.active h = absurd (ground arith)
same_state→eq MappingState.inactive MappingState.pending h = absurd (ground arith)
same_state→eq MappingState.pending MappingState.active h = absurd (ground arith)
same_state→eq MappingState.pending MappingState.inactive h = absurd (ground arith)

same_state_refl : (s : MappingState) → same_state s s ≡ true
same_state_refl MappingState.active = refl
same_state_refl MappingState.inactive = refl
same_state_refl MappingState.pending = refl

passes_given :
    {A : Type 0} (test : A → Bool) (asked : Option A) (a : A)
    → passes test asked ≡ true
    → asked ≡ some a
    → test a ≡ true
passes_given test asked a h given = subst (λ o. passes test o ≡ true) given h

passes_if :
    {A : Type 0} (test : A → Bool) (asked : Option A)
    → ((a : A) → asked ≡ some a → test a ≡ true)
    → passes test asked ≡ true
passes_if test none h = refl
passes_if test (some a) h = h a refl

pub matches-PassesFilter :
    (dto : ListMappingsDto) (m : Mapping) → matches dto m ≡ true → PassesFilter dto m
unfolding matches
matches-PassesFilter dto m h = record {
  by_state =
      λ s e. same_state→eq m.state s (passes_given (same_state m.state) _ s (ground arith) e);
  by_type = λ t e.
      (eq_iff m.mapping_type t).0 (passes_given (str_eq m.mapping_type) _ t (ground arith) e);
  by_system =
      λ t e. (eq_iff m.system_id t).0 (passes_given (str_eq m.system_id) _ t (ground arith) e);
  by_capability = λ c e.
      ==→eq m.capability_id c (passes_given (λ d. m.capability_id == d) _ c (ground arith) e);
}

pub PassesFilter-matches :
    (dto : ListMappingsDto) (m : Mapping) → PassesFilter dto m → matches dto m ≡ true
unfolding matches
PassesFilter-matches dto m p =
    let a = passes_if (same_state m.state) dto.state (λ s e.
      subst (λ x. same_state m.state x ≡ true) (p.by_state s e) (same_state_refl m.state)) in
    let b =
      passes_if (str_eq m.mapping_type) dto.mapping_type
        (λ t e. (eq_iff m.mapping_type t).1 (p.by_type t e)) in
    let c =
      passes_if (str_eq m.system_id) dto.system_id
        (λ t e. (eq_iff m.system_id t).1 (p.by_system t e)) in
    let d =
      passes_if (λ c. m.capability_id == c) dto.capability_id
        (λ x e.
          subst (λ y. (m.capability_id == y) ≡ true) (p.by_capability x e)
            (==_refl m.capability_id)) in
    rw (a, b, c, d) refl

pub Mem-select :
    (p : Mapping → Bool) (m : Mapping) (ms : List Mapping)
    → Memᴰ m (select p ms)
    → Memᴰ m ms × (p m ≡ true)
unfolding select
Mem-select p m [] h = elim h [ ]
Mem-select p m (x ∷ xs) h = elim (Bool-cases (p x)) [
  | inr out ↦
      let (there, is_so) = Mem-select p m xs (subst (Memᴰ m) (rw out refl) h) in
      (Memᴰ.tail there, is_so)
  | inl keep ↦ first (Mem-select p m xs) keep (subst (Memᴰ m) (rw keep refl) h)
]
  where
    first :
        (Memᴰ m (select p xs) → Memᴰ m xs × (p m ≡ true))
        → p x ≡ true
        → Memᴰ m (x ∷ select p xs)
        → Memᴰ m (x ∷ xs) × (p m ≡ true)
    first later keep (Memᴰ.head e) = (Memᴰ.head e, ap p e ∙ keep)
    first later keep (Memᴰ.tail t) = let (there, is_so) = later t in (Memᴰ.tail there, is_so)

pub select-Mem :
    (p : Mapping → Bool) (m : Mapping) (ms : List Mapping)
    → Memᴰ m ms
    → p m ≡ true
    → Memᴰ m (select p ms)
unfolding select
select-Mem p m [] h is_so = elim h [ ]
select-Mem p m (x ∷ xs) (Memᴰ.head e) is_so = rw (sym (ap p e) ∙ is_so) (Memᴰ.head e)
select-Mem p m (x ∷ xs) (Memᴰ.tail h) is_so = elim (Bool-cases (p x)) [
  | inl keep ↦ rw keep (Memᴰ.tail (select-Mem p m xs h is_so))
  | inr out ↦ rw out (select-Mem p m xs h is_so)
]
