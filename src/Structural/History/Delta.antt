-- ===== src/Structural/History/Delta.antt =====
-- The field-level delta of a history entry is enough to rebuild the row after the change.
use package.text.Mathlib.TextEquality.{eq_iff}
use package.text.Mathlib.TextPositions.{eq_refl}
use ecm_management.Base.{
  ◌≡◌, refl, sym, subst, ap, inl, inr, true, false, not, ◌&&◌, ◌||◌, Option, none, some, List, [],
  ◌∷◌, ◌++◌, String, arith, if◌then◌else◌, str_eq, find_first, Bool-cases, Option-cases, ==_refl,
}
use ecm_management.Schema.{
  Json, null, text, texts, flag, uuid, moment, merge_note, Snapshot, ChangedField,
}
use ecm_management.Structural.History.{
  entry, texts_eq, json_eq, entry_eq, keys, elem_text, new_keys, changed, compute_changed_fields,
}

-- The value that a key has after the change, told from the row before it and the delta.
unfoldable pub rebuilt : String → Snapshot → List ChangedField → Option Json
rebuilt key before fields = elim (find_first (λ f. str_eq f.key key) fields) [
  | none ↦ entry key before
  | some f ↦ f.after
]

elem_text-append :
    (t : String) (xs ys : List String) → elem_text t (xs ++ ys) ≡ elem_text t xs || elem_text t ys
unfolding elem_text
elem_text-append t [] ys = refl
elem_text-append t (x ∷ xs) ys = ground (arith, elem_text-append t xs ys)

entry-missing : (key : String) (s : Snapshot) → elem_text key (keys s) ≡ false → entry key s ≡ none
unfolding entry elem_text
entry-missing key [] h = refl
entry-missing key ((k, v) ∷ rest) h = ground (arith, entry-missing key rest)

new_keys-has :
    (key : String) (old : List String) (s : Snapshot) (v : Json)
    → elem_text key old ≡ false
    → entry key s ≡ some v
    → elem_text key (new_keys old s) ≡ true
unfolding new_keys entry elem_text
new_keys-has key old [] v h e = cc
new_keys-has key old ((k, w) ∷ rest) v h e = elim (Bool-cases (str_eq k key)) [
  | inl hit ↦
      let same : k ≡ key = (eq_iff k key).0 hit in
      ground (arith, subst (λ x. elem_text x old ≡ false) (sym same) h)
  | inr miss ↦ ground (arith, new_keys-has key old rest v h)
]

texts_eq_refl : (ts : List String) → texts_eq ts ts ≡ true
unfolding texts_eq
texts_eq_refl [] = refl
texts_eq_refl (t ∷ ts) = rw (eq_refl t) (texts_eq_refl ts)

json_eq_refl : (v : Json) → json_eq v v ≡ true
unfolding json_eq
json_eq_refl null = refl
json_eq_refl (text t) = eq_refl t
json_eq_refl (texts ts) = texts_eq_refl ts
json_eq_refl (flag true) = refl
json_eq_refl (flag false) = refl
json_eq_refl (uuid n) = ==_refl n
json_eq_refl (moment t) = ==_refl t
json_eq_refl (merge_note a b) = ground (arith, ==_refl a, ==_refl b)

entry_eq_refl : (o : Option Json) → entry_eq o o ≡ true
unfolding entry_eq
entry_eq_refl none = refl
entry_eq_refl (some v) = json_eq_refl v

-- What the delta says of a key: its value after the change, if the key is looked at and differs.
rebuilt-changed :
    (key : String) (ks : List String) (before after : Snapshot)
    → rebuilt key before (changed ks before after) ≡ (
        if elem_text key ks && not (entry_eq (entry key before) (entry key after))
        then entry key after
        else entry key before)
unfolding rebuilt changed elem_text find_first
rebuilt-changed key [] before after = refl
rebuilt-changed key (k ∷ ks) before after = elim (Bool-cases (str_eq k key)) [
  | inl hit ↦
      let same : key ≡ k = sym ((eq_iff k key).0 hit) in
      ground (
        arith,
        rebuilt-changed key ks before after,
        ap (λ x. entry x before) same,
        ap (λ x. entry x after) same,
      )
  | inr miss ↦ ground (arith, rebuilt-changed key ks before after)
]

looked_at :
    (key : String) (before after : Snapshot)
    → entry_eq (entry key before) (entry key after) ≡ false
    → elem_text key (keys before ++ new_keys (keys before) after) ≡ true
unfolding entry_eq
looked_at key before after h = elim (Bool-cases (elem_text key (keys before))) [
  | inl old ↦ ground (arith, elem_text-append key (keys before) (new_keys (keys before) after))
  | inr new ↦ elim (Option-cases (entry key after)) [
    | inl e ↦ absurd (ground (arith, entry-missing key before new))
    | inr (v, e) ↦ ground (
      arith,
      elem_text-append key (keys before) (new_keys (keys before) after),
      new_keys-has key (keys before) after v new e,
    )
  ]
]

-- From the row before an update and the delta that is recorded, the value of every key after the update
-- is told, as JSON compares values.
pub compute_changed_fields-rebuilds :
    (key : String) (before after : Snapshot)
    → entry_eq
        (rebuilt key before (compute_changed_fields (some before) (some after)))
        (entry key after)
      ≡ true
unfolding compute_changed_fields
compute_changed_fields-rebuilds key before after =
    elim (Bool-cases (entry_eq (entry key before) (entry key after))) [
      | inl same ↦
          rw (rebuilt-changed key (keys before ++ new_keys (keys before) after) before after)
            (ground (arith, same, entry_eq_refl (entry key after)))
      | inr differ ↦
          rw (rebuilt-changed key (keys before ++ new_keys (keys before) after) before after)
            (ground (arith, looked_at key before after differ, entry_eq_refl (entry key after)))
    ]
