-- ===== src/Versions/OneDraft/Rows.antt =====
-- Rows of ModelVersion under updates by id, and how many of them pass a test.
use ecm_management.Base.{
  ℕ, ◌+◌, ◌≡◌, refl, Bool, true, false, none, some, List, [], ◌∷◌, map, arith, ◌==◌, ==→eq, ==_refl,
  Bool-cases, find_first, update_many, elem, IsDistinct, count, inl, inr,
}
use ecm_management.Schema.{Uuid, ModelVersion}

abbrev pub version_ids : List ModelVersion → List Uuid
version_ids = map λ v. v.id

abbrev pub one_if : Bool → ℕ
one_if true = 1
one_if false = 0

pub version_ids-update :
    (p : ModelVersion → Bool) (f : ModelVersion → ModelVersion) (vs : List ModelVersion)
    → ((v : ModelVersion) → (f v).id ≡ v.id)
    → version_ids (update_many p f vs) ≡ version_ids vs
unfolding update_many
version_ids-update p f [] keep = refl
version_ids-update p f (v ∷ vs) keep = ground (arith, keep v, version_ids-update p f vs keep)

pub find_first-none-count :
    (p : ModelVersion → Bool) (vs : List ModelVersion) → find_first p vs ≡ none → count p vs ≡ 0
unfolding find_first count
find_first-none-count p [] h = refl
find_first-none-count p (v ∷ vs) h = ground (arith, find_first-none-count p vs)

pub find_first-elem :
    (p : ModelVersion → Bool) (vs : List ModelVersion) (d : ModelVersion)
    → find_first p vs ≡ some d
    → elem d.id (version_ids vs) ≡ true
unfolding find_first elem
find_first-elem p [] d h = cc
find_first-elem p (v ∷ vs) d h = ground (arith, find_first-elem p vs d, ==_refl d.id)

-- With distinct ids, the row that any test finds first is the row of its id.
pub find_first-by_id :
    (p : ModelVersion → Bool) (vs : List ModelVersion) (d : ModelVersion)
    → IsDistinct (version_ids vs)
    → find_first p vs ≡ some d
    → find_first (λ v. v.id == d.id) vs ≡ some d
unfolding find_first
find_first-by_id p [] d ids h = cc
find_first-by_id p (v ∷ vs) d (new, ids) h =
    ground
      (arith, find_first-by_id p vs d ids, find_first-elem p vs d, ==_refl d.id, ==→eq v.id d.id)

count-update-miss :
    (i : Uuid) (p : ModelVersion → Bool) (f : ModelVersion → ModelVersion) (vs : List ModelVersion)
    → elem i (version_ids vs) ≡ false
    → count p (update_many (λ v. v.id == i) f vs) ≡ count p vs
unfolding update_many count elem
count-update-miss i p f [] h = refl
count-update-miss i p f (v ∷ vs) h = ground (arith, count-update-miss i p f vs)

-- An update of one row changes a count by that row alone.
pub count-update :
    (i : Uuid) (p : ModelVersion → Bool) (f : ModelVersion → ModelVersion) (vs : List ModelVersion)
    (r : ModelVersion)
    → IsDistinct (version_ids vs)
    → find_first (λ v. v.id == i) vs ≡ some r
    → count p (update_many (λ v. v.id == i) f vs) + one_if (p r) ≡ count p vs + one_if (p (f r))
unfolding update_many count find_first
count-update i p f [] r ids h = cc
count-update i p f (v ∷ vs) r (new, ids) h = elim (Bool-cases (v.id == i)) [
  | inl hit ↦ ground (arith, ==→eq v.id i hit, count-update-miss i p f vs)
  | inr miss ↦ ground (arith, count-update i p f vs r ids)
]

-- An update of rows that fail a test into rows that fail it.
pub count-update-apart :
    (p q : ModelVersion → Bool) (f : ModelVersion → ModelVersion) (vs : List ModelVersion)
    → ((v : ModelVersion) → p v ≡ true → (q v ≡ false) × (q (f v) ≡ false))
    → (count q (update_many p f vs) ≡ count q vs)
      × (find_first q (update_many p f vs) ≡ find_first q vs)
unfolding update_many count find_first
count-update-apart p q f [] h = (refl, refl)
count-update-apart p q f (v ∷ vs) h =
    let rest = count-update-apart p q f vs h in ground (arith, h v, rest.0, rest.1)

-- An update of every row that passes a test into a row that fails it.
pub count-update-clears :
    (p : ModelVersion → Bool) (f : ModelVersion → ModelVersion) (vs : List ModelVersion)
    → ((v : ModelVersion) → p v ≡ true → p (f v) ≡ false)
    → count p (update_many p f vs) ≡ 0
unfolding update_many count
count-update-clears p f [] h = refl
count-update-clears p f (v ∷ vs) h = ground (arith, h v, count-update-clears p f vs h)

pub find_first-update :
    (i : Uuid) (f : ModelVersion → ModelVersion) (vs : List ModelVersion) (r : ModelVersion)
    → ((v : ModelVersion) → (f v).id ≡ v.id)
    → find_first (λ v. v.id == i) vs ≡ some r
    → find_first (λ v. v.id == i) (update_many (λ v. v.id == i) f vs) ≡ some (f r)
unfolding find_first update_many
find_first-update i f [] r keep h = cc
find_first-update i f (v ∷ vs) r keep h = ground (arith, keep v, find_first-update i f vs r keep)
