-- ===== src/Base/Tables.antt =====
-- A table is a list of rows. The functions read the queries that the services make: `find_first`
-- is findUnique and findFirst, `select` findMany, `update_many` and `delete_many` their namesakes.
use mathlib.Core.Path.{◌≡◌}
use mathlib.Core.Bool.{Bool, true, not}
use mathlib.Core.List.{List, [], ◌∷◌}
use mathlib.Core.Option.{Option, none, some}
use native.Mathlib.Omega.{arith}
use ecm_management.Base.Tests.{if◌then◌else◌}
use ecm_management.Base.Lists.{select}

module _ {ℓ} {A : Type ℓ} where
  unfoldable pub find_first : (A → Bool) → List A → Option A
  find_first p [] = none
  find_first p (x ∷ xs) = let rest = find_first p xs in if p x then some x else rest

  unfoldable pub update_many : (A → Bool) → (A → A) → List A → List A
  update_many p f [] = []
  update_many p f (x ∷ xs) = (if p x then f x else x) ∷ update_many p f xs

  unfoldable pub delete_many : (A → Bool) → List A → List A
  unfolding select
  delete_many p xs = select (λ x. not (p x)) xs

  pub find_first-passes :
      (p : A → Bool) (xs : List A) (a : A) → find_first p xs ≡ some a → p a ≡ true
  unfolding find_first
  find_first-passes p [] a h = cc
  find_first-passes p (x ∷ xs) a h = ground (arith, find_first-passes p xs a)
