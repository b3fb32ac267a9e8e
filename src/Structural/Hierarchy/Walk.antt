-- ===== src/Structural/Hierarchy/Walk.antt =====
-- The walk of `assertNotDescendant`: it ends, and its verdict says what lies on the parent chain.
use ecm_management.Base.{
  ℕ, zero, suc, ◌≤◌, ◌<◌, ◌≡◌, refl, ◌≢◌, inl, inr, false, not, Option, none, some, List, [], ◌∷◌,
  arith, ◌==◌, elem, find_first, count, length, count-le-length, Bool-cases, Option-cases, ==→eq,
  sym, subst,
}
use ecm_management.Schema.{Uuid, Capability}
use ecm_management.Structural.Hierarchy.{
  find_capability, parent_of, walk_up, clear, descendant, out_of_fuel,
}

-- The rows that the walk has not met.
abbrev unvisited : List Uuid → List Capability → ℕ
unvisited visited capabilities = count (λ c. not (elem c.id visited)) capabilities

unvisited-cons-le :
    (v : Uuid) (visited : List Uuid) (cs : List Capability)
    → unvisited (v ∷ visited) cs ≤ unvisited visited cs
unfolding count elem
unvisited-cons-le v visited [] = omega arith
unvisited-cons-le v visited (c ∷ cs) = ground (arith, unvisited-cons-le v visited cs)

-- A step to a row that is there and was not met leaves fewer of them.
unvisited-cons-lt :
    (v : Uuid) (visited : List Uuid) (cs : List Capability) {row : Capability}
    → find_capability v cs ≡ some row
    → elem v visited ≡ false
    → unvisited (v ∷ visited) cs < unvisited visited cs
unfolding count elem find_capability find_first
unvisited-cons-lt v visited [] found new = cc
unvisited-cons-lt v visited (c ∷ cs) {row} found new =
    ground (arith, unvisited-cons-lt v visited cs {row = row}, unvisited-cons-le v visited cs)

-- A row that is not there has no parent.
pub parent_of_missing :
    (id : Uuid) (cs : List Capability) → find_capability id cs ≡ none → parent_of id cs ≡ none
unfolding parent_of
parent_of_missing id cs e = ground arith

-- One round more than there are rows left to meet, and the walk has ended.
pub walk_up-ends :
    (fuel : ℕ) (id current : Uuid) (visited : List Uuid) (cs : List Capability)
    → unvisited visited cs ≤ fuel
    → walk_up (suc fuel) id (some current) visited cs ≢ out_of_fuel
unfolding walk_up
walk_up-ends zero id current visited cs h = elim (Option-cases (find_capability current cs)) [
  | inl e ↦ rw (parent_of_missing current cs e) (ground arith)
  | inr (row, e) ↦ ground (arith, unvisited-cons-lt current visited cs e)
]
walk_up-ends (suc fuel) id current visited cs h = elim (Option-cases (parent_of current cs)) [
  | inl e ↦ rw e (ground arith)
  | inr (p, e) ↦ elim (Option-cases (find_capability current cs)) [
    | inl e' ↦ rw (parent_of_missing current cs e') (ground arith)
    | inr (row, e') ↦ rw e (
        ground (
          arith,
          unvisited-cons-lt current visited cs e',
          walk_up-ends fuel id p (current ∷ visited) cs,
        ))
  ]
]

-- The loop of `assertNotDescendant` ends on every table, cyclic ones included: one round more than
-- there are rows are enough fuel.
pub assert_not_descendant-ends :
    (id candidate : Uuid) (cs : List Capability)
    → walk_up (suc (length cs)) id (some candidate) [] cs ≢ out_of_fuel
assert_not_descendant-ends id candidate cs =
    walk_up-ends (length cs) id candidate [] cs (count-le-length _ cs)

-- The chain from a link up to a root does not meet `id`.
pub data Avoids (id : Uuid) (cs : List Capability) : Option Uuid → Type 0 where
  top : Avoids id cs none
  step : (c : Uuid) → c ≢ id → Avoids id cs (parent_of c cs) → Avoids id cs (some c)

-- The chain from a link upwards meets `id`.
pub data Meets (id : Uuid) (cs : List Capability) : Option Uuid → Type 0 where
  here : Meets id cs (some id)
  up : (c : Uuid) → Meets id cs (parent_of c cs) → Meets id cs (some c)

pub Avoids-not-Meets :
    {id : Uuid} {cs : List Capability} {o : Option Uuid} → Avoids id cs o → Meets id cs o → ⊥
Avoids-not-Meets top m = elim m [ ]
Avoids-not-Meets (step c ne rest) here = ne refl
Avoids-not-Meets (step c ne rest) (up _ m) = Avoids-not-Meets rest m

pub walk_up-clear :
    (fuel : ℕ) (id : Uuid) (o : Option Uuid) (visited : List Uuid) (cs : List Capability)
    → walk_up fuel id o visited cs ≡ clear
    → Avoids id cs o
unfolding walk_up
walk_up-clear fuel id none visited cs h = top
walk_up-clear zero id (some c) visited cs h = cc
walk_up-clear (suc fuel) id (some c) visited cs h =
    step c (ground arith) (walk_up-clear fuel id (parent_of c cs) (c ∷ visited) cs (ground arith))

pub walk_up-descendant :
    (fuel : ℕ) (id : Uuid) (o : Option Uuid) (visited : List Uuid) (cs : List Capability)
    → walk_up fuel id o visited cs ≡ descendant
    → Meets id cs o
unfolding walk_up
walk_up-descendant fuel id none visited cs h = cc
walk_up-descendant zero id (some c) visited cs h = cc
walk_up-descendant (suc fuel) id (some c) visited cs h = elim (Bool-cases (c == id)) [
  | inl e ↦ subst (λ x. Meets id cs (some x)) (sym (==→eq c id e)) here
  | inr e ↦ up c (walk_up-descendant fuel id (parent_of c cs) (c ∷ visited) cs (ground arith))
]
