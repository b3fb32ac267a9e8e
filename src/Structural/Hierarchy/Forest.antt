-- ===== src/Structural/Hierarchy/Forest.antt =====
-- The capability table as a forest: every chain of parents ends. What `assertNotDescendant` answers
-- there, and what happens to the forest when rows get another parent.
use ecm_management.Base.{
  ℕ, zero, suc, ◌≤◌, ◌<◌, ◌≡◌, refl, sym, ap, subst, ◌≢◌, ◌⊎◌, inl, inr, false, Option, none, some,
  List, [], ◌∷◌, arith, ◌==◌, length, All, elem, Bool-cases, ==→eq,
}
use ecm_management.Schema.{Uuid, Capability, ok, err, circular_reference}
use ecm_management.Structural.Hierarchy.{
  parent_of, walk_up, verdict_result, assert_not_descendant, Verdict, clear, descendant, cycle,
  out_of_fuel,
}
use ecm_management.Structural.Hierarchy.Walk.{
  Avoids, Meets, assert_not_descendant-ends, walk_up-clear, walk_up-descendant,
}

-- A link whose chain has `n` capabilities up to its root.
pub data Height (cs : List Capability) : ℕ → Option Uuid → Type 0 where
  root : Height cs zero none
  child : {n : ℕ} (c : Uuid) → Height cs n (parent_of c cs) → Height cs (suc n) (some c)

abbrev pub IsForest : List Capability → Type 0
IsForest cs = (c : Uuid) → (n : ℕ) × Height cs n (some c)

-- A chain has one height.
Height-unique :
    {cs : List Capability} {m n : ℕ} {o : Option Uuid} → Height cs m o → Height cs n o → m ≡ n
Height-unique root root = refl
Height-unique (child c h) (child _ k) = ap suc (Height-unique h k)

-- What the walk has met stands higher than where it is.
abbrev Above : List Capability → ℕ → List Uuid → Type 0
Above cs n visited = All (λ v. (m : ℕ) × Height cs m (some v) × n < m) visited

Above-mono :
    (cs : List Capability) (m n : ℕ) (visited : List Uuid)
    → m ≤ n
    → Above cs n visited
    → Above cs m visited
Above-mono cs m n [] h a = tt
Above-mono cs m n (v ∷ vs) h ((k, hv, lt), rest) =
    ((k, hv, omega arith), Above-mono cs m n vs h rest)

Above-not-elem :
    (cs : List Capability) (n : ℕ) (c : Uuid) (visited : List Uuid)
    → Height cs n (some c)
    → Above cs n visited
    → elem c visited ≡ false
unfolding elem
Above-not-elem cs n c [] h a = refl
Above-not-elem cs n c (v ∷ vs) h ((k, hv, lt), rest) = elim (Bool-cases (v == c)) [
  | inl e ↦
      absurd (omega (arith, Height-unique h (subst (λ x. Height cs k (some x)) (==→eq v c e) hv)))
  | inr e ↦ ground (arith, Above-not-elem cs n c vs h rest)
]

-- In a forest the walk never reports a cycle.
walk_up-no_cycle :
    {cs : List Capability} (fuel : ℕ) (id : Uuid) {n : ℕ} {o : Option Uuid} (visited : List Uuid)
    → Height cs n o
    → Above cs n visited
    → walk_up fuel id o visited cs ≢ cycle
unfolding walk_up
walk_up-no_cycle zero id visited root a = λ e. cc
walk_up-no_cycle zero id visited (child c h) a = λ e. cc
walk_up-no_cycle (suc fuel) id visited root a = λ e. cc
walk_up-no_cycle {cs = cs} (suc fuel) id visited (child {n = n} c h) a = ground (
  arith,
  Above-not-elem cs (suc n) c visited (child c h) a,
  walk_up-no_cycle fuel id (c ∷ visited) h
      ((suc n, child c h, omega arith), Above-mono cs n (suc n) visited (omega arith) a),
)

-- In a forest `assertNotDescendant` throws the circular-reference error exactly when the candidate's
-- chain of parents meets the capability, and lets it pass exactly when the chain avoids it.
pub assert_not_descendant-decides :
    (id candidate : Uuid) (cs : List Capability)
    → IsForest cs
    → ((assert_not_descendant id candidate cs ≡ ok tt) × Avoids id cs (some candidate))
      ⊎ ((assert_not_descendant id candidate cs ≡ err circular_reference)
          × Meets id cs (some candidate))
unfolding assert_not_descendant
assert_not_descendant-decides id candidate cs forest = go _ refl
  where
    fuel : ℕ
    fuel = suc (length cs)

    go :
        (v : Verdict)
        → walk_up fuel id (some candidate) [] cs ≡ v
        → ((verdict_result (walk_up fuel id (some candidate) [] cs) ≡ ok tt)
            × Avoids id cs (some candidate))
          ⊎ ((verdict_result (walk_up fuel id (some candidate) [] cs) ≡ err circular_reference)
              × Meets id cs (some candidate))
    go clear e = inl (rw e refl, walk_up-clear fuel id (some candidate) [] cs e)
    go descendant e = inr (rw e refl, walk_up-descendant fuel id (some candidate) [] cs e)
    go cycle e = absurd (walk_up-no_cycle fuel id [] (forest candidate).1 tt e)
    go out_of_fuel e = absurd (assert_not_descendant-ends id candidate cs e)

-- Whatever the table holds, a candidate that passes has a chain that avoids the capability.
pub assert_not_descendant-Avoids :
    (id candidate : Uuid) (cs : List Capability)
    → assert_not_descendant id candidate cs ≡ ok tt
    → Avoids id cs (some candidate)
unfolding assert_not_descendant
assert_not_descendant-Avoids id candidate cs h =
    walk_up-clear (suc (length cs)) id (some candidate) [] cs (ground arith)

-- A chain in `cs` that `ds` links in the same way has the same height there.
pub Height-kept :
    {cs ds : List Capability} (P : Option Uuid → Type 0) {n : ℕ} {o : Option Uuid}
    → ((c : Uuid) → P (some c) → (parent_of c ds ≡ parent_of c cs) × P (parent_of c cs))
    → P o
    → Height cs n o
    → Height ds n o
Height-kept P keep p root = root
Height-kept {ds = ds} P keep p (child {n = n} c h) =
    let (e, q) = keep c p in child c (subst (λ o. Height ds n o) (sym e) (Height-kept P keep q h))

-- Each capability keeps its parent or moves under the link `target`.
abbrev pub Relinks : List Capability → List Capability → Option Uuid → Type 0
Relinks cs ds target = (c : Uuid) → (parent_of c ds ≡ parent_of c cs) ⊎ (parent_of c ds ≡ target)

Height-relinked :
    {cs ds : List Capability} {target : Option Uuid} {k : ℕ}
    → Relinks cs ds target
    → Height ds k target
    → {n : ℕ} {o : Option Uuid} → Height cs n o
    → (m : ℕ) × Height ds m o
Height-relinked moved t root = (zero, root)
Height-relinked {ds = ds} {k = k} moved t (child c h) = elim (moved c) [
  | inl e ↦
      let (m, h') = Height-relinked moved t h in
      (suc m, child c (subst (λ o. Height ds m o) (sym e) h'))
  | inr e ↦ (suc k, child c (subst (λ o. Height ds k o) (sym e) t))
]

-- A forest whose capabilities move under a link that still has a root stays a forest.
pub Relinks-IsForest :
    {cs ds : List Capability} {target : Option Uuid} {k : ℕ}
    → Relinks cs ds target
    → Height ds k target
    → IsForest cs
    → IsForest ds
Relinks-IsForest moved t forest c = Height-relinked moved t (forest c).1
