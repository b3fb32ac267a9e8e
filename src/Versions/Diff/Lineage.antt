-- ===== src/Versions/Diff/Lineage.antt =====
-- The walk from a version down its bases.
use mathlib.Core.List.{reverse_aux}
use ecm_management.Base.{
  ℕ, zero, suc, ◌+◌, ◌≤◌, ◌≡◌, refl, inl, inr, Bool, true, false, Option, none, some, List, [], ◌∷◌,
  arith, if◌then◌else◌, ◌==◌, ==→eq, ==_refl, Bool-cases, Option-cases, length, elem, IsDistinct,
  find_first-passes,
}
use ecm_management.Schema.{Uuid, ModelVersion, Db}
use ecm_management.Versions.States.{find_version}
use ecm_management.Versions.Diff.{max_lineage_depth, unseen, lineage_walk, version_lineage_range}

unseen-some :
    (current : Uuid) (visited : List Uuid) (db : Db) (v : ModelVersion)
    → unseen current visited db ≡ some v
    → (elem current visited ≡ false) × (v.id ≡ current)
unfolding find_version
unseen-some current visited db v h = elim (Bool-cases (elem current visited)) [
  | inl met ↦ absurd (ground arith)
  | inr new ↦ (
    new,
    ==→eq v.id current
        (find_first-passes (λ w. w.id == current) db.model_versions v (ground arith)),
  )
]

-- The walk meets nothing again.
lineage_walk-new :
    (fuel : ℕ) (from_id : Uuid) (current : Option Uuid) (visited : List Uuid) (db : Db) (x : Uuid)
    → elem x visited ≡ true
    → elem x (lineage_walk fuel from_id current visited db) ≡ false
unfolding lineage_walk elem
lineage_walk-new zero from_id current visited db x met = refl
lineage_walk-new (suc fuel) from_id none visited db x met = refl
lineage_walk-new (suc fuel) from_id (some current) visited db x met =
    elim (Option-cases (unseen current visited db)) [
      | inl stop ↦ rw (stop, lineage_walk) refl
      | inr (v, there) ↦ ground (
        arith,
        unseen-some current visited db v there,
        lineage_walk-new fuel from_id v.base_version_id (current ∷ visited) db x,
      )
    ]

length-lineage_walk :
    (fuel : ℕ) (from_id : Uuid) (current : Option Uuid) (visited : List Uuid) (db : Db)
    → length (lineage_walk fuel from_id current visited db) ≤ fuel
unfolding lineage_walk
length-lineage_walk zero from_id current visited db = omega arith
length-lineage_walk (suc fuel) from_id none visited db = omega arith
length-lineage_walk (suc fuel) from_id (some current) visited db =
    elim (Option-cases (unseen current visited db)) [
      | inl stop ↦ rw (stop, lineage_walk) (omega arith)
      | inr (v, there) ↦
          ground (arith, length-lineage_walk fuel from_id v.base_version_id (current ∷ visited) db)
    ]

abbrev walk : Uuid → Uuid → Db → List Uuid
walk from_id to_id db = lineage_walk max_lineage_depth from_id (some to_id) [] db

IsDistinct-step :
    (x : Uuid) (ends : Bool) (rest : List Uuid)
    → elem x rest ≡ false
    → IsDistinct rest
    → IsDistinct (x ∷ (if ends then [] else rest))
unfolding elem
IsDistinct-step x true rest new d = (refl, tt)
IsDistinct-step x false rest new d = (new, d)

lineage_walk-IsDistinct :
    (fuel : ℕ) (from_id : Uuid) (current : Option Uuid) (visited : List Uuid) (db : Db)
    → IsDistinct (lineage_walk fuel from_id current visited db)
unfolding lineage_walk elem
lineage_walk-IsDistinct zero from_id current visited db = tt
lineage_walk-IsDistinct (suc fuel) from_id none visited db = tt
lineage_walk-IsDistinct (suc fuel) from_id (some current) visited db =
    elim (Option-cases (unseen current visited db)) [
      | inl stop ↦ rw (stop, lineage_walk) tt
      | inr (v, there) ↦
          rw (there, lineage_walk)
            (IsDistinct-step v.id (v.id == from_id)
              (lineage_walk fuel from_id v.base_version_id (current ∷ visited) db)
              (lineage_walk-new fuel from_id v.base_version_id (current ∷ visited) db v.id
                (ground (arith, unseen-some current visited db v there, ==_refl current)))
              (lineage_walk-IsDistinct fuel from_id v.base_version_id (current ∷ visited) db))
    ]

IsDistinct-reverse_aux :
    (xs r : List Uuid)
    → IsDistinct xs
    → IsDistinct r
    → ((x : Uuid) → elem x xs ≡ true → elem x r ≡ false)
    → IsDistinct (reverse_aux xs r)
unfolding elem
IsDistinct-reverse_aux [] r d dr apart = dr
IsDistinct-reverse_aux (x ∷ xs) r (new, d) dr apart =
    IsDistinct-reverse_aux xs (x ∷ r) d (apart x (ground (arith, ==_refl x)), dr)
      (λ y met. ground (arith, apart y, ==→eq x y))

length-reverse_aux : (xs r : List Uuid) → length (reverse_aux xs r) ≡ length xs + length r
length-reverse_aux [] r = omega arith
length-reverse_aux (x ∷ xs) r = omega (arith, length-reverse_aux xs (x ∷ r))

-- On every table, cyclic bases included, the lineage of two versions has at most 1000 ids, none
-- twice.
pub version_lineage_range-IsDistinct :
    (from_id to_id : Uuid) (db : Db)
    → IsDistinct (version_lineage_range from_id to_id db)
      × (length (version_lineage_range from_id to_id db) ≤ max_lineage_depth)
unfolding version_lineage_range elem
version_lineage_range-IsDistinct from_id to_id db = (
  IsDistinct-reverse_aux (walk from_id to_id db) []
      (lineage_walk-IsDistinct max_lineage_depth from_id (some to_id) [] db) tt (λ x met. refl),
  omega (
    arith,
    length-reverse_aux (walk from_id to_id db) [],
    length-lineage_walk max_lineage_depth from_id (some to_id) [] db,
  ),
)
