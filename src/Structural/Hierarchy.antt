-- ===== src/Structural/Hierarchy.antt =====
-- The parent links of the capability table, and `assertNotDescendant`, the walk up from a proposed
-- parent. A `while` loop takes fuel; Structural/Hierarchy/Walk shows that one round for each row
-- and one more are enough.
pub mod Walk
pub mod Forest
use ecm_management.Base.{
  ℕ, zero, suc, Bool, true, false, Option, none, some, List, [], ◌∷◌, if◌then◌else◌, ◌==◌, length,
  elem, find_first, count,
}
use ecm_management.Schema.{
  Uuid, Capability, Error, circular_reference, existing_circular_parent, Result, ok, err,
}

-- findUnique by the primary key.
unfoldable pub find_capability : Uuid → List Capability → Option Capability
find_capability id capabilities = find_first (λ c. c.id == id) capabilities

unfoldable pub parent_of_row : Option Capability → Option Uuid
parent_of_row none = none
parent_of_row (some c) = c.parent_id

-- `row?.parentId ?? null`
unfoldable pub parent_of : Uuid → List Capability → Option Uuid
unfolding parent_of_row find_capability
parent_of id capabilities = parent_of_row (find_capability id capabilities)

-- capability.count({ where: { parentId } })
unfoldable pub has_parent : Uuid → Capability → Bool
has_parent id c = elim c.parent_id [ none ↦ false | some p ↦ p == id ]

unfoldable pub count_children : Uuid → List Capability → ℕ
unfolding has_parent
count_children id capabilities = count (has_parent id) capabilities

pub data Verdict : Type 0 where
  clear descendant cycle out_of_fuel : Verdict

unfoldable pub walk_up : ℕ → Uuid → Option Uuid → List Uuid → List Capability → Verdict
walk_up fuel capability_id none visited capabilities = clear
walk_up zero capability_id (some current) visited capabilities = out_of_fuel
walk_up (suc fuel) capability_id (some current) visited capabilities =
    let rest =
      walk_up fuel capability_id (parent_of current capabilities) (current ∷ visited)
        capabilities in
    if current == capability_id then descendant else if elem current visited then cycle else rest

unfoldable pub verdict_result : Verdict → Result (Unit {0})
verdict_result clear = ok tt
verdict_result descendant = err circular_reference
verdict_result cycle = err existing_circular_parent
verdict_result out_of_fuel = err existing_circular_parent

unfoldable pub assert_not_descendant : Uuid → Uuid → List Capability → Result (Unit {0})
unfolding verdict_result
assert_not_descendant capability_id ancestor_candidate_id capabilities =
    verdict_result (
      walk_up (suc (length capabilities)) capability_id (some ancestor_candidate_id) []
        capabilities)
