-- ===== src/Impact/Counts.antt =====
-- The counts of an impact analysis agree with each other and with the mappings that it lists.
use ecm_management.Base.{
  ℕ, suc, ap, ◌+◌, ◌≡◌, refl, Option, List, [], ◌∷◌, ◌++◌, arith, if◌then◌else◌, length, select,
  count, elem,
}
use ecm_management.Schema.{Uuid, Mapping, ChangeRequestType, is_active, is_inactive, is_pending, Db}
use ecm_management.Impact.{
  ImpactedSystem, ImpactAnalysisResult, add_mapping, group_by_system, analyse, newest_first,
}

-- The sums over the systems.
unfoldable pub sum_active : List ImpactedSystem → ℕ
sum_active [] = 0
sum_active (s ∷ ss) = s.active_mapping_count + sum_active ss

unfoldable pub sum_mappings : List ImpactedSystem → ℕ
sum_mappings [] = 0
sum_mappings (s ∷ ss) = length s.mapping_ids + sum_mappings ss

length-append_one : (xs : List Uuid) (x : Uuid) → length (xs ++ x ∷ []) ≡ suc (length xs)
length-append_one [] x = refl
length-append_one (y ∷ ys) x = ap suc (length-append_one ys x)

add_mapping-sum_active :
    (m : Mapping) (ss : List ImpactedSystem)
    → sum_active (add_mapping m ss) ≡ (if is_active m.state then 1 else 0) + sum_active ss
unfolding add_mapping sum_active
add_mapping-sum_active m [] = ground arith
add_mapping-sum_active m (s ∷ ss) = ground (arith, add_mapping-sum_active m ss)

add_mapping-sum_mappings :
    (m : Mapping) (ss : List ImpactedSystem)
    → sum_mappings (add_mapping m ss) ≡ suc (sum_mappings ss)
unfolding add_mapping sum_mappings
add_mapping-sum_mappings m [] = ground arith
add_mapping-sum_mappings m (s ∷ ss) =
    ground (arith, add_mapping-sum_mappings m ss, length-append_one s.mapping_ids m.id)

group-sum_active :
    (ms : List Mapping) (ss : List ImpactedSystem)
    → sum_active (group_by_system ms ss) ≡ count (λ m. is_active m.state) ms + sum_active ss
unfolding group_by_system count
group-sum_active [] ss = ground arith
group-sum_active (m ∷ ms) ss =
    ground (arith, group-sum_active ms (add_mapping m ss), add_mapping-sum_active m ss)

group-sum_mappings :
    (ms : List Mapping) (ss : List ImpactedSystem)
    → sum_mappings (group_by_system ms ss) ≡ length ms + sum_mappings ss
unfolding group_by_system
group-sum_mappings [] ss = ground arith
group-sum_mappings (m ∷ ms) ss =
    ground (arith, group-sum_mappings ms (add_mapping m ss), add_mapping-sum_mappings m ss)

states-partition :
    (ms : List Mapping)
    → count (λ m. is_active m.state) ms
        + count (λ m. is_inactive m.state) ms
        + count (λ m. is_pending m.state) ms
      ≡ length ms
unfolding count is_active is_inactive is_pending
states-partition [] = ground arith
states-partition (m ∷ ms) = ground (arith, states-partition ms)

-- What the counts of an analysis have to agree on.
pub record IsConsistent (r : ImpactAnalysisResult) : Type 0 where
  pub lists_all : r.summary.total_mappings ≡ length r.impacted_mappings
  pub by_state :
      r.summary.active_mappings + r.summary.inactive_mappings + r.summary.pending_mappings
      ≡ r.summary.total_mappings
  pub by_system : sum_mappings r.impacted_systems ≡ r.summary.total_mappings
  pub active_by_system : sum_active r.impacted_systems ≡ r.summary.active_mappings
  pub systems : r.summary.affected_system_count ≡ length r.impacted_systems

-- In every impact analysis the active, inactive and pending mappings add up to the total, the total is
-- the number of mappings listed, the mappings of the systems add up to the total and the active ones of
-- the systems to the active ones, and the systems are counted.
pub analyse-IsConsistent :
    (ids : List Uuid) (operation_type : Option ChangeRequestType) (db : Db)
    → IsConsistent (analyse ids operation_type db)
unfolding analyse sum_active sum_mappings
analyse-IsConsistent [] operation_type db = record {
  lists_all = refl;
  by_state = ground arith;
  by_system = refl;
  active_by_system = refl;
  systems = refl;
}
analyse-IsConsistent (c ∷ cs) operation_type db =
    let rows = newest_first (select (λ m. elem m.capability_id (c ∷ cs)) db.mappings) in
    record {
      lists_all = refl;
      by_state = states-partition rows;
      by_system = omega (arith, group-sum_mappings rows []);
      active_by_system = omega (arith, group-sum_active rows []);
      systems = refl;
    }
