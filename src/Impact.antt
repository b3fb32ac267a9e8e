-- ===== src/Impact.antt =====
-- apps/api/src/impact-analysis/impact-analysis.service.ts: the mappings that a change touches, the
-- systems behind them, and the severity that gates a request for approval.
pub mod Counts
use ecm_management.Base.{
  ℕ, ◌+◌, Bool, true, false, ◌&&◌, Option, none, some, List, [], ◌∷◌, ◌++◌, String, if◌then◌else◌,
  ◌==◌, ltb, leb, str_eq, length, select, count, elem, find_first,
}
use ecm_management.Schema.{
  Uuid, Mapping, ChangeRequestType, ChangeRequest, ImpactSeverity, is_active, is_inactive,
  is_pending, Db,
}

pub record ImpactedSystem : Type 0 where
  pub system_id : String
  pub mapping_ids : List Uuid
  pub active_mapping_count : ℕ

pub record ImpactSummaryData : Type 0 where
  pub total_mappings : ℕ
  pub active_mappings : ℕ
  pub inactive_mappings : ℕ
  pub pending_mappings : ℕ
  pub affected_system_count : ℕ
  pub severity : ImpactSeverity

pub record ImpactAnalysisResult : Type 0 where
  pub capability_ids : List Uuid
  pub impacted_mappings : List Mapping
  pub impacted_systems : List ImpactedSystem
  pub summary : ImpactSummaryData

-- RETIRE and MERGE: the set HIGH_SEVERITY_TYPES, and DESTRUCTIVE_TYPES of the change requests.
unfoldable pub is_destructive : ChangeRequestType → Bool
is_destructive ChangeRequestType.retire = true
is_destructive ChangeRequestType.merge = true
is_destructive _ = false

abbrev is_high : Option ChangeRequestType → Bool
is_high none = false
is_high (some t) = is_destructive t

unfoldable pub compute_severity : ℕ → ℕ → Option ChangeRequestType → ImpactSeverity
compute_severity active_mappings total_mappings operation_type =
    if ltb 0 active_mappings && is_high operation_type
    then ImpactSeverity.high
    else if ltb 0 active_mappings
    then ImpactSeverity.medium
    else if ltb 0 total_mappings
    then ImpactSeverity.medium
    else ImpactSeverity.low

-- One round of the loop that fills `systemMap`, whose keys keep the order of their first insertion.
unfoldable pub add_mapping : Mapping → List ImpactedSystem → List ImpactedSystem
add_mapping m [] =
    record {
      system_id = m.system_id;
      mapping_ids = m.id ∷ [];
      active_mapping_count = if is_active m.state then 1 else 0;
    }
    ∷ []
add_mapping m (s ∷ ss) =
    let rest = add_mapping m ss in
    if str_eq s.system_id m.system_id
    then record s {
      mapping_ids = s.mapping_ids ++ m.id ∷ [];
      active_mapping_count = s.active_mapping_count + (if is_active m.state then 1 else 0);
    }
      ∷ ss
    else s ∷ rest

unfoldable pub group_by_system : List Mapping → List ImpactedSystem → List ImpactedSystem
group_by_system [] acc = acc
group_by_system (m ∷ ms) acc = group_by_system ms (add_mapping m acc)

-- ORDER BY created_at DESC.
unfoldable pub insert_newest : Mapping → List Mapping → List Mapping
insert_newest m [] = m ∷ []
insert_newest m (x ∷ xs) =
    let rest = insert_newest m xs in if leb x.created_at m.created_at then m ∷ x ∷ xs else x ∷ rest

unfoldable pub newest_first : List Mapping → List Mapping
newest_first [] = []
newest_first (m ∷ ms) = insert_newest m (newest_first ms)

unfoldable pub empty_result : List Uuid → ImpactAnalysisResult
empty_result capability_ids = record {
  capability_ids = capability_ids;
  impacted_mappings = [];
  impacted_systems = [];
  summary = record {
    total_mappings = 0;
    active_mappings = 0;
    inactive_mappings = 0;
    pending_mappings = 0;
    affected_system_count = 0;
    severity = ImpactSeverity.low;
  };
}

-- Everything that `analyse` derives from the rows that its query returns.
unfoldable pub summarise :
    List Uuid → Option ChangeRequestType → List Mapping → ImpactAnalysisResult
summarise capability_ids operation_type rows = record {
  capability_ids = capability_ids;
  impacted_mappings = rows;
  impacted_systems = group_by_system rows [];
  summary = record {
    total_mappings = length rows;
    active_mappings = count (λ m. is_active m.state) rows;
    inactive_mappings = count (λ m. is_inactive m.state) rows;
    pending_mappings = count (λ m. is_pending m.state) rows;
    affected_system_count = length (group_by_system rows []);
    severity = compute_severity (count (λ m. is_active m.state) rows) (length rows) operation_type;
  };
}

unfoldable pub analyse : List Uuid → Option ChangeRequestType → Db → ImpactAnalysisResult
unfolding empty_result summarise
analyse [] operation_type db = empty_result []
analyse (c ∷ cs) operation_type db =
    summarise (c ∷ cs) operation_type
      (newest_first (select (λ m. elem m.capability_id (c ∷ cs)) db.mappings))

abbrev analyse_row : Uuid → Option ChangeRequest → Db → ImpactAnalysisResult
analyse_row id none db = empty_result (id ∷ [])
analyse_row id (some cr) db = analyse cr.affected_capability_ids (some cr.type) db

unfoldable pub analyse_for_change_request : Uuid → Db → ImpactAnalysisResult
analyse_for_change_request id db =
    analyse_row id (find_first (λ cr. cr.id == id) db.change_requests) db
