-- ===== src/Mappings.antt =====
-- apps/api/src/mapping/mapping.service.ts: the mappings of external systems to capabilities.
pub mod Guard
pub mod Order
pub mod Filter
pub mod Pages
mod Examples
use ecm_management.Base.{
  ℕ, suc, ◌+◌, ◌-◌, ◌*◌, ◌/◌, min, max, Bool, true, false, ◌&&◌, Option, none, some, List, [], ◌∷◌,
  String, if◌then◌else◌, ◌==◌, str_eq, or_default, length, take, drop, select, find_first,
  update_many, delete_many,
}
use ecm_management.Schema.{
  Uuid, Time, Mapping, MappingState, is_retired, AuditAction, AuditEntityType, AuditMetadata,
  mapped, remapped, nothing_more, Db, capability_not_found, mapping_not_found, mapping_to_retired,
  no_updatable_fields, Error, Result, ok, err, ◌>>=◌, ◌>>◌, or_fail,
}
use ecm_management.Structural.Hierarchy.{find_capability}

pub record ListMappingsDto : Type 0 where
  pub state : Option MappingState
  pub mapping_type : Option String
  pub system_id : Option String
  pub capability_id : Option Uuid
  pub page : Option ℕ
  pub limit : Option ℕ

pub record MappingListResult : Type 0 where
  pub items : List Mapping
  pub total : ℕ
  pub page : ℕ
  pub limit : ℕ
  pub total_pages : ℕ

abbrev pub default_page : ℕ
default_page = 1

abbrev pub default_limit : ℕ
default_limit = 25

-- `===` on states.
abbrev pub same_state : MappingState → MappingState → Bool
same_state MappingState.active MappingState.active = true
same_state MappingState.inactive MappingState.inactive = true
same_state MappingState.pending MappingState.pending = true
same_state _ _ = false

-- A filter that is not given passes every row.
abbrev pub passes {ℓ} : {A : Type ℓ} → (A → Bool) → Option A → Bool
passes test none = true
passes test (some a) = test a

unfoldable pub matches : ListMappingsDto → Mapping → Bool
matches dto m =
    passes (same_state m.state) dto.state
    && passes (str_eq m.mapping_type) dto.mapping_type
    && passes (str_eq m.system_id) dto.system_id
    && passes (λ c. m.capability_id == c) dto.capability_id

unfoldable pub page_of : Option ℕ → ℕ
page_of page = max 1 (or_default default_page page)

unfoldable pub limit_of : Option ℕ → ℕ
limit_of limit = min 100 (max 1 (or_default default_limit limit))

-- `Math.ceil(total / limit)`
unfoldable pub ceil_div : ℕ → ℕ → ℕ
ceil_div total limit = (total + (limit - 1)) / limit

-- `ordered` is the order in which the query answers the rows it found, newest first. It is a parameter
-- because the query leaves open which of two rows made at the same time comes first.
unfoldable pub find_all :
    (List Mapping → List Mapping) → ListMappingsDto → List Mapping → MappingListResult
find_all ordered dto mappings =
    let found = select (matches dto) mappings in
    let page = page_of dto.page in
    let limit = limit_of dto.limit in
    record {
      items = take limit (drop ((page - 1) * limit) (ordered found));
      total = length found;
      page = page;
      limit = limit;
      total_pages = ceil_div (length found) limit;
    }

unfoldable pub find_mapping : Uuid → List Mapping → Option Mapping
find_mapping id = find_first (λ m. m.id == id)

unfoldable pub find_by_capability :
    (List Mapping → List Mapping) → Uuid → Db → Result (List Mapping)
find_by_capability ordered capability_id db = do
  c ← or_fail (find_capability capability_id db.capabilities) (capability_not_found capability_id)
  ok (ordered (select (λ m. m.capability_id == capability_id) db.mappings))

unfoldable pub find_by_system : (List Mapping → List Mapping) → String → Db → List Mapping
find_by_system ordered system_id db =
    ordered (select (λ m. str_eq m.system_id system_id) db.mappings)

pub record CreateMappingDto : Type 0 where
  pub mapping_type : String
  pub system_id : String
  pub capability_id : Uuid
  pub state : Option MappingState
  pub attributes : Option String

unfoldable pub new_mapping : CreateMappingDto → Uuid → Time → Mapping
new_mapping dto id now = record {
  id = id;
  mapping_type = dto.mapping_type;
  system_id = dto.system_id;
  capability_id = dto.capability_id;
  state = or_default MappingState.active dto.state;
  attributes = dto.attributes;
  created_at = now;
}

-- auditService.record for a mapping; the actor is always the system.
unfoldable pub record_mapping_audit : Uuid → AuditAction → AuditMetadata → Time → Db → Db
record_mapping_audit id action metadata now db = record db {
  audit_entries =
      record {
        entity_type = AuditEntityType.mapping;
        entity_id = id;
        action = action;
        actor_id = "system";
        metadata = metadata;
        timestamp = now;
      }
      ∷ db.audit_entries;
}

unfoldable pub add_new : Mapping → Time → Db → Db
add_new m now db =
    record_mapping_audit m.id AuditAction.create (mapped m.system_id m.capability_id m.state) now
      (record db { mappings = m ∷ db.mappings; next_uuid = suc db.next_uuid })

unfoldable pub create_mapping : CreateMappingDto → Time → Db → Result (Mapping × Db)
create_mapping dto now db = do
  c ←
      or_fail (find_capability dto.capability_id db.capabilities)
        (capability_not_found dto.capability_id)
  if is_retired c.lifecycle_status then err (mapping_to_retired dto.capability_id) else ok tt
  let m = new_mapping dto db.next_uuid now
  ok (m, add_new m now db)

-- A field that is `undefined` is `none`.
pub record UpdateMappingDto : Type 0 where
  pub mapping_type : Option String
  pub state : Option MappingState
  pub attributes : Option String

abbrev pub is_given {ℓ} : {A : Type ℓ} → Option A → Bool
is_given none = false
is_given (some _) = true

unfoldable pub has_fields : UpdateMappingDto → Bool
has_fields dto =
    if is_given dto.mapping_type
    then true
    else if is_given dto.state
    then true
    else is_given dto.attributes

abbrev pub or_kept : Option String → Option String → Option String
or_kept none kept = kept
or_kept (some t) kept = some t

unfoldable pub updated_mapping : UpdateMappingDto → Mapping → Mapping
updated_mapping dto m = record m {
  mapping_type = or_default m.mapping_type dto.mapping_type;
  state = or_default m.state dto.state;
  attributes = or_kept dto.attributes m.attributes;
}

unfoldable pub set_mapping : Uuid → UpdateMappingDto → Time → Db → Db
set_mapping id dto now db =
    record_mapping_audit id AuditAction.update (remapped dto.mapping_type dto.state dto.attributes)
      now (record db { mappings = update_many (λ m. m.id == id) (updated_mapping dto) db.mappings })

-- The update of a row that is not there throws.
unfoldable pub update_mapping : Uuid → UpdateMappingDto → Time → Db → Result (Mapping × Db)
update_mapping id dto now db = do
  if has_fields dto then ok tt else err no_updatable_fields
  m ← or_fail (find_mapping id db.mappings) (mapping_not_found id)
  ok (updated_mapping dto m, set_mapping id dto now db)

unfoldable pub remove_mapping : Uuid → Time → Db → Db
remove_mapping id now db =
    record_mapping_audit id AuditAction.delete nothing_more now
      (record db { mappings = delete_many (λ m. m.id == id) db.mappings })

unfoldable pub delete_mapping : Uuid → Time → Db → Result Db
delete_mapping id now db = do
  m ← or_fail (find_mapping id db.mappings) (mapping_not_found id)
  ok (remove_mapping id now db)
