-- ===== src/Mappings/Guard.antt =====
-- Which writes keep ACTIVE mappings away from retired capabilities.
use ecm_management.Base.{
  ◌≡◌, refl, ◌≢◌, ◌⊎◌, inl, inr, sym, subst, Bool, true, false, ◌&&◌, Option, none, some, List, [],
  ◌∷◌, arith, ◌==◌, Bool-cases, Option-cases, or_default, select, count, update_many, delete_many,
}
use ecm_management.Schema.{
  Uuid, Time, Capability, Mapping, MappingState, is_active, is_retired, mapping_to_retired, Db, ok,
  err,
}
use ecm_management.Structural.Hierarchy.{find_capability}
use ecm_management.Mappings.{
  CreateMappingDto, create_mapping, new_mapping, add_new, UpdateMappingDto, has_fields,
  update_mapping, updated_mapping, set_mapping, find_mapping, delete_mapping, remove_mapping,
  record_mapping_audit,
}

abbrev pub of_retired : Option Capability → Bool
of_retired none = false
of_retired (some c) = is_retired c.lifecycle_status

-- An ACTIVE mapping of a retired capability.
unfoldable pub is_misplaced : List Capability → Mapping → Bool
is_misplaced capabilities m =
    is_active m.state && of_retired (find_capability m.capability_id capabilities)

-- A write to the mappings that succeeded; an update does not set a mapping ACTIVE.
pub data Write (db : Db) : Db → Type 0 where
  creates :
      {db' : Db} (dto : CreateMappingDto) (now : Time) (m : Mapping)
      → create_mapping dto now db ≡ ok (m, db')
      → Write db db'
  updates :
      {db' : Db} (id : Uuid) (dto : UpdateMappingDto) (now : Time) (m : Mapping)
      → dto.state ≢ some MappingState.active
      → update_mapping id dto now db ≡ ok (m, db')
      → Write db db'
  deletes : {db' : Db} (id : Uuid) (now : Time) → delete_mapping id now db ≡ ok db' → Write db db'

count-updated :
    (p q : Mapping → Bool) (f : Mapping → Mapping) (ms : List Mapping)
    → ((m : Mapping) → q m ≡ false → q (f m) ≡ false)
    → count q ms ≡ 0
    → count q (update_many p f ms) ≡ 0
unfolding count update_many
count-updated p q f [] keep h = refl
count-updated p q f (m ∷ ms) keep h = ground (arith, keep m, count-updated p q f ms keep)

count-deleted :
    (p q : Mapping → Bool) (ms : List Mapping) → count q ms ≡ 0 → count q (delete_many p ms) ≡ 0
unfolding count delete_many select
count-deleted p q [] h = refl
count-deleted p q (m ∷ ms) h = ground (arith, count-deleted p q ms)

set_state :
    (o : Option MappingState) (kept : MappingState)
    → (o ≡ some MappingState.active) ⊎ ((o ≡ none) ⊎ (is_active (or_default kept o) ≡ false))
unfolding is_active
set_state none kept = inr (inl refl)
set_state (some MappingState.active) kept = inl refl
set_state (some MappingState.inactive) kept = inr (inr refl)
set_state (some MappingState.pending) kept = inr (inr refl)

updated_stays :
    (capabilities : List Capability) (dto : UpdateMappingDto) (m : Mapping)
    → dto.state ≢ some MappingState.active
    → is_misplaced capabilities m ≡ false
    → is_misplaced capabilities (updated_mapping dto m) ≡ false
unfolding is_misplaced updated_mapping is_active
updated_stays capabilities dto m other h = ground (arith, set_state dto.state m.state)

created_as :
    (dto : CreateMappingDto) (now : Time) (db db' : Db) (m : Mapping)
    → create_mapping dto now db ≡ ok (m, db')
    → (db' ≡ add_new (new_mapping dto db.next_uuid now) now db)
      × (of_retired (find_capability dto.capability_id db.capabilities) ≡ false)
unfolding create_mapping
created_as dto now db db' m done =
    elim (Option-cases (find_capability dto.capability_id db.capabilities)) [
      | inl missing ↦ absurd (ground arith)
      | inr (c, found) ↦ elim (Bool-cases (is_retired c.lifecycle_status)) [
        | inl retired ↦ absurd (ground arith)
        | inr active ↦ (ground arith, rw found active)
      ]
    ]

updated_as :
    (id : Uuid) (dto : UpdateMappingDto) (now : Time) (db db' : Db) (m : Mapping)
    → update_mapping id dto now db ≡ ok (m, db')
    → db' ≡ set_mapping id dto now db
unfolding update_mapping
updated_as id dto now db db' m done = elim (Bool-cases (has_fields dto)) [
  | inr empty ↦ absurd (ground arith)
  | inl given ↦ elim (Option-cases (find_mapping id db.mappings)) [
    | inl missing ↦ absurd (ground arith)
    | inr (row, found) ↦ ground arith
  ]
]

deleted_as :
    (id : Uuid) (now : Time) (db db' : Db)
    → delete_mapping id now db ≡ ok db'
    → db' ≡ remove_mapping id now db
unfolding delete_mapping
deleted_as id now db db' done = elim (Option-cases (find_mapping id db.mappings)) [
  | inl missing ↦ absurd (ground arith)
  | inr (row, found) ↦ ground arith
]

-- What a write keeps.
abbrev IsTidy : Db → Db → Type 0
IsTidy db db' =
    (db'.capabilities ≡ db.capabilities) × (count (is_misplaced db'.capabilities) db'.mappings ≡ 0)

create-IsTidy :
    (dto : CreateMappingDto) (now : Time) (db : Db)
    → of_retired (find_capability dto.capability_id db.capabilities) ≡ false
    → count (is_misplaced db.capabilities) db.mappings ≡ 0
    → IsTidy db (add_new (new_mapping dto db.next_uuid now) now db)
unfolding add_new new_mapping record_mapping_audit count is_misplaced
create-IsTidy dto now db current h = (refl, ground arith)

update-IsTidy :
    (id : Uuid) (dto : UpdateMappingDto) (now : Time) (db : Db)
    → dto.state ≢ some MappingState.active
    → count (is_misplaced db.capabilities) db.mappings ≡ 0
    → IsTidy db (set_mapping id dto now db)
unfolding set_mapping record_mapping_audit
update-IsTidy id dto now db other h = (
  refl,
  count-updated (λ m. m.id == id) (is_misplaced db.capabilities) (updated_mapping dto) db.mappings
      (λ m. updated_stays db.capabilities dto m other) h,
)

delete-IsTidy :
    (id : Uuid) (now : Time) (db : Db)
    → count (is_misplaced db.capabilities) db.mappings ≡ 0
    → IsTidy db (remove_mapping id now db)
unfolding remove_mapping record_mapping_audit
delete-IsTidy id now db h =
    (refl, count-deleted (λ m. m.id == id) (is_misplaced db.capabilities) db.mappings h)

-- While no ACTIVE mapping belongs to a retired capability, no creation, no deletion, and no update
-- that does not set a mapping ACTIVE brings one about, and the capabilities stay as they are.
pub mappings_avoid_retired :
    {db db' : Db}
    → Write db db'
    → count (is_misplaced db.capabilities) db.mappings ≡ 0
    → (db'.capabilities ≡ db.capabilities)
      × (count (is_misplaced db'.capabilities) db'.mappings ≡ 0)
mappings_avoid_retired {db = db} {db' = db'} (creates dto now m done) h =
    let (after, current) = created_as dto now db db' m done in
    subst (IsTidy db) (sym after) (create-IsTidy dto now db current h)
mappings_avoid_retired {db = db} {db' = db'} (updates id dto now m other done) h =
    subst (IsTidy db) (sym (updated_as id dto now db db' m done))
      (update-IsTidy id dto now db other h)
mappings_avoid_retired {db = db} {db' = db'} (deletes id now done) h =
    subst (IsTidy db) (sym (deleted_as id now db db' done)) (delete-IsTidy id now db h)

-- An update that sets a mapping ACTIVE succeeds even if the mapping's capability is retired, for
-- which a creation is refused; the row that it leaves is an ACTIVE mapping of a retired capability.
pub update_mapping-misplaces :
    (dto : UpdateMappingDto) (anew : CreateMappingDto) (now : Time) (db : Db) (m : Mapping)
    (c : Capability)
    → find_mapping m.id db.mappings ≡ some m
    → find_capability m.capability_id db.capabilities ≡ some c
    → is_retired c.lifecycle_status ≡ true
    → dto.state ≡ some MappingState.active
    → anew.capability_id ≡ m.capability_id
    → (update_mapping m.id dto now db ≡ ok (updated_mapping dto m, set_mapping m.id dto now db))
      × (is_misplaced db.capabilities (updated_mapping dto m) ≡ true)
      × (create_mapping anew now db ≡ err (mapping_to_retired anew.capability_id))
unfolding update_mapping create_mapping is_misplaced updated_mapping has_fields is_active
update_mapping-misplaces dto anew now db m c found there retired active same =
    (ground arith, ground arith, ground arith)
