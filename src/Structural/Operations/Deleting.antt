-- ===== src/Structural/Operations/Deleting.antt =====
-- What DELETE leaves: no trace of the capability, and no parent link that dangles.
use ecm_management.Base.{
  ◌≡◌, refl, ap, ◌∙◌, inl, inr, Bool, true, false, none, some, List, [], ◌∷◌, arith, if◌then◌else◌,
  ◌==◌, select, count, find_first, delete_many, Option-cases,
}
use ecm_management.Schema.{Uuid, ActorId, Time, Capability, Mapping, EventEnvelope, Db, ok}
use ecm_management.Structural.Hierarchy.{find_capability, has_parent, count_children}
use ecm_management.Structural.Operations.{delete_one, apply_delete, remove_capability}

-- A parent link that names no row.
unfoldable pub dangles : List Capability → Capability → Bool
dangles cs c = elim c.parent_id [
  | none ↦ false
  | some p ↦ elim (find_capability p cs) [ none ↦ true | some _ ↦ false ]
]

find-delete :
    (p id : Uuid) (cs : List Capability)
    → find_capability p (delete_many (λ c. c.id == id) cs)
      ≡ (if p == id then none else find_capability p cs)
unfolding find_capability find_first delete_many select
find-delete p id [] = ground arith
find-delete p id (c ∷ cs) = ground (arith, find-delete p id cs)

-- Rows that neither dangle nor hang under the deleted one do not dangle afterwards.
kept-dangling :
    (id : Uuid) (cs rows : List Capability)
    → count (dangles cs) rows ≡ 0
    → count (has_parent id) rows ≡ 0
    → count (dangles (delete_many (λ c. c.id == id) cs)) (delete_many (λ c. c.id == id) rows) ≡ 0
unfolding count dangles has_parent delete_many select
kept-dangling id cs [] h k = refl
kept-dangling id cs (c ∷ rows) h k = elim (Option-cases c.parent_id) [
  | inl e ↦ ground (arith, kept-dangling id cs rows)
  | inr (p, e) ↦ ground (arith, kept-dangling id cs rows, find-delete p id cs)
]

mappings_gone :
    (id : Uuid) (ms : List Mapping)
    → count (λ m. m.capability_id == id) (delete_many (λ m. m.capability_id == id) ms) ≡ 0
unfolding count delete_many select
mappings_gone id [] = refl
mappings_gone id (m ∷ ms) = ground (arith, mappings_gone id ms)

-- Once DELETE has gone through, the capability is gone, no mapping of it is left, and if no parent link
-- dangled before then none dangles.
pub delete-settles :
    (cr id : Uuid) (actor_id : ActorId) (now : Time) (db : Db) (done : EventEnvelope × Db)
    → count (dangles db.capabilities) db.capabilities ≡ 0
    → apply_delete cr (id ∷ []) actor_id now db ≡ ok done
    → (find_capability id done.1.capabilities ≡ none)
      × (count (λ m. m.capability_id == id) done.1.mappings ≡ 0)
      × (count (dangles done.1.capabilities) done.1.capabilities ≡ 0)
unfolding apply_delete delete_one count_children remove_capability
delete-settles cr id actor_id now db done whole h =
    let e : done.1 ≡ remove_capability id db = ground arith in
    let childless : count (has_parent id) db.capabilities ≡ 0 = ground arith in
    (
      ap (λ d. find_capability id d.capabilities) e
          ∙ find-delete id id db.capabilities
          ∙ ground arith,
      ap (λ d. count (λ m. m.capability_id == id) d.mappings) e ∙ mappings_gone id db.mappings,
      ap (λ d. count (dangles d.capabilities) d.capabilities) e
          ∙ kept-dangling id db.capabilities db.capabilities whole childless,
    )
