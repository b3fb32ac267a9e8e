-- ===== src/Structural/Operations/Reparenting.antt =====
-- What the operations on one capability do to the parent links.
use ecm_management.Base.{
  ◌≡◌, refl, sym, subst, ap, ◌∙◌, ◌⊎◌, inl, inr, ◌≢◌, Bool, true, Option, none, some, List, [], ◌∷◌,
  arith, if◌then◌else◌, ◌==◌, ==→eq, ne→==, Option-cases, find_first, update_many,
}
use ecm_management.Schema.{
  Uuid, ActorId, Time, Capability, Snapshot, DateText, object, circular_reference,
  capability_reparented, CapabilityVersionChangeType, OperationPayload, EventEnvelope, Db, ok, err,
  check-cases, Result-cases,
}
use ecm_management.Structural.Hierarchy.{find_capability, parent_of}
use ecm_management.Structural.Hierarchy.Walk.{Avoids, Meets, step, parent_of_missing}
use ecm_management.Structural.Hierarchy.Forest.{
  root, IsForest, Relinks-IsForest, Height-kept, assert_not_descendant-Avoids,
  assert_not_descendant-decides,
}
use ecm_management.Structural.History.{record_change, ensure_draft_version_id}
use ecm_management.Structural.Operations.{
  Payload, envelope, parse_payload, change_capability, update_capability, assert_parent,
  apply_reparent,
}

pub capabilities-record_change :
    (id : Uuid) (t : CapabilityVersionChangeType) (before after : Option Snapshot)
    (actor_id : ActorId) (now : Time) (db : Db)
    → (record_change id t before after actor_id now db).capabilities ≡ db.capabilities
unfolding record_change ensure_draft_version_id
capabilities-record_change id t before after actor_id now db = ground arith

pub capabilities-change :
    (id : Uuid) (t : CapabilityVersionChangeType) (f : Capability → Capability) (actor_id : ActorId)
    (now : Time) (db : Db)
    → (change_capability id t f actor_id now db).capabilities
      ≡ update_many (λ c. c.id == id) f db.capabilities
unfolding change_capability
capabilities-change id t f actor_id now db =
    capabilities-record_change id t _ _ actor_id now (update_capability id f db)

-- An update that keeps ids and parents keeps the links.
pub parent_of-update_same :
    (p : Capability → Bool) (f : Capability → Capability) (c : Uuid) (cs : List Capability)
    → ((x : Capability) → (f x).id ≡ x.id)
    → ((x : Capability) → (f x).parent_id ≡ x.parent_id)
    → parent_of c (update_many p f cs) ≡ parent_of c cs
unfolding parent_of find_first update_many
parent_of-update_same p f c [] ids parents = refl
parent_of-update_same p f c (x ∷ xs) ids parents =
    ground (arith, ids x, parents x, parent_of-update_same p f c xs ids parents)

-- The links after one row is set to another parent.
parent_of-relink :
    (id c : Uuid) (parent : Option Uuid) (cs : List Capability)
    → parent_of c (update_many (λ x. x.id == id) (λ x. record x { parent_id = parent }) cs) ≡ (
        if c == id
        then (elim (find_capability id cs) [ none ↦ none | some _ ↦ parent ])
        else parent_of c cs)
unfolding parent_of find_first update_many
parent_of-relink id c parent [] = ground arith
parent_of-relink id c parent (x ∷ xs) = ground (arith, parent_of-relink id c parent xs)

-- The rows that REPARENT writes.
abbrev pub relinked : Uuid → Option Uuid → List Capability → List Capability
relinked id parent cs = update_many (λ x. x.id == id) (λ x. record x { parent_id = parent }) cs

apply_reparent-ok :
    (cr id : Uuid) (raw : Option OperationPayload) (actor_id : ActorId) (now : Time) (db : Db)
    {done : EventEnvelope × Db}
    → apply_reparent cr id raw actor_id now db ≡ ok done
    → (payload : Payload) × (assert_parent id payload.new_parent_id db.capabilities ≡ ok tt)
      × (done.1.capabilities ≡ relinked id payload.new_parent_id db.capabilities)
unfolding apply_reparent
apply_reparent-ok cr id raw actor_id now db h = elim (Result-cases (parse_payload raw cr)) [
  | inr (x, e) ↦ absurd (ground arith)
  | inl (payload, e) ↦ elim (check-cases (assert_parent id payload.new_parent_id db.capabilities)) [
    | inr (x, e') ↦ absurd (ground arith)
    | inl e' ↦ (
      payload,
      e',
      ground (
        arith,
        capabilities-change id CapabilityVersionChangeType.reparent
            (λ c. record c { parent_id = payload.new_parent_id }) actor_id now db,
      ),
    )
  ]
]

assert_parent-Avoids :
    (id q : Uuid) (cs : List Capability)
    → assert_parent id (some q) cs ≡ ok tt
    → Avoids id cs (some q)
unfolding assert_parent
assert_parent-Avoids id q cs h = assert_not_descendant-Avoids id q cs (ground arith)

-- A chain that avoids a capability does not notice that its parent changes.
Avoids-relinked :
    (id : Uuid) (parent : Option Uuid) (cs : List Capability) (c : Uuid)
    → Avoids id cs (some c)
    → (parent_of c (relinked id parent cs) ≡ parent_of c cs) × Avoids id cs (parent_of c cs)
Avoids-relinked id parent cs c (step _ ne rest) =
    (parent_of-relink id c parent cs ∙ rw (ne→== c id ne) refl, rest)

missing_same :
    (id c : Uuid) (cs : List Capability)
    → find_capability id cs ≡ none
    → (c == id) ≡ true
    → parent_of c cs ≡ none
missing_same id c cs e hit =
    subst (λ x. parent_of x cs ≡ none) (sym (==→eq c id hit)) (parent_of_missing id cs e)

relinked-Relinks :
    (id : Uuid) (parent : Option Uuid) (cs : List Capability)
    → IsForest cs
    → ((q : Uuid) → parent ≡ some q → Avoids id cs (some q))
    → IsForest (relinked id parent cs)
relinked-Relinks id none cs forest avoids =
    Relinks-IsForest {target = none} (λ c. ground (arith, parent_of-relink id c none cs)) root
      forest
relinked-Relinks id (some q) cs forest avoids =
    let above =
      Height-kept {ds = relinked id (some q) cs} (Avoids id cs)
        (λ c a. Avoids-relinked id (some q) cs c a) (avoids q refl) (forest q).1 in
    Relinks-IsForest {target = some q}
      (λ c. elim (Option-cases (find_capability id cs)) [
        | inl e ↦ inl (ground (arith, parent_of-relink id c (some q) cs, missing_same id c cs))
        | inr (row, e) ↦ ground (arith, parent_of-relink id c (some q) cs)
      ])
      above forest

-- REPARENT keeps the capability table a forest.
pub reparent-IsForest :
    (cr id : Uuid) (raw : Option OperationPayload) (actor_id : ActorId) (now : Time) (db : Db)
    (done : EventEnvelope × Db)
    → IsForest db.capabilities
    → apply_reparent cr id raw actor_id now db ≡ ok done
    → IsForest done.1.capabilities
reparent-IsForest cr id raw actor_id now db done forest h =
    let (payload, allowed, eq) = apply_reparent-ok cr id raw actor_id now db h in
    subst IsForest (sym eq) (
      relinked-Relinks id payload.new_parent_id db.capabilities forest (λ q e.
        assert_parent-Avoids id q db.capabilities
          (subst (λ p. assert_parent id p db.capabilities ≡ ok tt) e allowed)))

-- In a forest, REPARENT of a capability that exists under another that exists either succeeds, sets
-- this one parent, leaves every other parent and keeps the forest, or it throws the
-- circular-reference error, and then the new parent's chain of parents meets the capability.
pub reparent_decides :
    (cr id q : Uuid) (survivor : Option Uuid) (date : Option DateText) (actor_id : ActorId)
    (now : Time) (db : Db) (row parent : Capability)
    → IsForest db.capabilities
    → find_capability id db.capabilities ≡ some row
    → find_capability q db.capabilities ≡ some parent
    → q ≢ id
    → ((done : EventEnvelope × Db) × (apply_reparent cr id
            (some (object (some q) survivor date))
            actor_id
            now
            db
          ≡ ok done)
        × ((c : Uuid)
            → parent_of c done.1.capabilities
              ≡ (if c == id then some q else parent_of c db.capabilities))
        × IsForest done.1.capabilities)
      ⊎ ((apply_reparent cr id (some (object (some q) survivor date)) actor_id now db
            ≡ err circular_reference)
          × Meets id db.capabilities (some q))
unfolding apply_reparent parse_payload assert_parent
reparent_decides cr id q survivor date actor_id now db row parent forest found found_parent ne =
    elim (assert_not_descendant-decides id q db.capabilities forest) [
      | inr (e, meets) ↦ inr (ground (arith, ne→== q id ne), meets)
      | inl (e, avoids) ↦ inl (
        (
          envelope (capability_reparented id row.parent_id (some q)) cr actor_id now,
          change_capability id CapabilityVersionChangeType.reparent
              (λ c. record c { parent_id = some q }) actor_id now db,
        ),
        ground (arith, ne→== q id ne),
        λ c. ap (parent_of c) same ∙ parent_of-relink id c (some q) db.capabilities ∙ rw found refl,
        subst IsForest (sym same) (
            relinked-Relinks id (some q) db.capabilities forest
              (λ p e'. subst (λ x. Avoids id db.capabilities x) e' avoids)),
      )
    ]
  where
    same :
        (change_capability id CapabilityVersionChangeType.reparent
          (λ c. record c { parent_id = some q })
          actor_id
          now
          db).capabilities
        ≡ relinked id (some q) db.capabilities
    same =
        capabilities-change id CapabilityVersionChangeType.reparent
          (λ c. record c { parent_id = some q }) actor_id now db
