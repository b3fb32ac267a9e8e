-- ===== src/Structural/Merge/Merging.antt =====
-- MERGE keeps the capability table a forest.
use ecm_management.Base.{
  ◌≡◌, refl, sym, subst, ap, ◌∙◌, ◌⊎◌, inl, inr, not, Option, none, some, List, [], ◌∷◌, arith,
  if◌then◌else◌, ◌==◌, ne→==, Option-cases, find_first, update_many, select, All,
}
use ecm_management.Schema.{
  Uuid, ActorId, Time, Capability, CapabilityVersionChangeType, OperationPayload, EventEnvelope, Db,
  ok, check-cases, Result-cases,
}
use ecm_management.Structural.Hierarchy.{
  find_capability, parent_of, has_parent, assert_not_descendant,
}
use ecm_management.Structural.Hierarchy.Walk.{Avoids, top, step}
use ecm_management.Structural.Hierarchy.Forest.{
  root, IsForest, Relinks-IsForest, Height-kept, assert_not_descendant-Avoids,
}
use ecm_management.Structural.Operations.{parse_payload}
use ecm_management.Structural.Operations.Reparenting.{capabilities-change, parent_of-update_same}
use ecm_management.Structural.Merge.{
  MergeState, move_children, merge_source, merge_sources, finish_merge, start_merge, retire_into,
  assert_no_source_above, find_capabilities, merge_into, apply_merge,
}

abbrev if_child_of : Uuid → Uuid → Option Uuid → Option Uuid
if_child_of source survivor none = none
if_child_of source survivor (some p) = if p == source then some survivor else some p

-- The links after the children of a source have moved.
parent_of-move_children :
    (source survivor c : Uuid) (cs : List Capability)
    → parent_of c (move_children source survivor cs) ≡ if_child_of source survivor (parent_of c cs)
unfolding parent_of move_children has_parent find_first update_many
parent_of-move_children source survivor c [] = refl
parent_of-move_children source survivor c (x ∷ xs) =
    ground (arith, parent_of-move_children source survivor c xs)

-- The links after one round of the loop.
parent_of-merge_source :
    (cr survivor : Uuid) (actor_id : ActorId) (now : Time) (source : Capability) (s : MergeState)
    (c : Uuid)
    → parent_of c (merge_source cr survivor actor_id now source s).db.capabilities
      ≡ if_child_of source.id survivor (parent_of c s.db.capabilities)
unfolding merge_source retire_into
parent_of-merge_source cr survivor actor_id now source s c =
    ap (parent_of c) (
      capabilities-change source.id CapabilityVersionChangeType.merge (retire_into survivor cr now)
        actor_id now _)
    ∙ parent_of-update_same (λ x. x.id == source.id) (retire_into survivor cr now) c _ (λ x. refl)
        (λ x. refl)
    ∙ parent_of-move_children source.id survivor c s.db.capabilities

-- The chain of the survivor avoids each source.
abbrev Clear : Uuid → List Capability → List Capability → Type 0
Clear survivor sources cs = All (λ (x : Capability). Avoids x.id cs (some survivor)) sources

if_child_of-Avoids :
    {source : Uuid} {cs : List Capability} (survivor : Uuid) (o : Option Uuid)
    → Avoids source cs o
    → if_child_of source survivor o ≡ o
if_child_of-Avoids survivor none a = refl
if_child_of-Avoids {source = source} survivor (some p) (step _ ne rest) =
    rw (ne→== p source ne) refl

-- A chain that avoids a source, and meets no child of it, is untouched by the round.
Avoids-round :
    {x source : Uuid} {cs ds : List Capability} {o : Option Uuid} (survivor : Uuid)
    → ((c : Uuid) → parent_of c ds ≡ if_child_of source survivor (parent_of c cs))
    → Avoids source cs o
    → Avoids x cs o
    → Avoids x ds o
Avoids-round survivor links top a = top
Avoids-round {x = x} {ds = ds} survivor links (step c ne rest) (step _ ne' rest') = step c ne' (
    subst (λ o. Avoids x ds o) (sym (links c ∙ if_child_of-Avoids survivor _ rest))
      (Avoids-round survivor links rest rest'))

Clear-round :
    {source : Uuid} {cs : List Capability} (ds : List Capability) (survivor : Uuid)
    (sources : List Capability)
    → ((c : Uuid) → parent_of c ds ≡ if_child_of source survivor (parent_of c cs))
    → Avoids source cs (some survivor)
    → Clear survivor sources cs
    → Clear survivor sources ds
Clear-round ds survivor [] links a clear = tt
Clear-round ds survivor (x ∷ xs) links a (b, rest) =
    (Avoids-round survivor links a b, Clear-round ds survivor xs links a rest)

if_child_of-cases :
    (source survivor : Uuid) (o : Option Uuid)
    → (if_child_of source survivor o ≡ o) ⊎ (if_child_of source survivor o ≡ some survivor)
if_child_of-cases source survivor none = inl refl
if_child_of-cases source survivor (some p) = ground arith

round-IsForest :
    {source survivor : Uuid} {cs ds : List Capability}
    → ((c : Uuid) → parent_of c ds ≡ if_child_of source survivor (parent_of c cs))
    → Avoids source cs (some survivor)
    → IsForest cs
    → IsForest ds
round-IsForest {source = source} {survivor = survivor} {cs = cs} {ds = ds} links a forest =
    Relinks-IsForest {target = some survivor}
      (λ c. ground (arith, links c, if_child_of-cases source survivor (parent_of c cs)))
      (Height-kept {ds = ds} (Avoids source cs) keep a (forest survivor).1) forest
  where
    keep :
        (c : Uuid)
        → Avoids source cs (some c)
        → (parent_of c ds ≡ parent_of c cs) × Avoids source cs (parent_of c cs)
    keep c (step _ ne rest) = (links c ∙ if_child_of-Avoids survivor _ rest, rest)

merge_sources-IsForest :
    (cr survivor : Uuid) (actor_id : ActorId) (now : Time) (sources : List Capability)
    (s : MergeState)
    → Clear survivor sources s.db.capabilities
    → IsForest s.db.capabilities
    → IsForest (merge_sources cr survivor actor_id now sources s).db.capabilities
unfolding merge_sources
merge_sources-IsForest cr survivor actor_id now [] s clear forest = forest
merge_sources-IsForest cr survivor actor_id now (x ∷ xs) s (a, rest) forest =
    let links = parent_of-merge_source cr survivor actor_id now x s in
    merge_sources-IsForest cr survivor actor_id now xs (merge_source cr survivor actor_id now x s)
      (Clear-round _ survivor xs links a rest) (round-IsForest links a forest)

same_links-IsForest :
    {cs ds : List Capability}
    → ((c : Uuid) → parent_of c ds ≡ parent_of c cs)
    → IsForest cs
    → IsForest ds
same_links-IsForest same forest = Relinks-IsForest {target = none} (λ c. inl (same c)) root forest

assert_no_source_above-Clear :
    (sources : List Capability) (survivor : Uuid) (cs : List Capability)
    → assert_no_source_above sources survivor cs ≡ ok tt
    → Clear survivor sources cs
unfolding assert_no_source_above
assert_no_source_above-Clear [] survivor cs h = tt
assert_no_source_above-Clear (x ∷ xs) survivor cs h =
    elim (check-cases (assert_not_descendant x.id survivor cs)) [
      | inr (e, k) ↦ absurd (ground arith)
      | inl k ↦ (
        assert_not_descendant-Avoids x.id survivor cs k,
        assert_no_source_above-Clear xs survivor cs (ground arith),
      )
    ]

finished-IsForest :
    (cr survivor : Uuid) (actor_id : ActorId) (now : Time) (row : Capability)
    (sources : List Capability) (db : Db)
    → IsForest db.capabilities
    → assert_no_source_above sources survivor db.capabilities ≡ ok tt
    → IsForest
        (finish_merge survivor actor_id now
          (merge_sources cr survivor actor_id now sources (start_merge row db))).capabilities
unfolding finish_merge start_merge
finished-IsForest cr survivor actor_id now row sources db forest checked =
    same_links-IsForest
      (λ c.
        ap (parent_of c)
          (capabilities-change survivor CapabilityVersionChangeType.merge _ actor_id now _)
        ∙ parent_of-update_same (λ x. x.id == survivor) _ c _ (λ x. refl) (λ x. refl))
      (merge_sources-IsForest cr survivor actor_id now sources _
        (assert_no_source_above-Clear sources survivor db.capabilities checked) forest)

-- What MERGE leaves, when it goes through.
merge_into-ok :
    (cr : Uuid) (affected : List Uuid) (survivor : Uuid) (actor_id : ActorId) (now : Time) (db : Db)
    (done : EventEnvelope × Db)
    → merge_into cr affected survivor actor_id now db ≡ ok done
    → let sources =
        find_capabilities (select (λ id. not (id == survivor)) affected) db.capabilities in
      (assert_no_source_above sources survivor db.capabilities ≡ ok tt)
      × ((row : Capability) × (done.1
            ≡ finish_merge survivor actor_id now
                (merge_sources cr survivor actor_id now sources (start_merge row db))))
unfolding merge_into
merge_into-ok cr affected survivor actor_id now db done h =
    elim (check-cases (
      assert_no_source_above
        (find_capabilities (select (λ id. not (id == survivor)) affected) db.capabilities) survivor
        db.capabilities)) [
          | inr (e, k) ↦ absurd (ground arith)
          | inl k ↦ elim (Option-cases (find_capability survivor db.capabilities)) [
            | inl n ↦ absurd (ground arith)
            | inr (row, e) ↦ (k, (row, ground arith))
          ]
        ]

-- MERGE keeps the capability table a forest: when it goes through, every capability's chain of
-- parents still ends.
pub merge-IsForest :
    (cr : Uuid) (affected : List Uuid) (raw : Option OperationPayload) (actor_id : ActorId)
    (now : Time) (db : Db) (done : EventEnvelope × Db)
    → IsForest db.capabilities
    → apply_merge cr affected raw actor_id now db ≡ ok done
    → IsForest done.1.capabilities
unfolding apply_merge
merge-IsForest cr affected raw actor_id now db done forest h =
    elim (Result-cases (parse_payload raw cr)) [
      | inr (e, k) ↦ absurd (ground arith)
      | inl (payload, k) ↦ elim (Option-cases payload.survivor_capability_id) [
        | inl n ↦ absurd (ground arith)
        | inr (survivor, k') ↦
            let (checked, (row, eq)) =
              merge_into-ok cr affected survivor actor_id now db done (ground arith) in
            subst (λ d. IsForest d.capabilities) (sym eq)
              (finished-IsForest cr survivor actor_id now row _ db forest checked)
      ]
    ]
