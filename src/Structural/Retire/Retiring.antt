-- ===== src/Structural/Retire/Retiring.antt =====
-- What RETIRE leaves of the capabilities and of their mappings.
use ecm_management.Base.{
  ◌≡◌, refl, ap, ◌∙◌, inl, inr, Bool, true, not, ◌&&◌, Option, List, [], ◌∷◌, arith, select, count,
  elem, All, update_many, find_first, Option-cases,
}
use ecm_management.Schema.{
  Uuid, ActorId, Time, Capability, Mapping, OperationPayload, CapabilityVersionChangeType, Snapshot,
  EventEnvelope, Db, is_retired, is_active, ok, Result-cases,
}
use ecm_management.Structural.History.{record_change, ensure_draft_version_id, is_main_draft}
use ecm_management.Structural.Operations.{snapshot_at, parse_payload}
use ecm_management.Structural.Retire.{
  before_snapshot, record_retirements, set_retired, retire_rows, flagged_mappings, deactivate,
  retire_all, apply_retire, effective_date,
}

-- An ACTIVE mapping of one of the capabilities.
abbrev is_live : List Uuid → Mapping → Bool
is_live affected m = elem m.capability_id affected && is_active m.state

abbrev is_unretired : List Uuid → Capability → Bool
is_unretired affected c = elem c.id affected && not (is_retired c.lifecycle_status)

record_change-tables :
    (id : Uuid) (t : CapabilityVersionChangeType) (before after : Option Snapshot)
    (actor_id : ActorId) (now : Time) (db : Db)
    → ((record_change id t before after actor_id now db).mappings ≡ db.mappings)
      × ((record_change id t before after actor_id now db).capabilities ≡ db.capabilities)
unfolding record_change ensure_draft_version_id
record_change-tables id t before after actor_id now db =
    elim (Option-cases (find_first is_main_draft db.model_versions)) [
      | inl e ↦ ground arith
      | inr (v, e) ↦ ground arith
    ]

record_retirements-tables :
    (affected : List Uuid) (before : List Capability) (actor_id : ActorId) (now : Time) (db : Db)
    → ((record_retirements affected before actor_id now db).mappings ≡ db.mappings)
      × ((record_retirements affected before actor_id now db).capabilities ≡ db.capabilities)
unfolding record_retirements
record_retirements-tables [] before actor_id now db = (refl, refl)
record_retirements-tables (id ∷ rest) before actor_id now db =
    let first =
      record_change-tables id CapabilityVersionChangeType.retire (before_snapshot id before)
        (snapshot_at id db) actor_id now db in
    let later = record_retirements-tables rest before actor_id now (
      record_change id CapabilityVersionChangeType.retire (before_snapshot id before)
        (snapshot_at id db) actor_id now db) in
    (later.0 ∙ first.0, later.1 ∙ first.1)

-- The flagged ids cover the live mappings.
flagged-cover :
    (affected flagged : List Uuid) (ms : List Mapping)
    → ((i : Uuid) → elem i (flagged_mappings affected ms) ≡ true → elem i flagged ≡ true)
    → All (λ m. is_live affected m ≡ true → elem m.id flagged ≡ true) ms
unfolding flagged_mappings select elem
flagged-cover affected flagged [] h = tt
flagged-cover affected flagged (m ∷ ms) h =
    (λ live. h m.id (ground arith), flagged-cover affected flagged ms (λ i e. h i (ground arith)))

deactivate-none :
    (affected flagged : List Uuid) (ms : List Mapping)
    → All (λ m. is_live affected m ≡ true → elem m.id flagged ≡ true) ms
    → count (is_live affected) (deactivate flagged ms) ≡ 0
unfolding deactivate update_many count is_active
deactivate-none affected flagged [] h = refl
deactivate-none affected flagged (m ∷ ms) (covered, rest) =
    ground (arith, deactivate-none affected flagged ms rest)

retire_rows-none :
    (affected : List Uuid) (t : Time) (cs : List Capability)
    → count (is_unretired affected) (retire_rows affected t cs) ≡ 0
unfolding retire_rows update_many count set_retired is_retired
retire_rows-none affected t [] = refl
retire_rows-none affected t (c ∷ cs) = ground (arith, retire_rows-none affected t cs)

apply_retire-ok :
    (cr : Uuid) (affected : List Uuid) (raw : Option OperationPayload) (actor_id : ActorId)
    (now : Time) (db : Db) (done : EventEnvelope × Db)
    → apply_retire cr affected raw actor_id now db ≡ ok done
    → (t : Time) × (done.1 ≡ retire_all affected t actor_id now db)
unfolding apply_retire
apply_retire-ok cr affected raw actor_id now db done h =
    elim (Result-cases (parse_payload raw cr)) [
      | inr (x, e) ↦ absurd (ground arith)
      | inl (payload, e) ↦ elim (Result-cases (effective_date payload.effective_to now)) [
        | inr (x, e') ↦ absurd (ground arith)
        | inl (t, e') ↦ (t, ground arith)
      ]
    ]

-- Once RETIRE has gone through, every capability that it names is retired and none of them has an ACTIVE
-- mapping left.
pub retire-settles :
    (cr : Uuid) (affected : List Uuid) (raw : Option OperationPayload) (actor_id : ActorId)
    (now : Time) (db : Db) (done : EventEnvelope × Db)
    → apply_retire cr affected raw actor_id now db ≡ ok done
    → (count (λ c. elem c.id affected && not (is_retired c.lifecycle_status)) done.1.capabilities
        ≡ 0)
      × (count (λ m. elem m.capability_id affected && is_active m.state) done.1.mappings ≡ 0)
unfolding retire_all
retire-settles cr affected raw actor_id now db done h =
    let (t, e) = apply_retire-ok cr affected raw actor_id now db done h in
    let kept =
      record_retirements-tables affected _ actor_id now
        (record db { capabilities = retire_rows affected t db.capabilities }) in
    (
      ap (λ d. count (is_unretired affected) d.capabilities) e
          ∙ ap (count (is_unretired affected)) kept.1
          ∙ retire_rows-none affected t db.capabilities,
      ap (λ d. count (is_live affected) d.mappings) e
          ∙ ap
              (λ ms.
                count (is_live affected) (deactivate (flagged_mappings affected db.mappings) ms))
              kept.0
          ∙ deactivate-none affected (flagged_mappings affected db.mappings) db.mappings (
              flagged-cover affected (flagged_mappings affected db.mappings) db.mappings
                (λ i x. x)),
    )
