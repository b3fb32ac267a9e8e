-- ===== src/Schema/Errors.antt =====
-- What a service call throws: one constructor for each exception that the modelled code builds,
-- with the values that its message shows.
use ecm_management.Base.{ℕ, ◌≡◌, refl, ◌⊎◌, inl, inr, List, String, Option, none, some}
use ecm_management.Schema.Enums.{
  ChangeRequestStatus, ChangeRequestType, LifecycleStatus, ModelVersionState, UserRole,
}
use ecm_management.Schema.Rows.{Uuid, VersionLabel}

pub data Error : Type 0 where
  -- change-request/exceptions
  change_request_not_found : Uuid → Error
  invalid_state_transition : ChangeRequestStatus → String → Error
  capability_locked : List Uuid → Error
  insufficient_approval_role : String → Error
  -- change-request.service.ts
  downstream_plan_required : ChangeRequestType → ℕ → ℕ → Error
  decision_already_recorded : String → Error
  all_approvals_submitted curator_already_rejected : Error
  structural_type_needs_apply : ChangeRequestType → Error
  not_a_structural_operation : ChangeRequestType → Error
  no_handler_for_type : ChangeRequestType → Error
  single_target_required : ChangeRequestType → ℕ → Error
  -- structural-ops.service.ts
  payload_not_an_object : Uuid → Error
  capability_not_found target_parent_not_found survivor_not_found : Uuid → Error
  own_parent circular_reference existing_circular_parent : Error
  already_abstract already_leaf : Uuid → Error
  has_children : Uuid → ℕ → Error
  survivor_missing : Uuid → Error
  no_distinct_source : Error
  survivor_retired : Uuid → Error
  sources_not_found capabilities_not_found : List Uuid → Error
  already_retired : List Uuid → Error
  retiring_with_children : Error
  invalid_effective_to : Error
  deletion_not_permitted : Uuid → LifecycleStatus → Error
  -- publish-event.service.ts
  no_draft_for_event : Error
  -- model-version.service.ts
  model_version_not_found : Uuid → Error
  nothing_to_publish : Error
  label_in_use : VersionLabel → Error
  not_a_published_version : Uuid → ModelVersionState → Error
  draft_exists : Error
  invalid_snapshot : Uuid → Error
  -- what-if-branch.service.ts
  no_draft_for_branch : Error
  branch_name_taken : String → Uuid → Error
  branch_not_found branch_discarded branch_without_base : Uuid → Error
  branch_not_writable : Uuid → ModelVersionState → Error
  deleted_in_branch missing_at_base missing_in_branch : Uuid → Error
  name_taken : String → Error
  -- change-request.controller.ts and roles.guard.ts
  role_cannot_decide : Error
  role_required : List UserRole → Option UserRole → Error
  -- mapping.service.ts
  mapping_not_found : Uuid → Error
  mapping_to_retired : Uuid → Error
  no_updatable_fields : Error
  -- The database's answer to a write that breaks a foreign key, which no service catches.
  foreign_key_violated : Error

-- What a promise settles to: a value, or the exception that it is rejected with.
pub data Result {ℓ} (A : Type ℓ) : Type ℓ where
  ok : A → Result A
  err : Error → Result A

-- A lookup whose miss throws.
abbrev pub or_fail {ℓ} : {A : Type ℓ} → Option A → Error → Result A
or_fail (some found) thrown = ok found
or_fail none thrown = err thrown

module _ {κ} {B : Type κ} where
  -- A check, then what it guards.
  infixl 5 ◌>>◌
  abbrev pub ◌>>◌ : Result (Unit {0}) → Result B → Result B
  ok _ >> guarded = guarded
  err thrown >> guarded = err thrown

  -- `await`: what follows sees the value, and an exception skips it.
  infixl 5 ◌>>=◌
  abbrev pub ◌>>=◌ {ℓ} : {A : Type ℓ} → Result A → (A → Result B) → Result B
  ok value >>= after = after value
  err thrown >>= after = err thrown

pub check-cases : (r : Result (Unit {0})) → (r ≡ ok tt) ⊎ ((e : Error) × (r ≡ err e))
check-cases (ok tt) = inl refl
check-cases (err e) = inr (e, refl)

pub Result-cases {ℓ} :
    {A : Type ℓ} (r : Result A) → ((a : A) × (r ≡ ok a)) ⊎ ((e : Error) × (r ≡ err e))
Result-cases (ok a) = inl (a, refl)
Result-cases (err e) = inr (e, refl)
