-- ===== src/Versions/Restore.antt =====
-- `buildCapabilityUpdateFromSnapshot`: a row put back to what a snapshot says. A value that its
-- column cannot hold is refused by the client, and is `none` here.
use ecm_management.Base.{◌≡◌, refl, Bool, Option, none, some, List, String}
use ecm_management.Schema.{
  Uuid, Time, Rationale, Capability, CapabilityType, LifecycleStatus, Json, null, text, texts, flag,
  uuid, moment, merge_note, Snapshot,
}
use ecm_management.Base.{str_eq, if◌then◌else◌}
use ecm_management.Structural.History.{
  entry, snapshot_of, nullable, rationale_json, type_text, lifecycle_text,
}

abbrev pub as_text : Json → Option String
as_text (text t) = some t
as_text _ = none

abbrev pub as_texts : Json → Option (List String)
as_texts (texts ts) = some ts
as_texts _ = none

abbrev pub as_flag : Json → Option Bool
as_flag (flag b) = some b
as_flag _ = none

abbrev pub as_uuid : Json → Option Uuid
as_uuid (uuid u) = some u
as_uuid _ = none

abbrev pub as_moment : Json → Option Time
as_moment (moment t) = some t
as_moment _ = none

abbrev pub as_rationale : Json → Option Rationale
as_rationale (text t) = some (Rationale.written t)
as_rationale (merge_note survivor change_request) =
    some (Rationale.merged_into survivor change_request)
as_rationale _ = none

unfoldable pub type_named : String → Option CapabilityType
type_named t =
    if str_eq t "ABSTRACT"
    then some CapabilityType.abstract
    else if str_eq t "LEAF"
    then some CapabilityType.leaf
    else none

unfoldable pub lifecycle_named : String → Option LifecycleStatus
lifecycle_named t =
    if str_eq t "DRAFT"
    then some LifecycleStatus.draft
    else if str_eq t "ACTIVE"
    then some LifecycleStatus.active
    else if str_eq t "DEPRECATED"
    then some LifecycleStatus.deprecated
    else if str_eq t "RETIRED"
    then some LifecycleStatus.retired
    else none

infixl 5 ◌and_then◌
abbrev pub ◌and_then◌ {ℓ κ} : {A : Type ℓ} {B : Type κ} → Option A → (A → Option B) → Option B
none and_then f = none
some a and_then f = f a

abbrev pub as_type : Json → Option CapabilityType
as_type v = as_text v and_then type_named

abbrev pub as_lifecycle : Json → Option LifecycleStatus
as_lifecycle v = as_text v and_then lifecycle_named

-- A nullable column: `value ?? null`.
abbrev pub or_null {ℓ} : {A : Type ℓ} → (Json → Option A) → Json → Option (Option A)
or_null f null = some none
or_null f v = f v and_then λ a. some (some a)

-- One round of the loop: a key that the snapshot lacks is skipped.
abbrev pub put {ℓ} :
    {A : Type ℓ}
    → Option Json
    → (Json → Option A)
    → (Capability → A → Capability)
    → Capability
    → Option Capability
put none f set c = some c
put (some v) f set c = f v and_then λ a. some (set c a)

-- The loop over `allowedScalars`.
unfoldable pub update_from_snapshot : Snapshot → Capability → Option Capability
unfolding entry
update_from_snapshot s c =
    put (entry "uniqueName" s) as_text (λ x a. record x { unique_name = a }) c
    and_then put (entry "aliases" s) as_texts (λ x a. record x { aliases = a })
    and_then put (entry "description" s) (or_null as_text) (λ x a. record x { description = a })
    and_then put (entry "domain" s) (or_null as_text) (λ x a. record x { domain = a })
    and_then put (entry "type" s) as_type (λ x a. record x { type = a })
    and_then put (entry "parentId" s) (or_null as_uuid) (λ x a. record x { parent_id = a })
    and_then put (entry "lifecycleStatus" s) as_lifecycle (λ x a. record x { lifecycle_status = a })
    and_then put (entry "effectiveFrom" s) (or_null as_moment)
        (λ x a. record x { effective_from = a })
    and_then put (entry "effectiveTo" s) (or_null as_moment) (λ x a. record x { effective_to = a })
    and_then put (entry "rationale" s) (or_null as_rationale) (λ x a. record x { rationale = a })
    and_then put (entry "sourceReferences" s) as_texts (λ x a. record x { source_references = a })
    and_then put (entry "tags" s) as_texts (λ x a. record x { tags = a })
    and_then put (entry "stewardId" s) (or_null as_text) (λ x a. record x { steward_id = a })
    and_then put (entry "stewardDepartment" s) (or_null as_text)
        (λ x a. record x { steward_department = a })
    and_then put (entry "nameGuardrailOverride" s) as_flag
        (λ x a. record x { name_guardrail_override = a })
    and_then put (entry "nameGuardrailOverrideRationale" s) (or_null as_text)
        (λ x a. record x { name_guardrail_override_rationale = a })
    and_then put (entry "isErroneous" s) as_flag (λ x a. record x { is_erroneous = a })
    and_then put (entry "erroneousReason" s) (or_null as_text)
        (λ x a. record x { erroneous_reason = a })

-- Reading back what a snapshot wrote.
or_null-text : (o : Option String) → or_null as_text (nullable text o) ≡ some o
unfolding nullable
or_null-text none = refl
or_null-text (some t) = refl

or_null-uuid : (o : Option Uuid) → or_null as_uuid (nullable uuid o) ≡ some o
unfolding nullable
or_null-uuid none = refl
or_null-uuid (some t) = refl

or_null-moment : (o : Option Time) → or_null as_moment (nullable moment o) ≡ some o
unfolding nullable
or_null-moment none = refl
or_null-moment (some t) = refl

or_null-rationale :
    (o : Option Rationale) → or_null as_rationale (nullable rationale_json o) ≡ some o
unfolding nullable rationale_json
or_null-rationale none = refl
or_null-rationale (some (Rationale.written t)) = refl
or_null-rationale (some (Rationale.merged_into s c)) = refl

as_type-text : (t : CapabilityType) → type_named (type_text t) ≡ some t
unfolding type_named type_text
as_type-text CapabilityType.abstract = refl
as_type-text CapabilityType.leaf = refl

as_lifecycle-text : (l : LifecycleStatus) → lifecycle_named (lifecycle_text l) ≡ some l
unfolding lifecycle_named lifecycle_text
as_lifecycle-text LifecycleStatus.draft = refl
as_lifecycle-text LifecycleStatus.active = refl
as_lifecycle-text LifecycleStatus.deprecated = refl
as_lifecycle-text LifecycleStatus.retired = refl

-- A row put back from the snapshot of another has every column of the other, but for its own id, the
-- branch that it belongs to and the time of its creation.
pub update_from_snapshot-snapshot_of :
    (c d : Capability)
    → update_from_snapshot (snapshot_of c) d
      ≡ some
          (record c { id = d.id; branch_origin_id = d.branch_origin_id; created_at = d.created_at })
unfolding update_from_snapshot snapshot_of
update_from_snapshot-snapshot_of c d =
    simp (
      or_null-text, or_null-uuid, or_null-moment, or_null-rationale, as_type-text,
      as_lifecycle-text,
    )
