-- ===== src/Structural/History.antt =====
-- apps/api/src/versioning/capability-version.service.ts: the field-level delta of two snapshots, and
-- `recordChange`, which appends an entry to a capability's history in the MAIN draft.
pub mod Delta
use ecm_management.Base.{
  suc, Bool, true, false, ◌&&◌, not, Option, none, some, List, [], ◌∷◌, ◌++◌, map, String,
  if◌then◌else◌, ◌==◌, str_eq, find_first,
}
use ecm_management.Schema.{
  Uuid, ActorId, Time, Rationale, Capability, CapabilityType, LifecycleStatus, Json, null, text,
  texts, flag, uuid, moment, merge_note, Snapshot, ChangedField, CapabilityVersion,
  CapabilityVersionChangeType, ModelVersion, ModelVersionState, BranchType, VersionLabel, Db,
}

unfoldable pub type_text : CapabilityType → String
type_text CapabilityType.abstract = "ABSTRACT"
type_text CapabilityType.leaf = "LEAF"

unfoldable pub lifecycle_text : LifecycleStatus → String
lifecycle_text LifecycleStatus.draft = "DRAFT"
lifecycle_text LifecycleStatus.active = "ACTIVE"
lifecycle_text LifecycleStatus.deprecated = "DEPRECATED"
lifecycle_text LifecycleStatus.retired = "RETIRED"

unfoldable pub nullable {ℓ} : {A : Type ℓ} → (A → Json) → Option A → Json
nullable f none = null
nullable f (some a) = f a

unfoldable pub rationale_json : Rationale → Json
rationale_json (Rationale.written t) = text t
rationale_json (Rationale.merged_into survivor change_request) = merge_note survivor change_request

-- A row as the plain object that Prisma returns.
unfoldable pub snapshot_of : Capability → Snapshot
unfolding type_text lifecycle_text nullable rationale_json
snapshot_of c =
    ("id", uuid c.id)
    ∷ ("uniqueName", text c.unique_name)
    ∷ ("aliases", texts c.aliases)
    ∷ ("description", nullable text c.description)
    ∷ ("domain", nullable text c.domain)
    ∷ ("type", text (type_text c.type))
    ∷ ("parentId", nullable uuid c.parent_id)
    ∷ ("lifecycleStatus", text (lifecycle_text c.lifecycle_status))
    ∷ ("effectiveFrom", nullable moment c.effective_from)
    ∷ ("effectiveTo", nullable moment c.effective_to)
    ∷ ("rationale", nullable rationale_json c.rationale)
    ∷ ("sourceReferences", texts c.source_references)
    ∷ ("tags", texts c.tags)
    ∷ ("stewardId", nullable text c.steward_id)
    ∷ ("stewardDepartment", nullable text c.steward_department)
    ∷ ("nameGuardrailOverride", flag c.name_guardrail_override)
    ∷ ("nameGuardrailOverrideRationale", nullable text c.name_guardrail_override_rationale)
    ∷ ("isErroneous", flag c.is_erroneous)
    ∷ ("erroneousReason", nullable text c.erroneous_reason)
    ∷ ("branchOriginId", nullable uuid c.branch_origin_id)
    ∷ ("createdAt", moment c.created_at)
    ∷ []

-- `snapshot[key]`; a key that is not there is `undefined`.
unfoldable pub entry : String → Snapshot → Option Json
entry key [] = none
entry key ((k, v) ∷ rest) = let later = entry key rest in if str_eq k key then some v else later

unfoldable pub texts_eq : List String → List String → Bool
texts_eq [] [] = true
texts_eq (x ∷ xs) (y ∷ ys) = str_eq x y && texts_eq xs ys
texts_eq _ _ = false

unfoldable pub bool_eq : Bool → Bool → Bool
bool_eq true b = b
bool_eq false b = not b

-- Equality of `JSON.stringify` on two values.
unfoldable pub json_eq : Json → Json → Bool
unfolding texts_eq bool_eq
json_eq null null = true
json_eq (text s) (text t) = str_eq s t
json_eq (texts ss) (texts ts) = texts_eq ss ts
json_eq (flag a) (flag b) = bool_eq a b
json_eq (uuid a) (uuid b) = a == b
json_eq (moment a) (moment b) = a == b
json_eq (merge_note s c) (merge_note t d) = s == t && c == d
json_eq _ _ = false

unfoldable pub entry_eq : Option Json → Option Json → Bool
entry_eq none none = true
entry_eq (some a) (some b) = json_eq a b
entry_eq _ _ = false

abbrev pub keys : Snapshot → List String
keys = map λ e. e.0

unfoldable pub elem_text : String → List String → Bool
elem_text t [] = false
elem_text t (x ∷ xs) = if str_eq x t then true else elem_text t xs

-- The keys of `before`, then those that only `after` has: the order of `new Set([...])`.
unfoldable pub new_keys : List String → Snapshot → List String
new_keys old [] = []
new_keys old ((k, v) ∷ rest) =
    let later = new_keys old rest in if elem_text k old then later else k ∷ later

-- The loop over `allKeys`: the keys whose values differ.
unfoldable pub changed : List String → Snapshot → Snapshot → List ChangedField
unfolding entry_eq
changed [] before after = []
changed (key ∷ rest) before after =
    let later = changed rest before after in
    if entry_eq (entry key before) (entry key after)
    then later
    else record { key = key; before = entry key before; after = entry key after } ∷ later

unfoldable pub created_field : String × Json → ChangedField
created_field (k, v) = record { key = k; before = some null; after = some v }

unfoldable pub deleted_field : String × Json → ChangedField
deleted_field (k, v) = record { key = k; before = some v; after = some null }

unfoldable pub compute_changed_fields : Option Snapshot → Option Snapshot → List ChangedField
unfolding created_field deleted_field
compute_changed_fields none none = []
compute_changed_fields none (some after) = map created_field after
compute_changed_fields (some before) none = map deleted_field before
compute_changed_fields (some before) (some after) =
    changed (keys before ++ new_keys (keys before) after) before after

-- findFirst({ where: { state: DRAFT, branchType: MAIN } })
unfoldable pub is_main_draft_state : ModelVersionState → BranchType → Bool
is_main_draft_state ModelVersionState.draft BranchType.main = true
is_main_draft_state _ _ = false

unfoldable pub is_main_draft : ModelVersion → Bool
unfolding is_main_draft_state
is_main_draft v = is_main_draft_state v.state v.branch_type

unfoldable pub new_draft : Uuid → ActorId → Option Uuid → Time → ModelVersion
new_draft id created_by base now = record {
  id = id;
  version_label = VersionLabel.draft_at now;
  state = ModelVersionState.draft;
  base_version_id = base;
  branch_type = BranchType.main;
  branch_name = none;
  description = none;
  notes = none;
  created_by = created_by;
  approved_by = none;
  published_at = none;
  rollback_of_version_id = none;
  created_at = now;
}

-- The draft's id, and the database with a draft in it.
unfoldable pub ensure_draft_version_id : ActorId → Time → Db → Uuid × Db
unfolding new_draft
ensure_draft_version_id created_by now db = elim (find_first is_main_draft db.model_versions) [
  | some v ↦ (v.id, db)
  | none ↦ (
    db.next_uuid,
    record db {
      model_versions = new_draft db.next_uuid created_by none now ∷ db.model_versions;
      next_uuid = suc db.next_uuid;
    },
  )
]

-- findFirst({ where: { capabilityId }, orderBy: { changedAt: 'desc' } })?.id ?? null
unfoldable pub latest_version : Uuid → List CapabilityVersion → Option Uuid
latest_version capability_id versions =
    elim (find_first (λ v. v.capability_id == capability_id) versions) [
      | none ↦ none
      | some v ↦ some v.id
    ]

unfoldable pub record_change :
    Uuid
    → CapabilityVersionChangeType
    → Option Snapshot
    → Option Snapshot
    → ActorId
    → Time
    → Db
    → Db
unfolding latest_version
record_change capability_id change_type before after changed_by now db =
    let (model_version_id, db') = ensure_draft_version_id changed_by now db in
    record db' {
      capability_versions =
          record {
            id = db'.next_uuid;
            capability_id = capability_id;
            model_version_id = model_version_id;
            change_type = change_type;
            changed_fields = compute_changed_fields before after;
            before_snapshot = before;
            after_snapshot = after;
            changed_by = changed_by;
            changed_at = now;
            previous_version_id = latest_version capability_id db'.capability_versions;
          }
          ∷ db'.capability_versions;
      next_uuid = suc db'.next_uuid;
    }
