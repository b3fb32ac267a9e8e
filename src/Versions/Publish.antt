-- ===== src/Versions/Publish.antt =====
-- `getOrCreateDraft` and `publishSnapshot`.
use ecm_management.Base.{
  suc, Bool, true, false, Option, none, some, List, ◌∷◌, String, if◌then◌else◌, ◌==◌, str_eq,
  find_first, update_many,
}
use ecm_management.Schema.{
  Uuid, ActorId, Time, ModelVersion, ModelVersionState, BranchType, VersionLabel, AuditAction,
  AuditEntityType, AuditMetadata, published_as, PublishEventType, model_version_ref, Db,
  nothing_to_publish, label_in_use, Result, ok, err, ◌>>=◌, ◌>>◌, or_fail,
}
use ecm_management.Structural.History.{is_main_draft, new_draft}
use ecm_management.Delivery.{record_model_version_event}

unfoldable pub get_current_draft : Db → Option ModelVersion
get_current_draft db = find_first is_main_draft db.model_versions

unfoldable pub add_version : ModelVersion → Db → Db
add_version v db = record db {
  model_versions = v ∷ db.model_versions;
  next_uuid = suc db.next_uuid;
}

unfoldable pub get_or_create_draft : ActorId → Time → Db → ModelVersion × Db
unfolding add_version
get_or_create_draft actor_id now db = elim (get_current_draft db) [
  | some existing ↦ (existing, db)
  | none ↦ (
    new_draft db.next_uuid actor_id none now,
    add_version (new_draft db.next_uuid actor_id none now) db,
  )
]

pub record PublishDto : Type 0 where
  pub version_label : String
  pub description : Option String
  pub notes : Option String
  pub approved_by : Option ActorId
  pub actor_id : ActorId

-- Whether a label is the one that a user asks for.
abbrev pub is_label : String → VersionLabel → Bool
is_label wanted (VersionLabel.named t) = str_eq t wanted
is_label wanted _ = false

-- The guard on the label: another version must not have it.
unfoldable pub label_free : String → Uuid → List ModelVersion → Result (Unit {0})
label_free wanted draft_id versions =
    elim (find_first (λ v. is_label wanted v.version_label) versions) [
      | none ↦ ok tt
      | some v ↦ if v.id == draft_id then ok tt else err (label_in_use (VersionLabel.named wanted))
    ]

unfoldable pub is_main_published : ModelVersion → Bool
is_main_published v = elim v.branch_type [
  | BranchType.main ↦ elim v.state [ ModelVersionState.published ↦ true | _ ↦ false ]
  | BranchType.what_if ↦ false
]

-- 1. PUBLISHED → ROLLED_BACK
unfoldable pub archive_published : List ModelVersion → List ModelVersion
archive_published =
    update_many is_main_published (λ v. record v { state = ModelVersionState.rolled_back })

-- 2. DRAFT → PUBLISHED
unfoldable pub promote : PublishDto → Time → ModelVersion → ModelVersion
promote dto now v = record v {
  state = ModelVersionState.published;
  version_label = VersionLabel.named dto.version_label;
  description = dto.description;
  notes = dto.notes;
  approved_by = dto.approved_by;
  published_at = some now;
}

unfoldable pub promote_draft : PublishDto → Uuid → Time → List ModelVersion → List ModelVersion
promote_draft dto draft_id now = update_many (λ v. v.id == draft_id) (promote dto now)

-- The transaction, with the draft that it found.
unfoldable pub publish_draft : PublishDto → Uuid → Time → Db → Uuid × Db
publish_draft dto draft_id now db = (
  db.next_uuid,
  record_model_version_event PublishEventType.published draft_id (some draft_id)
      (some (model_version_ref draft_id)) none now
      (add_version (new_draft db.next_uuid dto.actor_id (some draft_id) now) (record db {
        model_versions = promote_draft dto draft_id now (archive_published db.model_versions);
      })),
)

-- auditService.record for a model version.
unfoldable pub record_version_audit : Uuid → AuditAction → ActorId → AuditMetadata → Time → Db → Db
record_version_audit id action actor_id metadata now db = record db {
  audit_entries =
      record {
        entity_type = AuditEntityType.model_version;
        entity_id = id;
        action = action;
        actor_id = actor_id;
        metadata = metadata;
        timestamp = now;
      }
      ∷ db.audit_entries;
}

-- The ids of the published version and of the new draft, and the database.
unfoldable pub publish_snapshot : PublishDto → Time → Db → Result ((Uuid × Uuid) × Db)
publish_snapshot dto now db = do
  draft ← or_fail (get_current_draft db) nothing_to_publish
  label_free dto.version_label draft.id db.model_versions
  let (new_draft_id, db') = publish_draft dto draft.id now db
  ok (
    (draft.id, new_draft_id),
    record_version_audit draft.id AuditAction.publish dto.actor_id
        (published_as dto.version_label new_draft_id) now db',
  )
