-- ===== src/Versions/OneDraft/System.antt =====
-- The operations that write model versions, in any order, from a database that has none.
use ecm_management.Base.{◌≤◌, ◌≡◌, Option, []}
use ecm_management.Schema.{
  Uuid, ActorId, Time, CapabilityVersionChangeType, Snapshot, ModelVersion, Db, ok,
}
use ecm_management.Structural.History.{record_change}
use ecm_management.Versions.Publish.{get_or_create_draft, PublishDto, publish_snapshot}
use ecm_management.Versions.Rollback.{RollbackDto, rollback}
use ecm_management.Branches.Lifecycle.{CreateBranchDto, create_branch, discard_branch}

pub data Step : Db → Db → Type 0 where
  drafts : {db : Db} (actor : ActorId) (now : Time) → Step db (get_or_create_draft actor now db).1
  records :
      {db : Db} (capability_id : Uuid) (change_type : CapabilityVersionChangeType)
      (before after : Option Snapshot) (actor : ActorId) (now : Time)
      → Step db (record_change capability_id change_type before after actor now db)
  publishes :
      {db db' : Db} (dto : PublishDto) (now : Time) (made : Uuid × Uuid)
      → publish_snapshot dto now db ≡ ok (made, db')
      → Step db db'
  rolls_back :
      {db db' : Db} (dto : RollbackDto) (now : Time) (made : Uuid)
      → rollback dto now db ≡ ok (made, db')
      → Step db db'
  branches :
      {db db' : Db} (dto : CreateBranchDto) (actor : ActorId) (now : Time) (made : ModelVersion)
      → create_branch dto actor now db ≡ ok (made, db')
      → Step db db'
  discards : {db db' : Db} (branch_id : Uuid) → discard_branch branch_id db ≡ ok db' → Step db db'
  -- Any work on the other tables.
  works_elsewhere :
      {db db' : Db}
      → db'.model_versions ≡ db.model_versions
      → db.next_uuid ≤ db'.next_uuid
      → Step db db'

pub data Reach : Db → Type 0 where
  start : {db : Db} → db.model_versions ≡ [] → Reach db
  then_step : {db db' : Db} → Reach db → Step db db' → Reach db'
