-- ===== src/Versions.antt =====
-- apps/api/src/versioning/model-version.service.ts: publishing, rolling back and comparing the
-- versions of the model.
pub mod Restore
pub mod States
pub mod Range
pub mod Newest
pub mod Publish
pub mod Rollback
pub mod OneDraft
pub mod Diff
pub mod Examples
