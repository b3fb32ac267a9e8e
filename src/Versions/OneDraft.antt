-- ===== src/Versions/OneDraft.antt =====
-- The model versions over a run of the service: drafts, publications, rollbacks and branches.
pub mod Rows
pub mod Kept
pub mod System
pub mod Runs
pub mod Safety
