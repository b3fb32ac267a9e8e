-- ===== src/Branches.antt =====
-- apps/api/src/versioning/what-if-branch.service.ts: branches of the model that are tried out and
-- thrown away.
pub mod Lifecycle
pub mod Projection
pub mod Edits
pub mod Discarding
pub mod Isolation
pub mod Listing
pub mod Missing
mod Examples
