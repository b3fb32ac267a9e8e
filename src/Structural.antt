-- ===== src/Structural.antt =====
-- apps/api/src/structural-ops/structural-ops.service.ts and the change history that it writes.
pub mod Hierarchy
pub mod History
pub mod Operations
pub mod Merge
pub mod Retire
