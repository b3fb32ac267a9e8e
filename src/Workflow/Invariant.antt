-- ===== src/Workflow/Invariant.antt =====
-- What holds in every reachable state of the workflow, part by part: each part is kept by each move.
pub mod Reads
pub mod Approvals
pub mod Locking
pub mod Trail
