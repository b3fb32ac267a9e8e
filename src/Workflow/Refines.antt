-- ===== src/Workflow/Refines.antt =====
-- Each handler of the change-request service makes a move of the abstract workflow, on any read
-- that is still held.
pub mod Plain
pub mod Decision
pub mod Locking
