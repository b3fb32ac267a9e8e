-- ===== src/ChangeRequest.antt =====
-- apps/api/src/change-request/change-request.service.ts: the life of a change request. A handler
-- first reads the request (`find_one`) and then writes. The modules below take what was read as an
-- argument, so that a handler can also run on a read that other handlers have overtaken.
pub mod Store
pub mod Transitions
pub mod Decisions
pub mod Execution
pub mod Apply
