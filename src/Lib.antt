-- ===== src/Lib.antt =====
-- The services of ECM management that change the capability model: the workflow of change requests,
-- the structural operations that an approved request carries out on the capability hierarchy, the
-- versions and branches of the model, and the outbox that tells downstream systems about them.
--
-- Base holds numbers, lists and tables; Schema the rows, enums and exceptions. Then, by part:
--   Impact         apps/api/src/impact-analysis/impact-analysis.service.ts
--   Structural     apps/api/src/structural-ops/structural-ops.service.ts, and in History
--                  apps/api/src/versioning/capability-version.service.ts
--   ChangeRequest  apps/api/src/change-request/change-request.service.ts
--   Workflow       the same service as a system of handlers that run side by side
--   Versions       apps/api/src/versioning/model-version.service.ts: Publish, Rollback, States (what
--                  the model was at a version), Restore (a row from its snapshot), Diff; OneDraft
--                  holds the writes, and those of Branches, as steps over one database; Range
--                  and Newest relate States to an independent account of a version's history
--   Branches       apps/api/src/versioning/what-if-branch.service.ts: Lifecycle, Projection (the
--                  model as a branch shows it), Edits
--   Roles          apps/api/src/auth (user-role.utils.ts, roles.guard.ts), and the route of a decision
--                  in apps/api/src/change-request/change-request.controller.ts
--   Mappings       apps/api/src/mapping/mapping.service.ts
--   Delivery       apps/api/src/integration/publish-event.service.ts and
--                  publish-event-delivery-worker.service.ts; System runs workers side by side
--   Examples       a run from a request's creation to its execution
-- A function has the name of the method that it models, in snake case: `submitDecision` is
-- `submit_decision`, `assertNotDescendant` is `assert_not_descendant`.
--
-- State. A table is a list of rows, `Db` the record of all tables and of the events handed to the
-- bus. A query is a function on lists (Base/Tables); constraints are written out where a service
-- relies on one: the unique ones, and the foreign keys that the locks of an execution and the discard
-- of a branch can break (`foreign_key_violated`). Ids are numbers, and the database gives the next one
-- to a new row. A method that throws returns an `Error` (Schema/Errors). Reads and audit writes that
-- follow a commit are part of the handler.
--
-- Side by side. A handler reads its request by `find_one` and then runs one transaction. In Workflow
-- a read is a step of its own, and a handler may commit on any read made before, however stale;
-- between any two steps other services may write their own tables. A transaction is one step: it is
-- isolated, and its failure leaves the database as it was. `create` is two writes without a
-- transaction, the row (`create_row`) and the entry in the trail with the record that follows it
-- (`log_creation`), and so two steps: the second may come late, or never. The impact analysis of
-- `request_approval` and its write of the summary happen in the step of the transition that follows
-- them.
--
-- Versions, Rollback and Branches write `Db` by the same transactions. Every publication and rollback
-- records a row of the outbox (Delivery). Labels stamped with a time are taken as new. The failures of
-- the unique name and of the parent's foreign key, that the database could raise while a rollback
-- puts rows back, are not modelled.
--
-- Delivery. A worker claims a batch under leases, delivers each event and marks it. In Delivery/System
-- a claim may work on any list of candidates, however stale, a mark may come at any time after the
-- claim or never, and clocks need not agree; each run of a worker has a name that is new. The HTTP
-- delivery is the parameter `deliver`, with the error's text as formatError leaves it. The sort of a
-- branch's list by name is the parameter `collate`. The order in which a query for mappings answers
-- rows made at the same time is open: `ordered` is its order, newest first.
--
-- Fuel. Two loops are `while` loops. The walk up the hierarchy is given one round more than there are
-- rows, which is enough on every table: it stops at a row that it has met. The walk along the bases of
-- versions is bounded by the code itself, and its fuel is that bound.
--
-- Not modelled: controllers but for the route of a decision, tokens and sessions, the database client,
-- the web client, listings, capabilities outside of change requests and branches, and the registry of
-- downstream systems. Of the payload an operation reads its three keys; a key that is absent, null or
-- empty is one case. The body of a notification and updatedAt are left out: updatedAt would be one more
-- field of a delta, and would make a rollback write back a row whose other columns are unchanged. A
-- date is read by an unknown parser: its text is an instant or invalid.
pub mod Base
pub mod Schema
pub mod Impact
pub mod Structural
pub mod ChangeRequest
pub mod Workflow
pub mod Roles
pub mod Delivery
pub mod Mappings
pub mod Versions
pub mod Branches
pub mod Examples
