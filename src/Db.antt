-- ===== src/Db.antt =====
-- src/db.ts: `ControlCenterDb`, its tables as lists of rows in the order of their rowids.
pub mod State
pub mod Samples
pub mod Action
pub mod Insert
pub mod Legal
pub mod Tasks
pub mod Runs
pub mod Reviews
pub mod Recovery
pub mod Journal
pub mod Idempotency
pub mod Calls
