-- ===== src/Node.antt =====
-- src/node: the node's side of a federation session.
mod Tests
pub mod Store
pub mod Journal
pub mod Sqlite
pub mod Buffer
pub mod Batches
pub mod Session
pub mod Receive
