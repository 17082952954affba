-- ===== src/Db/Legal.antt =====
-- How the tables of tasks and runs may change: a relation between two databases, and a rule for
-- each way in which a method of src/db.ts is put together.
mod Rows
mod Rules
mod Inserts
pub use Rows.*
pub use Rules.*
pub use Inserts.*

-- Reading, inserting elsewhere, and the ways to put actions together.
pub ruleset quiet_rules = (
  Quiet-pure, Quiet-throw, Quiet-lift, Quiet-gets, Quiet-required, Quiet-if, Quiet-check,
  Quiet-bind, Quiet-update_steps, Quiet-update_reviews, Quiet-update_messages, Quiet-insert_step,
  Quiet-insert_event, Quiet-insert_message, Quiet-insert_review,
)

-- With these `search` takes a block apart, given its one write to the tasks or runs.
pub ruleset moves_rules = (quiet_rules, Moves-transaction, Moves-bind, Moves-then)
