-- ===== src/Lib.antt =====
-- A model of the core of agent-control-center-core, a local control plane for coding agents: tasks
-- are queued, claimed by workers, executed as runs of agents, reviewed by people, and reported to a
-- cloud over the federation protocol ACCP. Paths are from the repository's root.
--
-- Parts and files
--   Protocol         src/protocol.ts: statuses, payloads, routes, transition tables, the task id
--                    schema (Protocol/TaskId). TASK_TRANSITIONS is task_transitions, and
--                    assertTaskTransition is assert_task_transition; likewise for runs.
--   Db               src/db.ts: the tables are lists of rows (Db/State), a method that writes is an
--                    Action (Db/Action), INSERT with its constraints is Db/Insert. createTask,
--                    claimNextTask, heartbeatTask and updateTaskStatus are in Db/Tasks, runs and
--                    route steps in Db/Runs, reviews, rework and retry in Db/Reviews, crash recovery
--                    in Db/Recovery, events and messages in Db/Journal, idempotency keys in
--                    Db/Idempotency. A method has its source's name in snake case. Db/Calls is any
--                    sequence of calls; Db/Legal says what a call may do to tasks and runs.
--   Accp             src/accp/envelope.ts and src/accp/seal.ts: the dedup index, the cursor
--                    decision, the verification of an envelope.
--   Kernel           src/kernel/bridge.ts: KernelBridge and SimulatedKernel.
--   Node             src/node/state-store.ts (Node/Store) and src/node/session.ts: the overflow policy
--                    (Node/Buffer), the batches of flush (Node/Batches), the session's state,
--                    handshake and events (Node/Session), flush and receive (Node/Receive).
--                    Node/Journal has the methods of NodeStateStore as calls, Node/Sqlite the journal
--                    in a database file, and Node/Sqlite/Refines compares the two.
--   Migrations       src/migrations/runner.ts: the check of the list (assertMigrationList), the row
--                    counts and their check, and in Migrations/Run runMigrations: migrate_one is one
--                    iteration of its loop, migrate_locked what it does under the write lock.
--   Router           src/router.ts: routeTask, with its regular expressions in Router/Words.
--   Coordinator      src/coordinator.ts: the worker's state, and code that may throw (Attempt, Job).
--                    Coordinator/Step has #unavailableStep and #executeStep up to the start of the
--                    agent, Coordinator/Step/Verification #runVerification, Coordinator/Step/Run the rest:
--                    run_agent is the try and recover the catch. Coordinator/Execute has how a task
--                    ends, Coordinator/Execute/Sequences executeTask and #executeClaimedTask.
--   Base, Json       what the parts share: tests, table operations, text, JSON values.
-- The session verifies what it receives by Accp, asks Kernel about offers, and writes its journal
-- before it answers. The database stands alone: the coordinator and the HTTP daemon
-- call its methods.
-- Migrations run on the database's file before it is served; the router's plan is stored with the task.
--
-- Choices
--   An instant is its number of milliseconds, since the ISO texts that the database stores order as
--   their instants do. In the session a time that is only sent is its text. A JSON column holds the
--   parsed value. Random ids are arguments, or drawn from a function of the count of the draws.
--   A transaction of the database begins and commits, and a ROLLBACK gives back what was there, as SQLite
--   documents. While a task ends others may write as its handoff is written,
--   and do not between the write of its status and the event that tells of it.
--   SQL rows that tie in an ORDER BY come in table order.
--   One method at a time holds the write connection, so a method is a function of the database.
--   Where a method reads and writes in separate statements outside a transaction, it gets as an
--   argument the database that its read saw, or what other processes did in between.
--   Numbers are natural: ids, cursors, counts and times are not negative in the source's schemas.
--   Fuel: the overflow loop gets one round more than there are events, and each round deletes one;
--   the batches of a run get its length, and each takes at least one event when the size is positive.
--   The commits of other connections during a migration fall before its BEGIN IMMEDIATE. PRAGMA
--   user_version keeps the version that is written, which SQLite does below 2 ^ 31.
--   A regular expression is a term that is matched with what follows it; none of them repeats.
--   zod, node:crypto, Date.parse and String(value) are parameters (Checks, Config), and
--   so are JSON.stringify and JSON.parse of the journal (Codec), `up` of a migration, and what SQLite
--   answers to BEGIN, COMMIT, integrity_check and VACUUM INTO (World).
--   In the coordinator, StepWorld and TaskWorld are what adapters, worktrees, the verifier, the artifact
--   store and the clock answer. At the awaits that wait for them `meanwhile` is what others do to the worker.
--   The steps of one group run one after the other.
--
-- Not modelled: the coordinator's wrappers of reviews, messages and stops, its prompts and the text of its
-- handoff, the daemon and its lease, HTTP, CLI and MCP, adapters, worktrees, the
-- verifier, artifacts (addArtifact reads a file), the SQL of the migrations, the signing bytes, sockets
-- and timers: they are I/O around these parts or not covered yet.
mod Base
pub mod Json
pub mod Protocol
pub mod Db
pub mod Accp
pub mod Kernel
pub mod Node
pub mod Migrations
pub mod Router
pub mod Coordinator
