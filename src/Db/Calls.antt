-- ===== src/Db/Calls.antt =====
-- Any sequence of calls of the writing methods of src/db.ts. A method that reads before it writes
-- outside a transaction gets as `seen` whatever database another process let it read.
mod Tests
use agent_control_center_cor.Db.Tasks
use agent_control_center_cor.Db.Runs
use agent_control_center_cor.Db.Reviews
use agent_control_center_cor.Db.Recovery
use agent_control_center_cor.Db.Journal
use agent_control_center_cor.Db.Idempotency
use agent_control_center_cor.Base.{
  ℕ, String, ◌≡◌, ◌⊎◌, inl, inr, true, Bool, Option, List, [], ◌∷◌, arith, All, subst, sym,
}
use agent_control_center_cor.Json.{Json}
use agent_control_center_cor.Protocol.{
  RoutePlan, TaskPayload, TaskStatus, may_move_task, may_move_run,
}
use agent_control_center_cor.Db.State.{
  Db, TaskRow, RunRow, RouteStepStatus, EventLevel, Direction, DeliveryStatus, IdempotencyRow,
}
use agent_control_center_cor.Db.Action.{Action}
use agent_control_center_cor.Db.Legal.{
  IsLegal, Evolves, TaskStep, IsNewTask, RunStep, IsNewRun, IsOwned, Quiet, Moves, Moves-Quiet,
  quiet_rules,
}
use agent_control_center_cor.Db.Tasks.Legal.{
  Moves-create_task, Moves-claim_next_task, Moves-heartbeat_task, Moves-update_task_status,
}
use agent_control_center_cor.Db.Runs.{Patch, CreateRunInput, UpdateRunPatch}
use agent_control_center_cor.Db.Runs.Legal.{
  Moves-create_run, Moves-update_run, Quiet-update_route_step, Quiet-reset_route_steps,
}
use agent_control_center_cor.Db.Reviews.{Decision, Outcome, Expected}
use agent_control_center_cor.Db.Reviews.Legal.{
  Moves-finalize_task_execution, Moves-approve_task_review, Moves-request_task_rework,
  Moves-retry_blocked_task, Quiet-create_review, Quiet-decide_review,
}
use agent_control_center_cor.Db.Recovery.Closes.{
  Moves-recover_stale_tasks, Moves-recover_tasks_owned_by,
}
use agent_control_center_cor.Db.Journal.Legal.{
  Quiet-append_event, Quiet-add_message, Quiet-update_message_delivery,
}
use agent_control_center_cor.Db.Idempotency.Legal.{
  Quiet-claim_idempotency_key, Quiet-complete_idempotency_key, Quiet-release_idempotency_key,
}

pub data Call : Type 0 where
  create_task : TaskPayload → RoutePlan → String → ℕ → Call
  claim_next_task : String → ℕ → Call
  heartbeat_task : String → String → ℕ → Call
  recover_stale_tasks : (ℕ → String) → Option ℕ → String → ℕ → Call
  recover_tasks_owned_by : (ℕ → String) → String → String → ℕ → Call
  update_task_status : Db → String → TaskStatus → String → ℕ → Call
  update_route_step : Db → String → Patch RouteStepStatus → Patch (Option String) → ℕ → Call
  reset_route_steps : String → ℕ → Call
  create_run : Db → CreateRunInput → String → ℕ → Call
  update_run : Db → String → UpdateRunPatch → ℕ → Call
  append_event :
      String → Option String → String → Option EventLevel → String → Option Json → ℕ → Call
  add_message :
      String
      → String
      → Option String
      → Direction
      → String
      → String
      → Option DeliveryStatus
      → ℕ
      → Call
  update_message_delivery : String → DeliveryStatus → Call
  create_review : String → String → Option String → Option String → ℕ → Call
  decide_review : String → Decision → Option String → ℕ → Call
  finalize_task_execution : String → Outcome → String → Option String → String → ℕ → Call
  approve_task_review : String → Option String → Option Expected → ℕ → Call
  request_task_rework : String → String → Option Expected → String → ℕ → Call
  retry_blocked_task : String → Option String → Bool → String → ℕ → Call
  claim_idempotency_key : (List IdempotencyRow → List IdempotencyRow) → String → String → ℕ → Call
  complete_idempotency_key : String → String → ℕ → String → ℕ → Call
  release_idempotency_key : String → String → Call

abbrev after : {A : Type 0} → Action A → Db → Db
after m db = (m db).1

-- The database that a call leaves, whether it returns or throws.
unfoldable pub perform : Call → Db → Db
perform (Call.create_task x0 x1 x2 x3) db = after (Tasks.create_task x0 x1 x2 x3) db
perform (Call.claim_next_task x0 x1) db = after (Tasks.claim_next_task x0 x1) db
perform (Call.heartbeat_task x0 x1 x2) db = after (Tasks.heartbeat_task x0 x1 x2) db
perform (Call.recover_stale_tasks x0 x1 x2 x3) db =
    after (Recovery.recover_stale_tasks x0 x1 x2 x3) db
perform (Call.recover_tasks_owned_by x0 x1 x2 x3) db =
    after (Recovery.recover_tasks_owned_by x0 x1 x2 x3) db
perform (Call.update_task_status x0 x1 x2 x3 x4) db =
    after (Tasks.update_task_status x0 x1 x2 x3 x4) db
perform (Call.update_route_step x0 x1 x2 x3 x4) db =
    after (Runs.update_route_step x0 x1 x2 x3 x4) db
perform (Call.reset_route_steps x0 x1) db = after (Runs.reset_route_steps x0 x1) db
perform (Call.create_run x0 x1 x2 x3) db = after (Runs.create_run x0 x1 x2 x3) db
perform (Call.update_run x0 x1 x2 x3) db = after (Runs.update_run x0 x1 x2 x3) db
perform (Call.append_event x0 x1 x2 x3 x4 x5 x6) db =
    after (Journal.append_event x0 x1 x2 x3 x4 x5 x6) db
perform (Call.add_message x0 x1 x2 x3 x4 x5 x6 x7) db =
    after (Journal.add_message x0 x1 x2 x3 x4 x5 x6 x7) db
perform (Call.update_message_delivery x0 x1) db = after (Journal.update_message_delivery x0 x1) db
perform (Call.create_review x0 x1 x2 x3 x4) db = after (Reviews.create_review x0 x1 x2 x3 x4) db
perform (Call.decide_review x0 x1 x2 x3) db = after (Reviews.decide_review x0 x1 x2 x3) db
perform (Call.finalize_task_execution x0 x1 x2 x3 x4 x5) db =
    after (Reviews.finalize_task_execution x0 x1 x2 x3 x4 x5) db
perform (Call.approve_task_review x0 x1 x2 x3) db =
    after (Reviews.approve_task_review x0 x1 x2 x3) db
perform (Call.request_task_rework x0 x1 x2 x3 x4) db =
    after (Reviews.request_task_rework x0 x1 x2 x3 x4) db
perform (Call.retry_blocked_task x0 x1 x2 x3 x4) db =
    after (Reviews.retry_blocked_task x0 x1 x2 x3 x4) db
perform (Call.claim_idempotency_key x0 x1 x2 x3) db =
    after (Idempotency.claim_idempotency_key x0 x1 x2 x3) db
perform (Call.complete_idempotency_key x0 x1 x2 x3 x4) db =
    after (Idempotency.complete_idempotency_key x0 x1 x2 x3 x4) db
perform (Call.release_idempotency_key x0 x1) db =
    after (Idempotency.release_idempotency_key x0 x1) db

-- Whatever the call and whether it returns or throws: every task and every run moves along the
-- transition tables or keeps its status; no task or run disappears or changes its id; a new task
-- or run is queued; a run keeps its task and attempt number; and a task that has a worker recorded
-- is running, if that was so before.
pub perform-IsLegal : (call : Call) (db : Db) → IsLegal db (perform call db)
unfolding perform
perform-IsLegal (Call.create_task x0 x1 x2 x3) db = (Moves-create_task x0 x1 x2 x3).at db
perform-IsLegal (Call.claim_next_task x0 x1) db = (Moves-claim_next_task x0 x1).at db
perform-IsLegal (Call.heartbeat_task x0 x1 x2) db = (Moves-heartbeat_task x0 x1 x2).at db
perform-IsLegal (Call.recover_stale_tasks x0 x1 x2 x3) db =
    (Moves-recover_stale_tasks x0 x1 x2 x3).at db
perform-IsLegal (Call.recover_tasks_owned_by x0 x1 x2 x3) db =
    (Moves-recover_tasks_owned_by x0 x1 x2 x3).at db
perform-IsLegal (Call.update_task_status x0 x1 x2 x3 x4) db =
    (Moves-update_task_status x0 x1 x2 x3 x4).at db
perform-IsLegal (Call.update_route_step x0 x1 x2 x3 x4) db =
    (Moves-Quiet (Quiet-update_route_step x0 x1 x2 x3 x4)).at db
perform-IsLegal (Call.reset_route_steps x0 x1) db =
    (Moves-Quiet (Quiet-reset_route_steps x0 x1)).at db
perform-IsLegal (Call.create_run x0 x1 x2 x3) db = (Moves-create_run x0 x1 x2 x3).at db
perform-IsLegal (Call.update_run x0 x1 x2 x3) db = (Moves-update_run x0 x1 x2 x3).at db
perform-IsLegal (Call.append_event x0 x1 x2 x3 x4 x5 x6) db =
    (Moves-Quiet (Quiet-append_event x0 x1 x2 x3 x4 x5 x6)).at db
perform-IsLegal (Call.add_message x0 x1 x2 x3 x4 x5 x6 x7) db =
    (Moves-Quiet (Quiet-add_message x0 x1 x2 x3 x4 x5 x6 x7)).at db
perform-IsLegal (Call.update_message_delivery x0 x1) db =
    (Moves-Quiet (Quiet-update_message_delivery x0 x1)).at db
perform-IsLegal (Call.create_review x0 x1 x2 x3 x4) db =
    (Moves-Quiet (Quiet-create_review x0 x1 x2 x3 x4)).at db
perform-IsLegal (Call.decide_review x0 x1 x2 x3) db =
    (Moves-Quiet (Quiet-decide_review x0 x1 x2 x3)).at db
perform-IsLegal (Call.finalize_task_execution x0 x1 x2 x3 x4 x5) db =
    (Moves-finalize_task_execution x0 x1 x2 x3 x4 x5).at db
perform-IsLegal (Call.approve_task_review x0 x1 x2 x3) db =
    (Moves-approve_task_review x0 x1 x2 x3).at db
perform-IsLegal (Call.request_task_rework x0 x1 x2 x3 x4) db =
    (Moves-request_task_rework x0 x1 x2 x3 x4).at db
perform-IsLegal (Call.retry_blocked_task x0 x1 x2 x3 x4) db =
    (Moves-retry_blocked_task x0 x1 x2 x3 x4).at db
perform-IsLegal (Call.claim_idempotency_key x0 x1 x2 x3) db =
    (Moves-Quiet (Quiet-claim_idempotency_key x0 x1 x2 x3)).at db
perform-IsLegal (Call.complete_idempotency_key x0 x1 x2 x3 x4) db =
    (Moves-Quiet (Quiet-complete_idempotency_key x0 x1 x2 x3 x4)).at db
perform-IsLegal (Call.release_idempotency_key x0 x1) db =
    (Moves-Quiet (Quiet-release_idempotency_key x0 x1)).at db

abbrev pub empty_db : Db
empty_db = record {
  tasks = [];
  steps = [];
  runs = [];
  events = [];
  next_event = 1;
  artifacts = [];
  messages = [];
  reviews = [];
  keys = [];
}

unfoldable pub perform_all : List Call → Db → Db
perform_all [] db = db
perform_all (call ∷ calls) db = perform_all calls (perform call db)

Evolves-IsOwned :
    (ts us : List TaskRow) → Evolves TaskStep IsNewTask ts us → All IsOwned ts → All IsOwned us
Evolves-IsOwned [] [] h k = tt
Evolves-IsOwned [] (u ∷ us) h k = (h.0.owned, Evolves-IsOwned [] us h.1 tt)
Evolves-IsOwned (t ∷ ts) [] h k = absurd h
Evolves-IsOwned (t ∷ ts) (u ∷ us) h k = (h.0.owned k.0, Evolves-IsOwned ts us h.1 k.1)

perform_all-IsOwned :
    (calls : List Call) (db : Db) → All IsOwned db.tasks → All IsOwned (perform_all calls db).tasks
unfolding perform_all
perform_all-IsOwned [] db h = h
perform_all-IsOwned (call ∷ calls) db h =
    perform_all-IsOwned calls (perform call db)
      (Evolves-IsOwned db.tasks (perform call db).tasks (perform-IsLegal call db).tasks h)

-- In a database that any calls have built, a task that is not running has neither a worker nor a
-- claim time recorded.
pub reachable-IsOwned : (calls : List Call) → All IsOwned (perform_all calls empty_db).tasks
reachable-IsOwned calls = perform_all-IsOwned calls empty_db tt
