-- ===== src/Db/Tasks.antt =====
-- src/db.ts: createTask, claimNextTask, heartbeatTask, updateTaskStatus.
pub mod Claim
pub mod Legal
mod Tests
use agent_control_center_cor.Base.{
  ℕ, ◌+◌, String, Bool, false, not, ◌&&◌, ◌||◌, Option, none, some, List, [], ◌∷◌, Result, ok, err,
  ltb, eqb, ◌==◌, if◌then◌else◌, select_where, first_where, order_first, length, get_or,
}
use agent_control_center_cor.Base.Text.{trim}
use agent_control_center_cor.Base.Decimal.{concat, decimal}
use agent_control_center_cor.Json.{Json, str, obj, field, end}
use agent_control_center_cor.Protocol.{
  AgentSelection, Priority, RouteMode, Risk, RoutePlan, RouteStep, TaskPayload, TaskStatus,
  TransitionError, same_task_status, assert_task_transition,
}
use agent_control_center_cor.Db.State.{
  Db, DbError, TaskRow, RouteStepRow, RouteStepStatus, EventLevel, transition, worker_required,
  task_not_found, task_changed, task_not_claimed,
}
use agent_control_center_cor.Db.Action.{
  Action, ◌>>=◌, ◌>>◌, pure, gets, required, check, lift, update_tasks, transaction,
}
use agent_control_center_cor.Db.Insert.{insert_task, insert_step, insert_event}

abbrev selection_name : AgentSelection → String
selection_name AgentSelection.auto = "auto"
selection_name AgentSelection.codex = "codex"
selection_name AgentSelection.claude = "claude"
selection_name AgentSelection.openclaw = "openclaw"
selection_name AgentSelection.parallel = "parallel"

abbrev mode_name : RouteMode → String
mode_name RouteMode.single = "single"
mode_name RouteMode.sequential = "sequential"
mode_name RouteMode.parallel = "parallel"

abbrev risk_name : Risk → String
risk_name Risk.normal = "normal"
risk_name Risk.high = "high"

-- The row of a new task. `generated` is `task_${randomUUID()}`.
abbrev pub new_task_row : TaskPayload → RoutePlan → String → ℕ → TaskRow
new_task_row task plan generated created_at = record {
  id = get_or task.id generated;
  goal = task.goal;
  repo = task.repo;
  base_ref = task.base_ref;
  requested_agent = task.agent;
  priority = task.priority;
  context = task.context;
  success_criteria = task.success_criteria;
  verification_command = task.verification_command;
  handoff_required = task.handoff_required;
  status = TaskStatus.queued;
  route_mode = plan.mode;
  route_risk = plan.risk;
  route_reasons = plan.reasons;
  latest_update = concat (
      "Queued with "
      ∷ decimal (length plan.steps)
      ∷ " route step"
      ∷ (if eqb (length plan.steps) 1 then "" else "s")
      ∷ "."
      ∷ []);
  claimed_by = none;
  claimed_at = none;
  created_at = created_at;
  updated_at = created_at;
}

abbrev new_step_row : String → ℕ → RouteStep → RouteStepRow
new_step_row task_id created_at step = record {
  id = step.id;
  task_id = task_id;
  sequence_no = step.sequence;
  agent = step.agent;
  role = step.role;
  required = step.required;
  reason = step.reason;
  status = RouteStepStatus.pending;
  run_id = none;
  created_at = created_at;
  updated_at = created_at;
}

insert_steps : String → ℕ → List RouteStep → Action (Unit {0})
insert_steps task_id created_at [] = pure tt
insert_steps task_id created_at (step ∷ steps) = do
  insert_step (new_step_row task_id created_at step)
  insert_steps task_id created_at steps

-- `createTask` on a payload and a plan that their schemas have passed; it returns the id.
pub create_task : TaskPayload → RoutePlan → String → ℕ → Action String
create_task task plan generated created_at =
    let id = get_or task.id generated in
    transaction do
      insert_task (new_task_row task plan generated created_at)
      insert_steps id created_at plan.steps
      insert_event id none "task.created" EventLevel.info
          (concat ("Task queued via " ∷ selection_name task.agent ∷ "." ∷ []))
          (some (
            obj (
              field "routeMode" (str (mode_name plan.mode))
                (field "risk" (str (risk_name plan.risk)) end))))
          created_at
      pure id

-- CASE priority WHEN 'urgent' THEN 0 WHEN 'high' THEN 1 WHEN 'normal' THEN 2 ELSE 3 END
abbrev pub priority_rank : Priority → ℕ
priority_rank Priority.urgent = 0
priority_rank Priority.high = 1
priority_rank Priority.normal = 2
priority_rank Priority.low = 3

-- ORDER BY the rank, created_at
unfoldable pub claims_before : TaskRow → TaskRow → Bool
claims_before t u =
    ltb (priority_rank t.priority) (priority_rank u.priority)
    || (eqb (priority_rank t.priority) (priority_rank u.priority) && ltb t.created_at u.created_at)

abbrev pub is_queued : TaskRow → Bool
is_queued t = same_task_status t.status TaskStatus.queued

pub claim_candidate : Db → Option TaskRow
claim_candidate db = order_first claims_before (select_where is_queued db.tasks)

abbrev pub claimed_row : String → ℕ → TaskRow → TaskRow
claimed_row worker_id claimed_at t = record t {
  status = TaskStatus.running;
  claimed_by = some worker_id;
  claimed_at = some claimed_at;
  latest_update = concat ("Claimed by " ∷ worker_id ∷ "." ∷ []);
  updated_at = claimed_at;
}

abbrev claim_found : String → ℕ → Option TaskRow → Action (Option String)
claim_found worker_id claimed_at none = pure none
claim_found worker_id claimed_at (some candidate) = do
  changes ←
      update_tasks (λ t. t.id == candidate.id && is_queued t) (claimed_row worker_id claimed_at)
  if eqb changes 1
      then (do
        insert_event candidate.id none "task.claimed" EventLevel.info
            (concat ("Task claimed by " ∷ worker_id ∷ "." ∷ []))
            (some (obj (field "workerId" (str worker_id) end))) claimed_at
        pure (some candidate.id))
      else pure none

-- `claimNextTask`, as far as the id of the task that it claimed.
pub claim_next_task : String → ℕ → Action (Option String)
claim_next_task worker_id claimed_at =
    transaction do candidate ← gets claim_candidate; claim_found worker_id claimed_at candidate

abbrev is_owned_by : String → Option String → Bool
is_owned_by worker none = false
is_owned_by worker (some w) = w == worker

unfoldable pub heartbeat_task : String → String → ℕ → Action ℕ
heartbeat_task task_id worker_id heartbeat_at =
    let worker = trim worker_id in
    do
      check (not (worker == "")) worker_required
      changes ←
          update_tasks
            (λ t.
              t.id == task_id
              && same_task_status t.status TaskStatus.running
              && is_owned_by worker t.claimed_by)
            (λ t. record t { claimed_at = some heartbeat_at; updated_at = heartbeat_at })
      check (eqb changes 1) (task_not_claimed task_id worker)
      pure heartbeat_at

abbrev pub find_task : String → Db → Option TaskRow
find_task id db = first_where (λ (t : TaskRow). t.id == id) db.tasks

abbrev pub db_transition : Result TransitionError (Unit {0}) → Result DbError (Unit {0})
db_transition (ok u) = ok tt
db_transition (err e) = err (transition e)

abbrev pub is_running : TaskStatus → Bool
is_running s = same_task_status s TaskStatus.running

abbrev pub status_update : TaskStatus → String → ℕ → TaskRow → TaskRow
status_update status latest_update updated_at t = record t {
  status = status;
  latest_update = latest_update;
  claimed_by = if is_running status then t.claimed_by else none;
  claimed_at = if is_running status then t.claimed_at else none;
  updated_at = updated_at;
}

-- `updateTaskStatus`. Its SELECT and its UPDATE are two statements outside a transaction, and
-- another process may write between them: `seen` is the database that the SELECT reads.
unfoldable pub update_task_status : Db → String → TaskStatus → String → ℕ → Action (Unit {0})
update_task_status seen task_id status latest_update updated_at = do
  row ← required (find_task task_id seen) (task_not_found task_id)
  lift (db_transition (assert_task_transition row.status status))
  changes ←
      update_tasks (λ t. t.id == task_id && same_task_status t.status row.status)
        (status_update status latest_update updated_at)
  check (eqb changes 1) (task_changed task_id)
