-- ===== src/Coordinator/Execute.antt =====
-- src/coordinator.ts: how a task ends, #writeHandoff and #blockForShutdown.
pub mod Sequences
use Prim.Native.String.{◌++◌}
use mathlib.Core.List.{◌++◌ as append}
use agent_control_center_cor.Base.{
  ℕ, String, Bool, true, false, not, ◌&&◌, ◌||◌, Option, none, some, List, [], ◌∷◌, ◌==◌, eqb, ltb,
  any, get_or, if◌then◌else◌, first_where, select_where, order_by, Result, ok, err,
}
use agent_control_center_cor.Base.Text.{text_before, starts_with}
use agent_control_center_cor.Json.{Json, obj, field, end, str}
use agent_control_center_cor.Protocol.{Risk, RouteMode, TaskStatus, RunStatus, same_run_status}
use agent_control_center_cor.Db.State.{
  Db, DbError, TaskRow, RouteStepRow, RouteStepStatus, RunRow, EventLevel,
}
use agent_control_center_cor.Db.Tasks.{find_task, is_running, heartbeat_task, update_task_status}
use agent_control_center_cor.Db.Runs.{same_step_status}
use agent_control_center_cor.Db.Reviews.{Outcome, finalize_task_execution}
use agent_control_center_cor.Coordinator.{
  Worker, WorktreeInfo, Job, Captured, pure, ◌>>=◌, ◌>>◌, job_db, add_rows, append_event_job,
  is_filled,
}
use agent_control_center_cor.Coordinator.Names.{agent_name, role_name}
use agent_control_center_cor.Coordinator.Step.{StepWorld, StepOutcome}
use agent_control_center_cor.Coordinator.Step.Run.{execute_step}

-- What surrounds the execution of a task: the world of each of its steps, by the step's id, and the
-- handoff file, with its path or the error of writing it; `meanwhile` is what others do to the worker
-- while the file is written.
pub record TaskWorld : Type 0 where
  pub message_of : DbError → String
  pub worker_id : String
  pub now : ℕ
  pub review_id : String
  pub step_world : String → StepWorld
  pub handoff : Captured
  pub meanwhile : Worker → Worker
  pub handoff_path : String

pub data Finished : Type 0 where
  done needs_review blocked : Finished

pub record RunTaskResult : Type 0 where
  pub status : Finished
  pub handoff_path : Option String
  pub outcomes : List StepOutcome

-- ORDER BY created_at, id
abbrev pub runs_of : String → Db → List RunRow
runs_of task_id db =
    order_by
      (λ (a b : RunRow).
        ltb a.created_at b.created_at || (eqb a.created_at b.created_at && text_before a.id b.id))
      (select_where (λ (r : RunRow). r.task_id == task_id) db.runs)

-- `[...rows].reverse().find(p)`
unfoldable pub last_where : {A : Type 0} → (A → Bool) → List A → Option A
last_where p [] = none
last_where p (x ∷ xs) =
    let rest = last_where p xs in
    elim rest [ some y ↦ some y | none ↦ if p x then some x else none ]

abbrev pub id_of : Option RunRow → Option String
id_of none = none
id_of (some run) = some run.id

abbrev pub is_path : String → Option String → Bool
is_path path none = false
is_path path (some other) = other == path

abbrev pub all_of : Option String → Option String → Option String → Option WorktreeInfo
all_of (some path) (some branch) (some base) =
    some (record { worktree_path = path; branch = branch; base_commit = base })
all_of _ _ _ = none

abbrev pub refuse_if_job : Bool → String → Job (Unit {0})
refuse_if_job true message worker = (err message, worker)
refuse_if_job false message worker = (ok tt, worker)

module _ (w : TaskWorld) (task_id : String) where
  abbrev pub publish :
      Option String → String → Option EventLevel → String → Option Json → Job (Unit {0})
  publish run_id type level message data_json =
      append_event_job w.message_of task_id run_id type level message data_json w.now >> pure tt

  abbrev pub handoff_data : Option String → Option Json
  handoff_data none = none
  handoff_data (some path) = some (obj (field "handoffPath" (str path) end))

  -- The file is written only for a task that is there and has a run.
  abbrev pub has_handoff : Db → Bool
  has_handoff db = elim (find_task task_id db) [
    | none ↦ false
    | some _ ↦ any (λ (r : RunRow). r.task_id == task_id) db.runs
  ]

  abbrev pub written : Captured → Worker → Result String (Option String) × Worker
  written captured x = elim captured.failure [
    | none ↦ (ok (some w.handoff_path), add_rows captured.rows x)
    | some message ↦ (err message, add_rows captured.rows x)
  ]

  -- `#writeHandoff`, without the text of the file
  unfoldable pub write_handoff : Job (Option String)
  write_handoff x = if has_handoff x.db then written w.handoff x else (ok none, x)

  -- `try { … } catch`: the path, or the message of the error
  abbrev pub tried_handoff : Job (Result String (Option String))
  tried_handoff x = (ok (write_handoff x).0, w.meanwhile (write_handoff x).1)

  abbrev pub path_of : Result String (Option String) → Option String
  path_of (ok path) = path
  path_of (err message) = none

  abbrev pub explained : String → String → Result String (Option String) → String
  explained message between (ok path) = message
  explained message between (err failure) = message ++ (between ++ failure)

  abbrev pub set_status : TaskStatus → String → Job (Unit {0})
  set_status status update =
      job_db w.message_of (λ seen. update_task_status seen task_id status update w.now)

  abbrev pub result_of : Finished → Option String → List StepOutcome → RunTaskResult
  result_of status path outcomes = record {
    status = status;
    handoff_path = path;
    outcomes = outcomes;
  }

  abbrev pub is_running_row : Option TaskRow → Bool
  is_running_row none = false
  is_running_row (some row) = is_running row.status

  abbrev pub block_if : Bool → String → Job (Unit {0})
  block_if false message = pure tt
  block_if true message = set_status TaskStatus.blocked message

  abbrev pub block_running : String → Job (Unit {0})
  block_running message x = block_if (is_running_row (find_task task_id x.db)) message x

  -- `#blockForShutdown`: others may write while the handoff is written, and do not between the write of
  -- the status and the event.
  unfoldable pub block_for_shutdown : List StepOutcome → Job RunTaskResult
  unfolding write_handoff
  block_for_shutdown outcomes = do
    handoff ← tried_handoff
    let message =
        explained "Worker shutdown interrupted task execution; retry is explicit."
          " Could not persist handoff evidence: " handoff
    block_running message
    publish none "task.blocked" (some EventLevel.warn) message none
    pure (result_of Finished.blocked (path_of handoff) outcomes)

  abbrev pub is_required_failure : StepOutcome → Bool
  is_required_failure outcome = outcome.step.required && not outcome.succeeded

  abbrev pub failure_detail : StepOutcome → String
  failure_detail outcome =
      get_or outcome.error
        (agent_name outcome.step.agent ++ (" " ++ (role_name outcome.step.role ++ " failed")))

  unfoldable pub block_for_failure : StepOutcome → List StepOutcome → Job RunTaskResult
  unfolding write_handoff
  block_for_failure failure outcomes = do
    handoff ← tried_handoff
    let detail = explained (failure_detail failure) "; could not persist handoff evidence: " handoff
    set_status TaskStatus.blocked detail
    publish failure.run "task.blocked" (some EventLevel.error) detail none
    pure (result_of Finished.blocked (path_of handoff) outcomes)

  abbrev pub needs_human : TaskRow → Bool
  needs_human row =
      row.handoff_required || (elim row.route_risk [ Risk.high ↦ true | Risk.normal ↦ false ])

  abbrev pub outcome_of : Bool → Outcome
  outcome_of human = if human then Outcome.needs_review else Outcome.done

  abbrev pub finished_of : Bool → Finished
  finished_of human = if human then Finished.needs_review else Finished.done

  abbrev pub update_of : Bool → String
  update_of human =
      if human
      then "Execution evidence is ready for human review."
      else "All required route steps completed successfully."

  abbrev pub latest_success : Db → Option String
  latest_success db = id_of (
      last_where (λ (r : RunRow). same_run_status r.status RunStatus.succeeded)
        (runs_of task_id db))

  abbrev pub complete :
      Bool → Option String → List StepOutcome → Result String (Option String) → Job RunTaskResult
  complete human run outcomes (err failure) = do
    set_status TaskStatus.blocked ("Could not persist completion evidence: " ++ failure)
    publish run "task.blocked" (some EventLevel.error)
        ("Could not persist completion evidence: " ++ failure) none
    pure (result_of Finished.blocked none outcomes)
  complete human run outcomes (ok path) = do
    job_db w.message_of (λ _.
        finalize_task_execution task_id (outcome_of human) (update_of human) run w.review_id w.now)
    publish run (if human then "review.requested" else "task.completed") none (update_of human)
        (handoff_data path)
    pure (result_of (finished_of human) path outcomes)

  abbrev pub find_now : Job TaskRow
  find_now x = elim (find_task task_id x.db) [
    | none ↦ (err ("Task disappeared during execution: " ++ task_id), x)
    | some row ↦ (ok row, x)
  ]

  abbrev pub success_now : Job (Option String)
  success_now x = (ok (latest_success x.db), x)

  unfoldable pub complete_task : List StepOutcome → Job RunTaskResult
  unfolding write_handoff last_where
  complete_task outcomes = do
    refreshed ← find_now
    run ← success_now
    handoff ← tried_handoff
    complete (needs_human refreshed) run outcomes handoff
