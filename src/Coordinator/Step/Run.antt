-- ===== src/Coordinator/Step/Run.antt =====
-- src/coordinator.ts: #executeStep, its `try` and its `catch`.
use Prim.Native.String.{◌++◌}
use agent_control_center_cor.Base.{
  String, Bool, true, false, ◌||◌, Option, none, some, ◌==◌, is_some, if◌then◌else◌, Result, ok,
  err,
}
use agent_control_center_cor.Base.Text.{includes}
use agent_control_center_cor.Protocol.{RunStatus, same_run_status}
use agent_control_center_cor.Db.State.{TaskRow, RouteStepRow, RouteStepStatus, RunRow, EventLevel}
use agent_control_center_cor.Db.Runs.{
  keep, set, UpdateRunPatch, find_run, update_run, update_route_step,
}
use agent_control_center_cor.Coordinator.{
  Phase, Worker, WorktreeInfo, AdapterResult, Scene, Attempt, Captured, pure, io, ◌>>=◌, ◌>>◌,
  modify, on_db, forget_run, register, add_rows,
}
use agent_control_center_cor.Coordinator.Names.{agent_name, role_name}
use agent_control_center_cor.Coordinator.Step.{
  StepWorld, StepOutcome, no_change, terminal_run_status, is_success, tell, enter, leave_active,
  unavailable_step, unavailable_reason, begin_run, prepare_agent, start_agent,
}
use agent_control_center_cor.Coordinator.Step.Verification.{needs_verification, verify_if}

module _ (w : StepWorld) (task : TaskRow) (step : RouteStepRow) where
  -- `||`, where an empty text counts as none
  abbrev pub text_or : Option String → String → String
  text_or none other = other
  text_or (some s) other = if s == "" then other else s

  abbrev pub completed_message : AdapterResult → String
  completed_message result =
      if is_success result.status
      then agent_name step.agent ++ (" completed " ++ (role_name step.role ++ "."))
      else text_or result.error
          (agent_name step.agent ++ (" failed " ++ (role_name step.role ++ ".")))

  abbrev pub step_status : Bool → RouteStepStatus
  step_status succeeded = if succeeded then RouteStepStatus.succeeded else RouteStepStatus.failed

  abbrev pub run_step : RouteStepStatus → RouteStepRow
  run_step status = record step { status = status; run_id = some w.run_id }

  abbrev pub finished : AdapterResult → UpdateRunPatch
  finished result = record no_change {
    status = some (terminal_run_status result.status);
    exit_code = set result.exit_code;
    signal = set result.signal;
    summary = set (some result.summary);
    error = set result.error;
    usage_json = (if is_some result.usage_json then set result.usage_json else keep);
    finished_at = set (some result.finished_at);
  }

  -- What follows the agent's result, up to the end of the `try`
  unfoldable pub finish_run : WorktreeInfo → AdapterResult → Attempt StepOutcome
  unfolding verify_if
  finish_run tree result = do
    io w.source_unchanged
    register w.ingest
    verify_if w task step (needs_verification w task step result)
    register w.review_artifacts
    on_db w.message_of (λ seen. update_run seen w.run_id (finished result) w.now)
    on_db w.message_of (λ seen.
        update_route_step seen step.id (set (step_status (is_success result.status))) keep w.now)
    tell w task step (if is_success result.status then "run.succeeded" else "run.failed")
        (some (if is_success result.status then EventLevel.info else EventLevel.error))
        (completed_message result) none
    modify (forget_run w.run_id)
    pure (record {
      step = run_step (step_status (is_success result.status));
      run = some w.run_id;
      result = some result;
      worktree = some tree;
      succeeded = is_success result.status;
      skipped = false;
      error = result.error;
    })

  -- the `try`
  unfoldable pub run_agent : Option WorktreeInfo → Attempt StepOutcome
  unfolding prepare_agent start_agent finish_run
  run_agent inherited = do
    tree ← prepare_agent w task step inherited
    result ← start_agent w task step tree
    finish_run tree result

  abbrev pub isolation_message : Bool → Result String (Unit {0}) → String → String
  isolation_message false checked message = message
  isolation_message true (ok _) message = message
  isolation_message true (err isolation) message =
      if includes isolation message then message else message ++ ("\n" ++ isolation)

  -- the rows that a capture registered, whose own failure is passed over
  abbrev pub register_rows : Captured → Attempt (Unit {0})
  register_rows captured = modify (add_rows captured.rows)

  abbrev pub register_if : Bool → Captured → Attempt (Unit {0})
  register_if false captured = pure tt
  register_if true captured = register_rows captured

  abbrev pub is_running : RunStatus → Bool
  is_running status =
      same_run_status status RunStatus.starting || same_run_status status RunStatus.running

  abbrev pub failed_run : String → UpdateRunPatch
  failed_run message = record no_change {
    status = some RunStatus.failed;
    error = set (some message);
    finished_at = set (some w.now);
  }

  abbrev pub fail_if : Bool → String → Attempt (Unit {0})
  fail_if false message = pure tt
  fail_if true message =
      on_db w.message_of (λ seen. update_run seen w.run_id (failed_run message) w.now) >> pure tt

  abbrev pub may_fail : Option RunRow → Bool
  may_fail none = false
  may_fail (some run) = is_running run.status

  abbrev pub capture_failure : Bool → Option String → Option String
  capture_failure false failure = none
  capture_failure true failure = failure

  abbrev pub tell_capture : Option String → Attempt (Unit {0})
  tell_capture none = pure tt
  tell_capture (some failure) =
      tell w task step "artifact.capture_failed" (some EventLevel.error) failure none >> pure tt

  abbrev pub failed_outcome : String → Option WorktreeInfo → StepOutcome
  failed_outcome message tree = record {
    step = run_step RouteStepStatus.failed;
    run = some w.run_id;
    result = none;
    worktree = tree;
    succeeded = false;
    skipped = false;
    error = some message;
  }

  abbrev pub find_current : Attempt (Option RunRow)
  find_current scene = (ok (find_run w.run_id scene.worker.db), scene)

  -- the `catch`, on the message of the error; the adapter's `stop` there may fail unnoticed
  unfoldable pub recover : String → Option WorktreeInfo → Bool → Bool → Attempt StepOutcome
  recover thrown tree has_snapshot has_started = do
    leave_active w task step
    enter w task step Phase.finalizing
    let message = isolation_message has_snapshot w.source_unchanged_after thrown
    register_if has_started w.ingest_after
    current ← find_current
    fail_if (may_fail current) message
    on_db w.message_of
        (λ seen. update_route_step seen step.id (set RouteStepStatus.failed) keep w.now)
    register_if (is_some tree) w.review_artifacts_after
    tell w task step "run.failed" (some EventLevel.error) message none
    tell_capture (capture_failure has_started w.ingest_after.failure)
    modify (forget_run w.run_id)
    pure (failed_outcome message tree)

  abbrev pub caught : Result String StepOutcome × Scene → Result String StepOutcome × Scene
  caught (ok outcome, scene) = (ok outcome, scene)
  caught (err message, scene) =
      recover message scene.worktree scene.has_snapshot (is_some scene.adapter_run) scene

  unfoldable pub try_agent : Option WorktreeInfo → Attempt StepOutcome
  unfolding run_agent recover
  try_agent inherited scene = caught (run_agent inherited scene)

  abbrev pub scene_of : Option WorktreeInfo → Worker → Scene
  scene_of inherited worker = record {
    worker = worker;
    worktree = inherited;
    has_snapshot = false;
    adapter_run = none;
  }

  abbrev pub unless_unavailable : Option WorktreeInfo → Option String → Attempt StepOutcome
  unless_unavailable inherited (some reason) = unavailable_step w task step reason
  unless_unavailable inherited none = begin_run w task step >> try_agent inherited

  unfoldable pub execute_step : Option WorktreeInfo → Worker → Result String StepOutcome × Worker
  unfolding unavailable_step unavailable_reason begin_run try_agent
  execute_step inherited worker =
      let (reason, asked) = unavailable_reason w task step worker in
      let (r, scene) = unless_unavailable inherited reason (scene_of inherited asked) in
      (r, scene.worker)
