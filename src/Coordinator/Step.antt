-- ===== src/Coordinator/Step.antt =====
-- src/coordinator.ts: #unavailableStep, and #executeStep up to the start of the agent.
pub mod Verification
pub mod Run
use Prim.Native.String.{◌++◌}
use agent_control_center_cor.Base.{
  ℕ, String, Bool, true, false, not, ◌&&◌, ◌||◌, Option, none, some, List, [], ◌∷◌, ◌==◌, any,
  get_or, is_some, if◌then◌else◌, delete_where, first_where, Result, ok, err,
}
use agent_control_center_cor.Json.{Json, obj, field, end, str}
use agent_control_center_cor.Base.Decimal.{decimal}
use agent_control_center_cor.Protocol.{RouteRole, RunStatus, same_run_status}
use agent_control_center_cor.Db.State.{
  Db, DbError, TaskRow, RouteStepRow, RouteStepStatus, RunRow, EventLevel,
}
use agent_control_center_cor.Db.Runs.{
  Patch, keep, set, CreateRunInput, UpdateRunPatch, find_run, create_run, update_run,
  update_route_step,
}
use agent_control_center_cor.Coordinator.{
  Phase, Worker, WorktreeInfo, AdapterRun, AdapterStatus, AdapterResult, Scene, Attempt, Captured,
  pure, throw, io, ◌>>=◌, ◌>>◌, modify, on_worker, on_db, refuse_if, publish, without, set_phase,
  forget_run, register, is_filled,
}
use agent_control_center_cor.Coordinator.Names.{
  agent_name, role_name, agent_and_role, num_or_null, str_or_null,
}

-- The `await`s at which other code of the worker, and other processes, may run.
pub data Point : Type 0 where
  availability worktree prepared started collected verified : Point

-- HEAD, the status and the diff of a worktree
pub record Capture : Type 0 where
  pub head : String
  pub status : String
  pub diff : String

-- Its other fields go to the metadata of an artifact.
pub record VerificationResult : Type 0 where
  pub command : String
  pub status : String
  pub exit_code : Option ℕ
  pub signal : Option String
  pub error : Option String

-- What the adapter, the worktrees, the verifier, the artifact store and the clock answer to one step,
-- and what others do to the worker while it waits. Evidence is registered after the point at
-- which it was captured. An adapter that reported the start of a process returns its run.
pub record StepWorld : Type 0 where
  pub message_of : DbError → String
  pub meanwhile : Point → Worker → Worker
  pub now : ℕ
  pub run_id : String
  pub is_registered : Bool
  pub unavailable : Option String
  pub create_worktree : Result String WorktreeInfo
  pub source_snapshot : Result String (Unit {0})
  pub prompt_artifact : Captured
  pub start_task : Result String AdapterRun
  pub stop_adapter : Result String (Unit {0})
  pub collect_result : Result String AdapterResult
  pub source_unchanged : Result String (Unit {0})
  pub source_unchanged_after : Result String (Unit {0})
  pub ingest : Captured
  pub ingest_after : Captured
  pub before_verification : Result String Capture
  pub process_started : Option Json
  pub verification : Result String VerificationResult
  pub verification_artifact : Captured
  pub after_verification : Result String Capture
  pub review_artifacts : Captured
  pub review_artifacts_after : Captured

-- Of the run a caller reads the id only.
pub record StepOutcome : Type 0 where
  pub step : RouteStepRow
  pub run : Option String
  pub result : Option AdapterResult
  pub worktree : Option WorktreeInfo
  pub succeeded : Bool
  pub skipped : Bool
  pub error : Option String

abbrev pub terminal_run_status : AdapterStatus → RunStatus
terminal_run_status AdapterStatus.succeeded = RunStatus.succeeded
terminal_run_status AdapterStatus.stopped = RunStatus.stopped
terminal_run_status AdapterStatus.stale = RunStatus.stale
terminal_run_status AdapterStatus.failed = RunStatus.failed

abbrev pub is_success : AdapterStatus → Bool
is_success AdapterStatus.succeeded = true
is_success _ = false

abbrev pub is_execute : RouteRole → Bool
is_execute RouteRole.execute = true
is_execute _ = false

abbrev pub no_change : UpdateRunPatch
no_change = record {
  status = none;
  adapter_run_id = keep;
  pid = keep;
  worktree_path = keep;
  branch = keep;
  base_commit = keep;
  stdout_path = keep;
  stderr_path = keep;
  result_path = keep;
  exit_code = keep;
  signal = keep;
  summary = keep;
  error = keep;
  usage_json = keep;
  started_at = keep;
  finished_at = keep;
}

module _ (w : StepWorld) (task : TaskRow) (step : RouteStepRow) where
  abbrev pub wait : Point → Attempt (Unit {0})
  wait point = modify (w.meanwhile point)

  abbrev pub tell : String → Option EventLevel → String → Option Json → Attempt ℕ
  tell type level message data_json =
      publish w.message_of task.id (some w.run_id) type level message data_json w.now

  abbrev pub enter : Phase → Attempt (Unit {0})
  enter phase = modify (set_phase w.run_id task.id phase)

  abbrev pub check_shutdown : String → Attempt (Unit {0})
  check_shutdown message scene = refuse_if scene.worker.shutdown_requested message scene

  -- `this.#stopRequestedRuns.delete(run.id)`
  abbrev pub take_stop_request : Attempt Bool
  take_stop_request scene = (
    ok (any (λ id. id == w.run_id) scene.worker.stop_requested_runs),
    on_worker
        (λ x. record x {
          stop_requested_runs = delete_where (λ id. id == w.run_id) x.stop_requested_runs;
        })
        scene,
  )

  abbrev pub leave_active : Attempt (Unit {0})
  leave_active = modify (λ x. record x { active_runs = without w.run_id x.active_runs })

  abbrev pub set_verifying : List (String × String) → Worker → Worker
  set_verifying entries x = record x { active_verifications = entries }

  -- `#unavailableStep`
  abbrev pub unavailable_outcome : String → Bool → StepOutcome
  unavailable_outcome message required = record {
    step = record step {
      status = if required then RouteStepStatus.failed else RouteStepStatus.skipped;
    };
    run = none;
    result = none;
    worktree = none;
    succeeded = not required;
    skipped = not required;
    error = if required then some message else none;
  }

  unfoldable pub unavailable_step : String → Attempt StepOutcome
  unavailable_step message = do
    on_db w.message_of (λ seen.
        update_route_step seen step.id
          (set (if step.required then RouteStepStatus.failed else RouteStepStatus.skipped)) keep
          w.now)
    publish w.message_of step.task_id none
        (if step.required then "route.step_failed" else "route.step_skipped")
        (some (if step.required then EventLevel.error else EventLevel.warn)) message
        (some (agent_and_role step.agent step.role)) w.now
    pure (unavailable_outcome message step.required)

  -- The reason for which the step is not tried, and the worker that was asked.
  abbrev pub shutdown_reason : Worker → Option String
  shutdown_reason x =
      if x.shutdown_requested then some "Worker shutdown requested before execution." else none

  abbrev pub reason_after : Option String → Worker → Option String
  reason_after (some reason) x = some (agent_name step.agent ++ (" unavailable: " ++ reason))
  reason_after none x = shutdown_reason x

  unfoldable pub unavailable_reason : Worker → Option String × Worker
  unavailable_reason x =
      if x.shutdown_requested
      then (shutdown_reason x, x)
      else if not w.is_registered
      then (some ("Adapter is not registered: " ++ agent_name step.agent), x)
      else (reason_after w.unavailable (w.meanwhile availability x), w.meanwhile availability x)

  unfoldable pub begin_run : Attempt RunRow
  begin_run = do
    on_db w.message_of (λ seen.
        create_run seen
          (record {
            task_id = task.id;
            route_step_id = step.id;
            agent = step.agent;
            role = step.role;
            worktree_path = none;
            branch = none;
            base_commit = none;
          })
          w.run_id w.now)
    enter Phase.starting
    on_db w.message_of (λ seen.
        update_route_step seen step.id (set RouteStepStatus.running) (set (some w.run_id)) w.now)
    run ← on_db w.message_of (λ seen.
        update_run seen w.run_id
          (record no_change { status = some RunStatus.starting; started_at = set (some w.now) })
          w.now)
    tell "run.starting" none
        (agent_name step.agent ++ (" is starting the " ++ (role_name step.role ++ " step."))) none
    pure run

  abbrev pub worktree_or_create : Option WorktreeInfo → Attempt WorktreeInfo
  worktree_or_create (some tree) = pure tree
  worktree_or_create none = io w.create_worktree

  abbrev pub keep_worktree : WorktreeInfo → Attempt (Unit {0})
  keep_worktree tree scene = (ok tt, record scene { worktree = some tree })

  abbrev pub keep_snapshot : Attempt (Unit {0})
  keep_snapshot scene = (ok tt, record scene { has_snapshot = true })

  abbrev pub keep_adapter_run : AdapterRun → Attempt (Unit {0})
  keep_adapter_run adapter_run scene = (ok tt, record scene { adapter_run = some adapter_run })

  unfoldable pub prepare_agent : Option WorktreeInfo → Attempt WorktreeInfo
  prepare_agent inherited = do
    tree ← worktree_or_create inherited
    keep_worktree tree
    wait worktree
    check_shutdown "Worker shutdown requested before agent start."
    io w.source_snapshot
    keep_snapshot
    on_db w.message_of (λ seen.
        update_run seen w.run_id
          (record no_change {
            worktree_path = set (some tree.worktree_path);
            branch = set (some tree.branch);
            base_commit = set (some tree.base_commit);
          })
          w.now)
    wait prepared
    register w.prompt_artifact
    requested ← take_stop_request
    refuse_if requested "Operator requested cancellation before agent start."
    pure tree

  -- `persistAdapterStart`, which records the start of the process once
  unfoldable pub persist_adapter_start : WorktreeInfo → AdapterRun → Attempt RunRow
  persist_adapter_start tree adapter_run = do
    run ← on_db w.message_of (λ seen.
        update_run seen w.run_id
          (record no_change {
            status = some RunStatus.running;
            adapter_run_id = set (some adapter_run.id);
            pid = set adapter_run.pid;
            stdout_path = set (some adapter_run.stdout_path);
            stderr_path = set (some adapter_run.stderr_path);
            result_path = set (some adapter_run.result_path);
          })
          w.now)
    tell "run.started" none (agent_name step.agent ++ (" started " ++ (role_name step.role ++ ".")))
        (some (
          obj (
            field "pid" (num_or_null adapter_run.pid)
              (field "worktreePath" (str tree.worktree_path) end))))
    pure run

  abbrev pub stop_if : Bool → Attempt (Unit {0})
  stop_if false = pure tt
  stop_if true = io w.stop_adapter >> leave_active

  unfoldable pub start_agent : WorktreeInfo → Attempt AdapterResult
  start_agent tree = do
    adapter_run ← io w.start_task
    keep_adapter_run adapter_run
    persist_adapter_start tree adapter_run
    modify (λ x. record x { active_runs = (w.run_id, task.id) ∷ without w.run_id x.active_runs })
    enter Phase.active
    wait started
    requested ← take_stop_request
    stop_if requested
    check_shutdown "Worker shutdown requested while agent was starting."
    wait collected
    result ← io w.collect_result
    leave_active
    enter Phase.finalizing
    pure result
