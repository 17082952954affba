-- ===== src/Coordinator/Tests.antt =====
-- Steps of a small task.
use agent_control_center_cor.Base.{
  ℕ, String, Bool, true, false, Option, none, some, List, [], ◌∷◌, Result, ok, err, ◌≡◌, refl, map,
}
use agent_control_center_cor.Protocol.{Priority, TaskStatus, RunStatus}
use agent_control_center_cor.Db.State.{TaskRow, RouteStepRow, RouteStepStatus}
use agent_control_center_cor.Db.Samples.{sample_task, sample_step, sample_db}
use agent_control_center_cor.Coordinator.{
  Worker, WorktreeInfo, AdapterRun, AdapterStatus, AdapterResult, Captured,
}
use agent_control_center_cor.Coordinator.Step.{StepWorld, StepOutcome, Capture, VerificationResult}
use agent_control_center_cor.Coordinator.Step.Run.{execute_step}
use agent_control_center_cor.Coordinator.Execute.{TaskWorld, Finished, RunTaskResult}
use agent_control_center_cor.Coordinator.Execute.Sequences.{execute_task}
use agent_control_center_cor.Coordinator.Returns.{IsSettled}
use agent_control_center_cor.Coordinator.Settled.{execute_task-Settled}
use agent_control_center_cor.Coordinator.Succeeds.{Shows, execute_task-Shows}
use agent_control_center_cor.Coordinator.Verified.{IsGentle}
use agent_control_center_cor.Coordinator.Evidence.{IsProven, execute_step-IsProven}

abbrev task : TaskRow
task =
    record (sample_task "task-1" Priority.normal TaskStatus.running (some "worker-1") (some 3) 1) {
      verification_command = some "npm test";
    }

abbrev step : RouteStepRow
step = sample_step "step-1" "task-1" RouteStepStatus.pending

abbrev worker : Worker
worker = record {
  db = sample_db (task ∷ []) (step ∷ []) [];
  run_phases = [];
  active_runs = [];
  active_verifications = [];
  stop_requested_runs = [];
  shutdown_requested = false;
}

abbrev tree : WorktreeInfo
tree = record { worktree_path = "/tree"; branch = "acc/task-1"; base_commit = "c0" }

abbrev nothing : Captured
nothing = record { rows = []; failure = none }

abbrev state_of_tree : Capture
state_of_tree = record { head = "c1"; status = "M app.ts"; diff = "+1" }

abbrev good_result : AdapterResult
good_result = record {
  status = AdapterStatus.succeeded;
  exit_code = some 0;
  signal = none;
  summary = "Fixed.";
  error = none;
  usage_json = none;
  finished_at = 20;
}

abbrev passed : VerificationResult
passed = record {
  command = "npm";
  status = "succeeded";
  exit_code = some 0;
  signal = none;
  error = none;
}

abbrev good_world : StepWorld
good_world = record {
  message_of = λ e. "database error";
  meanwhile = λ point x. x;
  now = 10;
  run_id = "run-1";
  is_registered = true;
  unavailable = none;
  create_worktree = ok tree;
  source_snapshot = ok tt;
  prompt_artifact = nothing;
  start_task = ok (record {
    id = "adapter-1";
    pid = some 7;
    stdout_path = "out";
    stderr_path = "err";
    result_path = "res";
  });
  stop_adapter = ok tt;
  collect_result = ok good_result;
  source_unchanged = ok tt;
  source_unchanged_after = ok tt;
  ingest = nothing;
  ingest_after = nothing;
  before_verification = ok state_of_tree;
  process_started = none;
  verification = ok passed;
  verification_artifact = nothing;
  after_verification = ok state_of_tree;
  review_artifacts = nothing;
  review_artifacts_after = nothing;
}

abbrev done_outcome : StepOutcome
done_outcome = record {
  step = record step { status = RouteStepStatus.succeeded; run_id = some "run-1" };
  run = some "run-1";
  result = some good_result;
  worktree = some tree;
  succeeded = true;
  skipped = false;
  error = none;
}

-- the verification leaves another diff behind
abbrev mutating_world : StepWorld
mutating_world = record good_world {
  after_verification = ok (record { head = "c1"; status = "M app.ts"; diff = "+2" });
}

abbrev task_world : (String → StepWorld) → TaskWorld
task_world step_world = record {
  message_of = λ e. "database error";
  worker_id = "worker-1";
  now = 30;
  review_id = "review-1";
  step_world = step_world;
  handoff = nothing;
  meanwhile = λ x. x;
  handoff_path = "handoff.md";
}

abbrev all_good : TaskWorld
all_good = task_world (λ id. good_world)

abbrev done_result : RunTaskResult
done_result = record {
  status = Finished.done;
  handoff_path = some "handoff.md";
  outcomes = done_outcome ∷ [];
}

-- A good step and a step whose verification changes the worktree, alone and in a task: the events,
-- the run, the task.
runs_of_steps :
    (execute_step good_world task step none worker
      ≡ (ok done_outcome, (execute_step good_world task step none worker).1))
    × ((map (λ e. e.type) (execute_step good_world task step none worker).1.db.events
          ≡ "run.starting" ∷ "run.started" ∷ "verification.started" ∷ "verification.succeeded"
            ∷ "run.succeeded" ∷ [])
        × ((map (λ r. r.status) (execute_step mutating_world task step none worker).1.db.runs
              ≡ RunStatus.failed ∷ [])
            × ((execute_task all_good "task-1" worker
                  ≡ (ok done_result, (execute_task all_good "task-1" worker).1))
                × ((map (λ t. t.status) (execute_task all_good "task-1" worker).1.db.tasks
                      ≡ TaskStatus.done ∷ [])
                    × (map
                          (λ t. t.status)
                          (execute_task
                            (task_world (λ id. mutating_world))
                            "task-1"
                            worker).1.db.tasks
                        ≡ TaskStatus.blocked ∷ [])))))
unfolding agent_control_center_cor.Coordinator.◌>>=◌ agent_control_center_cor.Coordinator.on_db
    agent_control_center_cor.Coordinator.job_db agent_control_center_cor.Coordinator.publish
    agent_control_center_cor.Coordinator.Step.unavailable_step
    agent_control_center_cor.Coordinator.Step.unavailable_reason
    agent_control_center_cor.Coordinator.Step.begin_run
    agent_control_center_cor.Coordinator.Step.prepare_agent
    agent_control_center_cor.Coordinator.Step.persist_adapter_start
    agent_control_center_cor.Coordinator.Step.start_agent
    agent_control_center_cor.Coordinator.Step.Verification.run_verification
    agent_control_center_cor.Coordinator.Step.Verification.verify_if
    agent_control_center_cor.Coordinator.Step.Run.finish_run
    agent_control_center_cor.Coordinator.Step.Run.run_agent
    agent_control_center_cor.Coordinator.Step.Run.recover
    agent_control_center_cor.Coordinator.Step.Run.try_agent
    agent_control_center_cor.Coordinator.Step.Run.execute_step
    agent_control_center_cor.Db.Runs.create_run agent_control_center_cor.Db.Runs.update_run
    agent_control_center_cor.Db.Runs.update_route_step agent_control_center_cor.Db.Runs.last_attempt
    agent_control_center_cor.Db.Journal.append_event agent_control_center_cor.Db.Action.◌>>=◌
    agent_control_center_cor.Db.Action.pure agent_control_center_cor.Db.Action.throw
    agent_control_center_cor.Db.Action.gets agent_control_center_cor.Db.Action.required
    agent_control_center_cor.Db.Action.check agent_control_center_cor.Db.Action.lift
    agent_control_center_cor.Db.Action.update_steps agent_control_center_cor.Db.Action.update_runs
    agent_control_center_cor.Db.Insert.insert_run agent_control_center_cor.Db.Insert.insert_event
    agent_control_center_cor.Db.Insert.has_task agent_control_center_cor.Db.Insert.has_step
    agent_control_center_cor.Db.Insert.has_run agent_control_center_cor.Db.Insert.has_run_or_null
    agent_control_center_cor.Db.Insert.same_attempt agent_control_center_cor.Base.first_where
    agent_control_center_cor.Base.any agent_control_center_cor.Base.update_where
    agent_control_center_cor.Base.count_where agent_control_center_cor.Base.delete_where
    agent_control_center_cor.Protocol.assert_run_transition
    agent_control_center_cor.Protocol.may_move_run agent_control_center_cor.Base.Text.includes
    agent_control_center_cor.Base.Text.starts_with agent_control_center_cor.Base.select_where
    agent_control_center_cor.Coordinator.Execute.last_where
    agent_control_center_cor.Coordinator.Execute.write_handoff
    agent_control_center_cor.Coordinator.Execute.block_for_shutdown
    agent_control_center_cor.Coordinator.Execute.block_for_failure
    agent_control_center_cor.Coordinator.Execute.complete_task
    agent_control_center_cor.Coordinator.Execute.Sequences.execute_group
    agent_control_center_cor.Coordinator.Execute.Sequences.execute_sequences
    agent_control_center_cor.Coordinator.Execute.Sequences.distinct
    agent_control_center_cor.Coordinator.Execute.Sequences.execute_claimed_task
    agent_control_center_cor.Coordinator.Execute.Sequences.execute_task
    agent_control_center_cor.Coordinator.append_event_job
    agent_control_center_cor.Db.Tasks.update_task_status
    agent_control_center_cor.Db.Tasks.heartbeat_task
    agent_control_center_cor.Db.Reviews.finalize_task_execution
    agent_control_center_cor.Db.Reviews.request_review
    agent_control_center_cor.Db.Insert.insert_review agent_control_center_cor.Db.Action.transaction
    agent_control_center_cor.Db.Action.update_tasks agent_control_center_cor.Base.order_by
    agent_control_center_cor.Base.insert_before agent_control_center_cor.Base.Text.trim
    agent_control_center_cor.Base.Text.trim_start agent_control_center_cor.Base.Text.trim_end
    agent_control_center_cor.Base.Text.is_space agent_control_center_cor.Base.Text.text_before
    agent_control_center_cor.Protocol.assert_task_transition
    agent_control_center_cor.Protocol.may_move_task
runs_of_steps = (refl, (refl, (refl, (refl, (refl, refl)))))

good_world-IsGentle : IsGentle good_world
good_world-IsGentle point x row here = here

execute_step-IsProven_example :
    IsProven good_world task step (execute_step good_world task step none worker).1.db
execute_step-IsProven_example =
    execute_step-IsProven good_world task step none worker
      (execute_step good_world task step none worker).1 done_outcome good_world-IsGentle
      runs_of_steps.0 refl refl

execute_task-Settled_example : IsSettled "task-1" (execute_task all_good "task-1" worker).1.db
execute_task-Settled_example =
    execute_task-Settled all_good "task-1" worker (execute_task all_good "task-1" worker).1
      done_result runs_of_steps.1.1.1.0

execute_task-Shows_example : Shows all_good "task-1" done_result
execute_task-Shows_example =
    execute_task-Shows all_good "task-1" worker (execute_task all_good "task-1" worker).1
      done_result runs_of_steps.1.1.1.0
