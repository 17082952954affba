-- ===== src/Coordinator/Settled.antt =====
-- The execution of a task ends with the task settled.
use agent_control_center_cor.Coordinator.Returns.{
  IsSettled, update_task_status-IsSettled, finalize_task_execution-IsSettled, job_db-returns,
}
use agent_control_center_cor.Base.{
  ℕ, String, Bool, true, false, Option, none, some, List, [], ◌∷◌, Result, ok, err, ◌==◌, ◌≡◌, refl,
  sym, ap, ◌∙◌, first_where, if_lem,
}
use agent_control_center_cor.Protocol.{TaskStatus}
use agent_control_center_cor.Db.State.{Db, EventLevel, RouteStepRow, TaskRow}
use agent_control_center_cor.Db.Tasks.{find_task, is_running, update_task_status}
use agent_control_center_cor.Json.{Json}
use mathlib.Core.List.{◌++◌ as append}
use agent_control_center_cor.Coordinator.Step.{StepOutcome}
use agent_control_center_cor.Coordinator.{
  WorktreeInfo, Worker, Job, job_db, after_return, append_event_job,
}
use agent_control_center_cor.Db.Journal.Legal.{Quiet-append_event}
use agent_control_center_cor.Coordinator.Execute.{
  TaskWorld, RunTaskResult, set_status, block_if, block_running, is_running_row, block_for_shutdown,
  publish, block_for_failure, complete, complete_task, runs_of, is_required_failure,
}
use agent_control_center_cor.Coordinator.Execute.Sequences.{
  execute_sequences, execute_claimed_task, execute_task, heartbeat_and_execute, inherited_worktree,
  unless_shutdown, after_group, or_first,
}

module _ (w : TaskWorld) (task_id : String) where
  publish-keeps :
      (run_id : Option String) (type : String) (level : Option EventLevel) (message : String)
      (data_json : Option Json) (x after : Worker) (u : Unit {0})
      → publish w task_id run_id type level message data_json x ≡ (ok u, after)
      → after.db.tasks ≡ x.db.tasks
  unfolding append_event_job job_db
  publish-keeps run_id type level message data_json x after u h =
      after_return _ _ x after u h λ _ next told last.
        ap (λ r. r.1.db.tasks) (sym last)
        ∙ (ap (λ r. r.1.db.tasks) (sym told)
            ∙ (Quiet-append_event task_id run_id type level message data_json w.now).tasks x.db)

  -- the task as the worker's database has it
  abbrev pub Settled : Worker → Type 0
  Settled x = IsSettled task_id x.db

  Settled-keeps : (x after : Worker) → after.db.tasks ≡ x.db.tasks → Settled x → Settled after
  Settled-keeps x after same settled row found =
      settled row (ap (first_where (λ (t : TaskRow). t.id == task_id)) (sym same) ∙ found)

  set_status-Settled :
      (status : TaskStatus) (update : String) (x after : Worker) (u : Unit {0})
      → is_running status ≡ false
      → set_status w task_id status update x ≡ (ok u, after)
      → Settled after
  unfolding job_db
  set_status-Settled status update x after u ended h =
      update_task_status-IsSettled task_id update status w.now x.db after.db u ended (
        job_db-returns w.message_of (λ seen. update_task_status seen task_id status update w.now) x
          after u h)

  block_for_failure-Settled :
      (failure : StepOutcome) (outcomes : List StepOutcome) (x after : Worker)
      (result : RunTaskResult)
      → block_for_failure w task_id failure outcomes x ≡ (ok result, after)
      → Settled after
  unfolding block_for_failure
  block_for_failure-Settled failure outcomes x after result h =
      after_return _ _ x after result h λ _ s1 _ h1.
        after_return _ _ s1 after result h1 λ u s2 blocked h2.
          after_return _ _ s2 after result h2 λ v s3 told h3.
            Settled-keeps s2 after
              (ap (λ r. r.1.db.tasks) (sym h3) ∙ publish-keeps _ _ _ _ _ s2 s3 v told)
              (set_status-Settled TaskStatus.blocked _ s1 s2 u refl blocked)

  block_running-Settled :
      (message : String) (x after : Worker) (u : Unit {0})
      → block_running w task_id message x ≡ (ok u, after)
      → Settled after
  block_running-Settled message x after u h =
      decided (is_running_row w task_id (find_task task_id x.db)) refl h
    where
      decided :
          (b : Bool)
          → is_running_row w task_id (find_task task_id x.db) ≡ b
          → block_if w task_id b message x ≡ (ok u, after)
          → Settled after
      decided true e k = set_status-Settled TaskStatus.blocked message x after u refl k
      decided false e k =
          Settled-keeps x after (ap (λ r. r.1.db.tasks) (sym k))
            (λ row found. ap (is_running_row w task_id) (sym found) ∙ e)

  block_for_shutdown-Settled :
      (outcomes : List StepOutcome) (x after : Worker) (result : RunTaskResult)
      → block_for_shutdown w task_id outcomes x ≡ (ok result, after)
      → Settled after
  unfolding block_for_shutdown
  block_for_shutdown-Settled outcomes x after result h =
      after_return _ _ x after result h λ _ s1 _ h1.
        after_return _ _ s1 after result h1 λ u s2 blocked h2.
          after_return _ _ s2 after result h2 λ v s3 told h3.
            Settled-keeps s2 after
              (ap (λ r. r.1.db.tasks) (sym h3) ∙ publish-keeps _ _ _ _ _ s2 s3 v told)
              (block_running-Settled _ s1 s2 u blocked)

  complete-Settled :
      (human : Bool) (run : Option String) (outcomes : List StepOutcome)
      (handoff : Result String (Option String)) (x after : Worker) (result : RunTaskResult)
      → complete w task_id human run outcomes handoff x ≡ (ok result, after)
      → Settled after
  complete-Settled human run outcomes (err failure) x after result h =
      after_return _ _ x after result h λ u s1 blocked h1.
        after_return _ _ s1 after result h1 λ v s2 told h2.
          Settled-keeps s1 after
            (ap (λ r. r.1.db.tasks) (sym h2) ∙ publish-keeps _ _ _ _ _ s1 s2 v told)
            (set_status-Settled TaskStatus.blocked _ x s1 u refl blocked)
  complete-Settled human run outcomes (ok path) x after result h =
      after_return _ _ x after result h λ review s1 finalized h1.
        after_return _ _ s1 after result h1 λ v s2 told h2.
          Settled-keeps s1 after
            (ap (λ r. r.1.db.tasks) (sym h2) ∙ publish-keeps _ _ _ _ _ s1 s2 v told)
            (finalize_task_execution-IsSettled task_id _ _ _ run w.now x.db s1.db review
              (job_db-returns w.message_of _ x s1 review finalized))

  complete_task-Settled :
      (outcomes : List StepOutcome) (x after : Worker) (result : RunTaskResult)
      → complete_task w task_id outcomes x ≡ (ok result, after)
      → Settled after
  unfolding complete_task
  complete_task-Settled outcomes x after result h = after_return _ _ x after result h λ _ s1 _ h1.
      after_return _ _ s1 after result h1 λ _ s2 _ h2.
        after_return _ _ s2 after result h2
          λ handoff s3 _ h3. complete-Settled _ _ outcomes handoff s3 after result h3

  -- A job whose return leaves the task settled
  abbrev pub Settles : Job RunTaskResult → Type 0
  Settles job =
      (x after : Worker) (result : RunTaskResult) → job x ≡ (ok result, after) → Settled after

  unless_shutdown-Settles :
      (outcomes : List StepOutcome) (job : Job RunTaskResult)
      → Settles job
      → Settles (unless_shutdown w task_id outcomes job)
  unless_shutdown-Settles outcomes job settles_job x after result =
      if_lem (λ r. r ≡ (ok result, after) → Settled after) x.shutdown_requested _ _
        (λ down h. block_for_shutdown-Settled outcomes x after result h)
        (λ up h. settles_job x after result h)

  after_group-Settles :
      (later : Option WorktreeInfo → List StepOutcome → Job RunTaskResult)
      → ((tree : Option WorktreeInfo) (outcomes : List StepOutcome) → Settles (later tree outcomes))
      → (inherited : Option WorktreeInfo) (outcomes : List StepOutcome)
        (failure : Option StepOutcome)
      → Settles (after_group w task_id later inherited outcomes failure)
  after_group-Settles later settles_later inherited outcomes (some failure) x after result h =
      block_for_failure-Settled failure outcomes x after result h
  after_group-Settles later settles_later inherited outcomes none x after result h =
      settles_later inherited outcomes x after result h

  execute_sequences-Settles :
      (task : TaskRow) (pending : List RouteStepRow) (sequences : List ℕ)
      (inherited : Option WorktreeInfo) (outcomes : List StepOutcome)
      → Settles (execute_sequences w task_id task pending sequences inherited outcomes)
  unfolding execute_sequences
  execute_sequences-Settles task pending [] inherited outcomes =
      unless_shutdown-Settles outcomes (complete_task w task_id outcomes)
        (complete_task-Settled outcomes)
  execute_sequences-Settles task pending (sequence ∷ sequences) inherited outcomes =
      unless_shutdown-Settles outcomes _ λ x after result h.
        after_return _ _ x after result h λ group s1 _ h1.
          unless_shutdown-Settles (append outcomes group) _
            (after_group-Settles (execute_sequences w task_id task pending sequences)
              (λ tree done. execute_sequences-Settles task pending sequences tree done)
              (or_first w task_id inherited group) (append outcomes group)
              (first_where (is_required_failure w task_id) group))
            s1 after result h1

  execute_claimed_task-Settles :
      (task : TaskRow) (seen : Db) → Settles (execute_claimed_task w task_id task seen)
  unfolding execute_claimed_task
  execute_claimed_task-Settles task seen =
      execute_sequences-Settles task _ _
        (inherited_worktree w task_id task.route_mode (runs_of task_id seen)) []

  -- When the execution of a task returns, whatever its steps and its handoff did, and whatever others
  -- did to the worker while its steps and its handoff waited, the task is not running any more in the database.
  pub execute_task-Settled :
      (x after : Worker) (result : RunTaskResult)
      → execute_task w task_id x ≡ (ok result, after)
      → Settled after
  unfolding execute_task
  execute_task-Settled x after result h = after_return _ _ x after result h λ task s1 _ h1.
      after_return _ _ s1 after result h1 λ _ s2 _ h2.
        after_return _ _ s2 after result h2 λ _ s3 _ h3.
          unless_shutdown-Settles [] (heartbeat_and_execute w task_id task x.db)
            (λ y end finished k.
              after_return _ _ y end finished k
                λ _ s4 _ k1. execute_claimed_task-Settles task x.db s4 end finished k1)
            s3 after result h3
