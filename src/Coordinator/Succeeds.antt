-- ===== src/Coordinator/Succeeds.antt =====
-- What the outcomes of a task show that was not blocked.
use agent_control_center_cor.Base.{
  ℕ, String, Bool, false, Option, none, some, List, [], ◌∷◌, Result, ok, err, ◌≡◌, refl, subst, All,
  All-append, ◌⊎◌, first_where, inl, inr, if_lem,
}
use agent_control_center_cor.Base.Lookup.{first_where-none}
use agent_control_center_cor.Db.State.{Db, RouteStepRow, TaskRow}
use mathlib.Core.List.{◌++◌ as append}
use agent_control_center_cor.Coordinator.Step.{StepOutcome}
use agent_control_center_cor.Coordinator.{WorktreeInfo, Worker, Job, after_return}
use agent_control_center_cor.Coordinator.Execute.{
  Finished, TaskWorld, RunTaskResult, block_for_shutdown, block_for_failure, complete,
  complete_task, runs_of, is_required_failure,
}
use agent_control_center_cor.Coordinator.Execute.Sequences.{
  execute_sequences, execute_claimed_task, execute_task, heartbeat_and_execute, inherited_worktree,
  unless_shutdown, after_group, or_first,
}

module _ (w : TaskWorld) (task_id : String) where
  abbrev pub IsFine : StepOutcome → Type 0
  IsFine outcome = is_required_failure w task_id outcome ≡ false

  -- A result is that the task is blocked, or no required step of its outcomes failed.
  abbrev pub Shows : RunTaskResult → Type 0
  Shows result = (result.status ≡ Finished.blocked) ⊎ All IsFine result.outcomes

  abbrev ShowsAll : Job RunTaskResult → Type 0
  ShowsAll job =
      (x after : Worker) (result : RunTaskResult) → job x ≡ (ok result, after) → Shows result

  pure-Shows :
      (given result : RunTaskResult) (x after : Worker)
      → ◌≡◌ {A = Result String RunTaskResult × Worker} (ok given, x) (ok result, after)
      → Shows given
      → Shows result
  pure-Shows given result x after h shown = subst Shows (same given result x after h) shown
    where
      same :
          (a b : RunTaskResult) (y z : Worker)
          → ◌≡◌ {A = Result String RunTaskResult × Worker} (ok a, y) (ok b, z)
          → a ≡ b
      same a b y z k = cc

  block_for_failure-Shows :
      (failure : StepOutcome) (outcomes : List StepOutcome)
      → ShowsAll (block_for_failure w task_id failure outcomes)
  unfolding block_for_failure
  block_for_failure-Shows failure outcomes x after result h =
      after_return _ _ x after result h λ _ s1 _ h1.
        after_return _ _ s1 after result h1 λ _ s2 _ h2.
          after_return _ _ s2 after result h2
            λ _ s3 _ h3. pure-Shows _ result s3 after h3 (inl refl)

  block_for_shutdown-Shows :
      (outcomes : List StepOutcome) → ShowsAll (block_for_shutdown w task_id outcomes)
  unfolding block_for_shutdown
  block_for_shutdown-Shows outcomes x after result h =
      after_return _ _ x after result h λ _ s1 _ h1.
        after_return _ _ s1 after result h1 λ _ s2 _ h2.
          after_return _ _ s2 after result h2
            λ _ s3 _ h3. pure-Shows _ result s3 after h3 (inl refl)

  complete-Shows :
      (human : Bool) (run : Option String) (outcomes : List StepOutcome)
      (handoff : Result String (Option String))
      → All IsFine outcomes
      → ShowsAll (complete w task_id human run outcomes handoff)
  complete-Shows human run outcomes (err failure) fine x after result h =
      after_return _ _ x after result h λ _ s1 _ h1.
        after_return _ _ s1 after result h1 λ _ s2 _ h2. pure-Shows _ result s2 after h2 (inl refl)
  complete-Shows human run outcomes (ok path) fine x after result h =
      after_return _ _ x after result h λ _ s1 _ h1.
        after_return _ _ s1 after result h1 λ _ s2 _ h2. pure-Shows _ result s2 after h2 (inr fine)

  complete_task-Shows :
      (outcomes : List StepOutcome)
      → All IsFine outcomes
      → ShowsAll (complete_task w task_id outcomes)
  unfolding complete_task
  complete_task-Shows outcomes fine x after result h =
      after_return _ _ x after result h λ _ s1 _ h1.
        after_return _ _ s1 after result h1 λ _ s2 _ h2.
          after_return _ _ s2 after result h2
            λ handoff s3 _ h3. complete-Shows _ _ outcomes handoff fine s3 after result h3

  unless_shutdown-Shows :
      (outcomes : List StepOutcome) (job : Job RunTaskResult)
      → ShowsAll job
      → ShowsAll (unless_shutdown w task_id outcomes job)
  unless_shutdown-Shows outcomes job shows x after result =
      if_lem (λ r. r ≡ (ok result, after) → Shows result) x.shutdown_requested _ _
        (λ down h. block_for_shutdown-Shows outcomes x after result h)
        (λ up h. shows x after result h)

  after_group-Shows :
      (later : Option WorktreeInfo → List StepOutcome → Job RunTaskResult)
      (inherited : Option WorktreeInfo) (outcomes : List StepOutcome) (failure : Option StepOutcome)
      → (failure ≡ none → ShowsAll (later inherited outcomes))
      → ShowsAll (after_group w task_id later inherited outcomes failure)
  after_group-Shows later inherited outcomes (some failure) shows =
      block_for_failure-Shows failure outcomes
  after_group-Shows later inherited outcomes none shows = shows refl

  execute_sequences-Shows :
      (task : TaskRow) (pending : List RouteStepRow) (sequences : List ℕ)
      (inherited : Option WorktreeInfo) (outcomes : List StepOutcome)
      → All IsFine outcomes
      → ShowsAll (execute_sequences w task_id task pending sequences inherited outcomes)
  unfolding execute_sequences
  execute_sequences-Shows task pending [] inherited outcomes fine =
      unless_shutdown-Shows outcomes (complete_task w task_id outcomes)
        (complete_task-Shows outcomes fine)
  execute_sequences-Shows task pending (sequence ∷ sequences) inherited outcomes fine =
      unless_shutdown-Shows outcomes _ λ x after result h.
        after_return _ _ x after result h λ group s1 _ h1.
          unless_shutdown-Shows (append outcomes group) _
            (after_group-Shows (execute_sequences w task_id task pending sequences)
              (or_first w task_id inherited group) (append outcomes group)
              (first_where (is_required_failure w task_id) group)
              (λ no_failure.
                execute_sequences-Shows task pending sequences (or_first w task_id inherited group)
                  (append outcomes group)
                  (All-append IsFine outcomes group fine
                    (first_where-none (is_required_failure w task_id) group no_failure))))
            s1 after result h1

  execute_claimed_task-Shows :
      (task : TaskRow) (seen : Db) → ShowsAll (execute_claimed_task w task_id task seen)
  unfolding execute_claimed_task
  execute_claimed_task-Shows task seen =
      execute_sequences-Shows task _ _
        (inherited_worktree w task_id task.route_mode (runs_of task_id seen)) [] tt

  -- When the execution of a task returns and does not say that the task is blocked, each step of its
  -- outcomes that the route requires has succeeded.
  pub execute_task-Shows :
      (x after : Worker) (result : RunTaskResult)
      → execute_task w task_id x ≡ (ok result, after)
      → Shows result
  unfolding execute_task
  execute_task-Shows x after result h = after_return _ _ x after result h λ task s1 _ h1.
      after_return _ _ s1 after result h1 λ _ s2 _ h2.
        after_return _ _ s2 after result h2 λ _ s3 _ h3.
          unless_shutdown-Shows [] (heartbeat_and_execute w task_id task x.db)
            (λ y end finished k.
              after_return _ _ y end finished k
                λ _ s4 _ k1. execute_claimed_task-Shows task x.db s4 end finished k1)
            s3 after result h3
