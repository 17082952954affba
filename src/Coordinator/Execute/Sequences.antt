-- ===== src/Coordinator/Execute/Sequences.antt =====
-- src/coordinator.ts: executeTask and #executeClaimedTask.
use Prim.Native.String.{◌++◌}
use mathlib.Core.List.{◌++◌ as append}
use agent_control_center_cor.Base.{
  ℕ, String, Bool, false, not, ◌&&◌, ◌||◌, Option, none, some, List, [], ◌∷◌, ◌==◌, eqb, ltb, any,
  get_or, if◌then◌else◌, first_where, select_where, order_by, Result, ok, err,
}
use agent_control_center_cor.Base.Text.{starts_with}
use agent_control_center_cor.Protocol.{RouteMode, RunStatus, same_run_status}
use agent_control_center_cor.Db.State.{Db, TaskRow, RouteStepRow, RouteStepStatus, RunRow}
use agent_control_center_cor.Db.Tasks.{find_task, is_running, heartbeat_task}
use agent_control_center_cor.Db.Runs.{same_step_status}
use agent_control_center_cor.Coordinator.{WorktreeInfo, Job, ◌>>=◌, ◌>>◌, job_db, is_filled}
use agent_control_center_cor.Coordinator.Step.{StepOutcome}
use agent_control_center_cor.Coordinator.Step.Run.{execute_step}
use agent_control_center_cor.Coordinator.Execute.{
  TaskWorld, runs_of, last_where, is_path, all_of, refuse_if_job, block_for_shutdown,
  is_required_failure, block_for_failure, complete_task, RunTaskResult,
}

module _ (w : TaskWorld) (task_id : String) where
  abbrev pub unless_shutdown : List StepOutcome → Job RunTaskResult → Job RunTaskResult
  unless_shutdown outcomes job x =
      if x.shutdown_requested then block_for_shutdown w task_id outcomes x else job x

  -- `Promise.all` over the steps of a group: each of them runs to its end, here one after the
  -- other, and the first that throws is what the group throws.
  abbrev pub joined :
      Result String StepOutcome
      → Result String (List StepOutcome)
      → Result String (List StepOutcome)
  joined (err message) rest = err message
  joined (ok outcome) (err message) = err message
  joined (ok outcome) (ok rest) = ok (outcome ∷ rest)

  unfoldable pub execute_group :
      TaskRow → Option WorktreeInfo → List RouteStepRow → Job (List StepOutcome)
  execute_group task inherited [] x = (ok [], x)
  execute_group task inherited (step ∷ steps) x =
      let (r, next) = execute_step (w.step_world step.id) task step inherited x in
      let (rest, last) = execute_group task inherited steps next in (joined r rest, last)

  -- `inheritedWorktree ??= …`: the worktree of the first outcome that has one
  abbrev pub first_worktree : List StepOutcome → Option WorktreeInfo
  first_worktree [] = none
  first_worktree (outcome ∷ rest) = elim outcome.worktree [
    | some tree ↦ some tree
    | none ↦ first_worktree rest
  ]

  abbrev pub or_first : Option WorktreeInfo → List StepOutcome → Option WorktreeInfo
  or_first (some tree) outcomes = some tree
  or_first none outcomes = first_worktree outcomes

  abbrev pub after_group :
      (Option WorktreeInfo → List StepOutcome → Job RunTaskResult)
      → Option WorktreeInfo
      → List StepOutcome
      → Option StepOutcome
      → Job RunTaskResult
  after_group later inherited outcomes (some failure) = block_for_failure w task_id failure outcomes
  after_group later inherited outcomes none = later inherited outcomes

  abbrev pub of_sequence : ℕ → RouteStepRow → Bool
  of_sequence sequence step = eqb step.sequence_no sequence

  unfoldable pub execute_sequences :
      TaskRow
      → List RouteStepRow
      → List ℕ
      → Option WorktreeInfo
      → List StepOutcome
      → Job RunTaskResult
  unfolding execute_group block_for_shutdown block_for_failure complete_task
  execute_sequences task pending [] inherited outcomes =
      unless_shutdown outcomes (complete_task w task_id outcomes)
  execute_sequences task pending (sequence ∷ sequences) inherited outcomes =
      unless_shutdown outcomes (
        execute_group task inherited (select_where (of_sequence sequence) pending) >>= λ group.
        unless_shutdown (append outcomes group) (
          after_group (execute_sequences task pending sequences) (or_first inherited group)
            (append outcomes group) (first_where (is_required_failure w task_id) group)))

  -- `[...new Set(numbers)].sort(…)`
  unfoldable pub distinct : List ℕ → List ℕ
  distinct [] = []
  distinct (n ∷ ns) = if any (λ m. eqb m n) ns then distinct ns else n ∷ distinct ns

  abbrev pub is_pending_step : RouteStepRow → Bool
  is_pending_step step =
      (step.task_id == task_id) && same_step_status step.status RouteStepStatus.pending

  abbrev pub sequences_of : List RouteStepRow → List ℕ
  sequences_of [] = []
  sequences_of (step ∷ steps) = step.sequence_no ∷ sequences_of steps

  abbrev pub expired : Option String → Bool
  expired none = false
  expired (some error) = starts_with "Worker heartbeat expired" error

  abbrev pub is_lost_attempt : RunRow → Bool
  is_lost_attempt run = same_run_status run.status RunStatus.stale || expired run.error

  -- the worktrees of runs that were lost
  abbrev pub is_quarantined : List RunRow → String → Bool
  is_quarantined runs path =
      any (λ (r : RunRow). is_lost_attempt r && is_path path r.worktree_path) runs

  abbrev pub worktree_of : RunRow → Option WorktreeInfo
  worktree_of run = all_of run.worktree_path run.branch run.base_commit

  abbrev pub has_worktree : RunRow → Bool
  has_worktree run =
      is_filled run.worktree_path && (is_filled run.branch && is_filled run.base_commit)

  abbrev pub inherits_from : List RunRow → RunRow → Bool
  inherits_from runs run =
      has_worktree run
      && (not (is_lost_attempt run) && not (is_quarantined runs (get_or run.worktree_path "")))

  abbrev pub inherited_from : Option RunRow → Option WorktreeInfo
  inherited_from none = none
  inherited_from (some run) = worktree_of run

  abbrev pub inherited_worktree : RouteMode → List RunRow → Option WorktreeInfo
  inherited_worktree RouteMode.parallel runs = none
  inherited_worktree _ runs = inherited_from (last_where (inherits_from runs) runs)

  -- `#executeClaimedTask`
  unfoldable pub execute_claimed_task : TaskRow → Db → Job RunTaskResult
  unfolding execute_sequences distinct last_where
  execute_claimed_task task seen =
      let pending = select_where is_pending_step seen.steps in
      execute_sequences task pending (order_by (λ a b. ltb a b) (distinct (sequences_of pending)))
        (inherited_worktree task.route_mode (runs_of task_id seen)) []

  abbrev pub is_claimed_by : String → Option String → Bool
  is_claimed_by worker_id none = false
  is_claimed_by worker_id (some owner) = owner == worker_id

  abbrev pub not_claimed : TaskRow → String
  not_claimed row =
      "Task "
      ++ (task_id
          ++ (" is claimed by " ++ (get_or row.claimed_by "nobody" ++ (", not " ++ w.worker_id))))

  abbrev pub task_now : Job TaskRow
  task_now x = elim (find_task task_id x.db) [
    | none ↦ (err ("Task not found: " ++ task_id), x)
    | some row ↦ (ok row, x)
  ]

  abbrev pub heartbeat_and_execute : TaskRow → Db → Job RunTaskResult
  heartbeat_and_execute task seen =
      job_db w.message_of (λ _. heartbeat_task task_id w.worker_id w.now)
      >> execute_claimed_task task seen

  -- `executeTask`; the heartbeats of its timer are writes of others
  unfoldable pub execute_task : Job RunTaskResult
  unfolding execute_claimed_task
  execute_task worker =
      (do
        task ← task_now
        refuse_if_job (not (is_running task.status))
            ("Task " ++ (task_id ++ " must be claimed before execution"))
        refuse_if_job (not (is_claimed_by w.worker_id task.claimed_by)) (not_claimed task)
        unless_shutdown [] (heartbeat_and_execute task worker.db))
        worker
