-- ===== src/Db/Reviews/Requeue.antt =====
-- What puts a task back into the queue: the rework that a reviewer asks for, and the operator's retry.
use agent_control_center_cor.Base.{
  ℕ, String, true, false, ◌&&◌, ◌||◌, ◌⊎◌, inl, inr, none, any, arith, Option, some, List, ok, ◌≡◌,
  ◌≢◌, eq_iff, refl, sym, ap, ◌∙◌, subst, All, update_where, first_where, ◌==◌,
}
use agent_control_center_cor.Base.Text.{contains}
use agent_control_center_cor.Base.Order.{IsRow, All-weaken, any-IsRow}
use agent_control_center_cor.Base.Lookup.{first_where-none, All-written}
use agent_control_center_cor.Protocol.{TaskStatus, RunStatus, AgentKind, same_run_status}
use agent_control_center_cor.Db.State.{
  Db, TaskRow, RouteStepRow, RouteStepStatus, RunRow, ReviewRow, MessageRow, EventRow,
}
use agent_control_center_cor.Db.Action.{◌>>=◌, check}
use agent_control_center_cor.Db.Action.Returns.{
  transaction-ok, check-ok, required-ok, bind-ok, pure-ok, gets-ok, update_tasks-ok,
  update_steps-ok, update_reviews-ok,
}
use agent_control_center_cor.Db.Insert.{insert_message}
use agent_control_center_cor.Db.Tasks.{find_task}
use agent_control_center_cor.Db.Runs.{reset_step, same_step_status, is_same}
use agent_control_center_cor.Db.Reviews.{
  Expected, request_task_rework, retry_blocked_task, released, has_status, is_unresolved_remote,
  unresolved_remote, no_remote, is_openclaw, heartbeat_expired, is_confirmation,
}
use agent_control_center_cor.Db.Reviews.Decisions.{find_task-released}

insert_message-keeps :
    (row : MessageRow) (db after : Db) (u : Unit {0})
    → insert_message row db ≡ (ok u, after)
    → (after.tasks ≡ db.tasks) × (after.steps ≡ db.steps)
unfolding insert_message
insert_message-keeps row db after u h = ground arith

-- A task in the queue that nobody has claimed.
pub record IsRequeued (task_id : String) (after : Db) : Type 0 where
  pub task : TaskRow
  pub found : find_task task_id after ≡ some task
  pub queued : task.status ≡ TaskStatus.queued
  pub unclaimed : task.claimed_by ≡ none

requeued :
    (task_id : String) (from : TaskStatus) (update : String) (updated_at : ℕ) (db after : Db)
    (task : TaskRow)
    → find_task task_id db ≡ some task
    → task.status ≡ from
    → after.tasks
      ≡ update_where
          (has_status task_id from)
          (released TaskStatus.queued update updated_at)
          db.tasks
    → IsRequeued task_id after
requeued task_id from update updated_at db after task found same written = record {
  task = released TaskStatus.queued update updated_at task;
  found =
      ap (first_where (λ (t : TaskRow). t.id == task_id)) written
      ∙ find_task-released task_id from TaskStatus.queued update updated_at db.tasks task found
          same;
  queued = refl;
  unclaimed = refl;
}

abbrev pub IsReset : String → RouteStepRow → Type 0
IsReset task_id s = s.task_id ≡ task_id → (s.status ≡ RouteStepStatus.pending) × (s.run_id ≡ none)

steps-IsReset :
    (task_id : String) (updated_at : ℕ) (steps : List RouteStepRow)
    → All (IsReset task_id) (update_where (λ s. s.task_id == task_id) (reset_step updated_at) steps)
steps-IsReset task_id updated_at steps =
    All-written (IsReset task_id) (λ s. s.task_id == task_id) (reset_step updated_at) steps
      (λ s h k. (refl, refl)) (λ s h k. ground (arith, eq_iff s.task_id task_id))

module _ (task_id note : String) (expected : Option Expected) (message_id : String) (updated_at : ℕ)
    (db : Db) (row : ReviewRow) (message : MessageRow) (after : Db) where
  -- A rework that returns leaves the task queued and unclaimed, and each of its
  -- route steps pending and without a run.
  pub request_task_rework-IsRequeued :
      request_task_rework task_id note expected message_id updated_at db
        ≡ (ok (row, message), after)
      → IsRequeued task_id after × All (IsReset task_id) after.steps
  unfolding request_task_rework
  request_task_rework-IsRequeued h =
      let (said, h0) = check-ok _ _ _ h in
      let (task, (found, h1)) = required-ok _ _ _ (gets-ok _ _ (transaction-ok _ h0)) in
      let (waiting, h2) = check-ok _ _ _ h1 in
      let (review, (selected, h3)) = required-ok _ _ _ (gets-ok _ _ h2) in
      let (live, h4) = check-ok _ _ _ h3 in
      let (one, h5) = check-ok _ _ _ (update_reviews-ok _ _ _ _ h4) in
      let (u, (db', (sent, h6))) = bind-ok _ _ h5 in
      let (same_tasks, same_steps) = insert_message-keeps _ _ _ _ sent in
      let (moved, h7) = check-ok _ _ _ (update_tasks-ok _ _ _ _ (update_steps-ok _ _ _ _ h6)) in
      let (decision, (its_row, h8)) = required-ok _ _ _ (gets-ok _ _ h7) in
      let (pair, last) = pure-ok _ h8 in
      (
        requeued task_id TaskStatus.needs_review _ updated_at db after task found (ground arith) (
            ap (λ (d : Db). d.tasks) (sym last)
            ∙ ap (update_where (has_status task_id TaskStatus.needs_review) _) same_tasks),
        subst (λ (d : Db). All (IsReset task_id) d.steps) last
            (steps-IsReset task_id updated_at db'.steps),
      )

abbrev pub IsRetried : String → RouteStepRow → Type 0
IsRetried task_id s = s.task_id ≡ task_id → s.status ≢ RouteStepStatus.failed

steps-IsRetried :
    (task_id : String) (updated_at : ℕ) (steps : List RouteStepRow)
    → All (IsRetried task_id) (
        update_where
          (λ s. s.task_id == task_id && same_step_status s.status RouteStepStatus.failed)
          (reset_step updated_at)
          steps)
steps-IsRetried task_id updated_at steps =
    All-written (IsRetried task_id) _ (reset_step updated_at) steps (λ s h k. ground arith)
      (λ s h k. ground (arith, eq_iff s.task_id task_id))

-- A remote run of the task that went stale, or whose error says that the heartbeat of its worker
-- expired, has an event that confirms its cancellation.
abbrev pub IsConfirmed : String → Db → RunRow → Type 0
IsConfirmed task_id db r =
    r.task_id ≡ task_id
    → r.agent ≡ AgentKind.openclaw
    → (r.status ≡ RunStatus.stale)
      ⊎ ((error : String) × ((r.error ≡ some error)
            × (contains "Worker heartbeat expired" error ≡ true)))
    → (e : EventRow) × (IsRow e db.events
        × ((e.run_id ≡ some r.id) × (e.type ≡ "run.remote_cancellation_confirmed")))

is_same-some : (o : Option String) (s : String) → is_same o (some s) ≡ true → o ≡ some s
is_same-some none s h = cc
is_same-some (some x) s h = ap some ((eq_iff x s).0 h)

is_lost_remote :
    (r : RunRow)
    → (r.status ≡ RunStatus.stale)
      ⊎ ((error : String) × ((r.error ≡ some error)
            × (contains "Worker heartbeat expired" error ≡ true)))
    → (same_run_status r.status RunStatus.stale || heartbeat_expired r.error) ≡ true
is_lost_remote r (inl stale) = rw stale refl
is_lost_remote r (inr (error, (same, said))) = ground (arith, ap heartbeat_expired same ∙ said)

resolved-IsConfirmed :
    (task_id : String) (db : Db) (r : RunRow)
    → is_unresolved_remote task_id db r ≡ false
    → IsConfirmed task_id db r
unfolding is_unresolved_remote
resolved-IsConfirmed task_id db r h same_task openclaw lost =
    let (e, (row, met)) = any-IsRow (is_confirmation r.id) db.events (
      confirmed ((eq_iff r.task_id task_id).1 same_task) (ap is_openclaw openclaw)
        (is_lost_remote r lost)) in
    (
      e,
      (
        row,
        (
          is_same-some e.run_id r.id (ground arith),
          (eq_iff e.type "run.remote_cancellation_confirmed").0 (ground arith),
        ),
      ),
    )
  where
    confirmed :
        (r.task_id == task_id) ≡ true
        → is_openclaw r.agent ≡ true
        → (same_run_status r.status RunStatus.stale || heartbeat_expired r.error) ≡ true
        → any (is_confirmation r.id) db.events ≡ true
    confirmed a b c = ground arith

no_remote-ok :
    (task_id : String) (found : Option RunRow) (db after : Db) (u : Unit {0})
    → no_remote false task_id found db ≡ (ok u, after)
    → (found ≡ none) × (after ≡ db)
unfolding check ◌>>=◌
no_remote-ok task_id none db after u h = ground arith
no_remote-ok task_id (some r) db after u h = cc

module _ (task_id : String) (note : Option String) (message_id : String) (updated_at : ℕ) (db : Db)
    (message : MessageRow) (after : Db) where
  -- Without the operator's override a retry that returns found for each OpenClaw run of the task that is
  -- stale, or whose error says that a worker's heartbeat expired, an event that confirms the
  -- cancellation of that run. It leaves the task queued and unclaimed, and none of its route steps
  -- failed.
  pub retry_blocked_task-IsConfirmed :
      retry_blocked_task task_id note false message_id updated_at db ≡ (ok message, after)
      → All (IsConfirmed task_id db) db.runs
        × (IsRequeued task_id after × All (IsRetried task_id) after.steps)
  unfolding retry_blocked_task unresolved_remote
  retry_blocked_task-IsConfirmed h =
      let (task, (found, h1)) = required-ok _ _ _ (gets-ok _ _ (transaction-ok _ h)) in
      let (blocked, h2) = check-ok _ _ _ h1 in
      let (u, (db1, (resolved, h3))) = bind-ok _ _ (gets-ok _ _ h2) in
      let (none_found, same) = no_remote-ok _ _ _ _ _ resolved in
      let (v, (db2, (sent, h4))) = bind-ok _ _ h3 in
      let (same_tasks, same_steps) = insert_message-keeps _ _ _ _ sent in
      let (moved, h5) = check-ok _ _ _ (update_tasks-ok _ _ _ _ (update_steps-ok _ _ _ _ h4)) in
      let (pair, last) = pure-ok _ h5 in
      (
        All-weaken _ (IsConfirmed task_id db) db.runs (resolved-IsConfirmed task_id db)
            (first_where-none (is_unresolved_remote task_id db) db.runs none_found),
        (
          requeued task_id TaskStatus.blocked _ updated_at db after task found (ground arith) (
              ap (λ (d : Db). d.tasks) (sym last)
              ∙ ap (update_where (has_status task_id TaskStatus.blocked) _)
                  (same_tasks ∙ ap (λ (d : Db). d.tasks) same)),
          subst (λ (d : Db). All (IsRetried task_id) d.steps) last
              (steps-IsRetried task_id updated_at db2.steps),
        ),
      )
