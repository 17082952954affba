-- ===== src/Db/Tasks/Legal.antt =====
-- The methods of src/db.ts on tasks move tasks and runs along the transition tables only.
use agent_control_center_cor.Base.{
  ℕ, String, ◌≡◌, refl, true, arith, Option, none, some, List, [], ◌∷◌, ok, inl,
}
use agent_control_center_cor.Protocol.{
  RoutePlan, TaskPayload, TaskStatus, RouteStep, may_move_task, assert_task_transition,
  same_task_status,
}
use agent_control_center_cor.Db.State.{Db, TaskRow}
use agent_control_center_cor.Db.Legal.{
  Quiet, Quiet-bind, Quiet-insert_step, Moves, TaskStep, quiet_rules, Moves-transaction, Moves-then,
  Moves-bind, Moves-Quiet, Moves-insert_task, Moves-update_tasks, Moves-required, Moves-lift,
}
use agent_control_center_cor.Db.Tasks.{
  create_task, insert_steps, claim_next_task, claim_found, claimed_row, heartbeat_task,
  update_task_status, is_queued, new_task_row, db_transition, status_update,
}

Quiet-insert_steps :
    (id : String) (created_at : ℕ) (steps : List RouteStep)
    → Quiet (insert_steps id created_at steps)
unfolding insert_steps
Quiet-insert_steps id created_at [] = search quiet_rules
Quiet-insert_steps id created_at (s ∷ steps) =
    Quiet-bind _ _ (Quiet-insert_step _) (λ _. Quiet-insert_steps id created_at steps)

pub Moves-create_task :
    (task : TaskPayload) (plan : RoutePlan) (generated : String) (created_at : ℕ)
    → Moves (create_task task plan generated created_at)
unfolding create_task
Moves-create_task task plan generated created_at = Moves-transaction _ (
    Moves-then _ _
      (Moves-insert_task (new_task_row task plan generated created_at)
        (record { queued = refl; owned = inl (refl, refl) }))
      (λ _. search (quiet_rules, Quiet-insert_steps) depth 8))

claimed_row-TaskStep :
    (worker_id : String) (claimed_at : ℕ) (t : TaskRow)
    → is_queued t ≡ true
    → TaskStep t (claimed_row worker_id claimed_at t)
unfolding may_move_task
claimed_row-TaskStep worker_id claimed_at t h = ground arith

Moves-claim_found :
    (worker_id : String) (claimed_at : ℕ) (o : Option TaskRow)
    → Moves (claim_found worker_id claimed_at o)
Moves-claim_found worker_id claimed_at none = Moves-Quiet (search quiet_rules)
Moves-claim_found worker_id claimed_at (some candidate) =
    Moves-then _ _
      (Moves-update_tasks _ _ (λ t h. claimed_row-TaskStep worker_id claimed_at t (ground arith)))
      (λ _. search quiet_rules)

pub Moves-claim_next_task :
    (worker_id : String) (claimed_at : ℕ) → Moves (claim_next_task worker_id claimed_at)
unfolding claim_next_task
Moves-claim_next_task worker_id claimed_at =
    Moves-transaction _
      (Moves-bind _ _ (search quiet_rules) (Moves-claim_found worker_id claimed_at))

heartbeat-TaskStep :
    (heartbeat_at : ℕ) (t : TaskRow)
    → t.status ≡ TaskStatus.running
    → TaskStep t (record t { claimed_at = some heartbeat_at; updated_at = heartbeat_at })
unfolding may_move_task
heartbeat-TaskStep heartbeat_at t h = ground arith

pub Moves-heartbeat_task :
    (task_id worker_id : String) (heartbeat_at : ℕ)
    → Moves (heartbeat_task task_id worker_id heartbeat_at)
unfolding heartbeat_task
Moves-heartbeat_task task_id worker_id heartbeat_at = Moves-bind _ _ (search quiet_rules) (λ _.
    Moves-then _ _
      (Moves-update_tasks _ _ (λ t h. heartbeat-TaskStep heartbeat_at t (ground arith)))
      (λ _. search quiet_rules))

-- The CAS predicate of the UPDATE carries the checked transition over to the row that is written.
status_update-TaskStep :
    (from to : TaskStatus) (update : String) (updated_at : ℕ) (t : TaskRow)
    → may_move_task from to ≡ true
    → same_task_status t.status from ≡ true
    → TaskStep t (status_update to update updated_at t)
unfolding may_move_task
status_update-TaskStep from to update updated_at t legal same = ground arith

allowed :
    (from to : TaskStatus)
    → db_transition (assert_task_transition from to) ≡ ok tt
    → may_move_task from to ≡ true
unfolding assert_task_transition
allowed from to h = ground arith

pub Moves-update_task_status :
    (seen : Db) (task_id : String) (status : TaskStatus) (latest_update : String) (updated_at : ℕ)
    → Moves (update_task_status seen task_id status latest_update updated_at)
unfolding update_task_status
Moves-update_task_status seen task_id status latest_update updated_at =
    Moves-required _ _ _ λ row _. Moves-lift _ _ λ _ passed.
      Moves-then _ _
        (Moves-update_tasks _ _ λ t h.
          status_update-TaskStep row.status status latest_update updated_at t
            (allowed row.status status passed) (ground arith))
        (λ _. search quiet_rules)
