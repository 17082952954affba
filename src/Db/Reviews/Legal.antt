-- ===== src/Db/Reviews/Legal.antt =====
-- The methods of src/db.ts on reviews and retries move tasks and runs along the transition tables
-- only.
use agent_control_center_cor.Base.{
  ℕ, String, ◌≡◌, refl, true, arith, Bool, false, Option, none, some, inl,
}
use agent_control_center_cor.Protocol.{TaskStatus, may_move_task}
use agent_control_center_cor.Db.State.{TaskRow, RunRow, ReviewRow}
use agent_control_center_cor.Db.Legal.{
  Quiet, Moves, TaskStep, quiet_rules, moves_rules, Moves-transaction, Moves-then, Moves-bind,
  Moves-update_tasks,
}
use agent_control_center_cor.Db.Reviews.{
  create_review, decide_review, Decision, finalize_task_execution, Outcome, outcome_status,
  request_review, released, has_status, approve_task_review, Expected, request_task_rework,
  retry_blocked_task, no_remote, done, needs_review,
}

released-TaskStep :
    (from to : TaskStatus) (latest_update : String) (updated_at : ℕ) (t : TaskRow)
    → may_move_task from to ≡ true
    → t.status ≡ from
    → TaskStep t (released to latest_update updated_at t)
released-TaskStep from to latest_update updated_at t legal same = record {
  same_id = refl;
  legal = ground arith;
  owned = λ _. inl (refl, refl);
}

module _ (task_id : String) (from to : TaskStatus) (latest_update : String) (updated_at : ℕ) where
  Moves-release :
      may_move_task from to ≡ true
      → ((t : TaskRow) → has_status task_id from t ≡ true → t.status ≡ from)
      → Moves (
          agent_control_center_cor.Db.Action.update_tasks
            (has_status task_id from)
            (released to latest_update updated_at))
  Moves-release legal same =
      Moves-update_tasks _ _
        λ t h. released-TaskStep from to latest_update updated_at t legal (same t h)

pub Quiet-request_review :
    (outcome : Outcome) (review : ReviewRow) → Quiet (request_review outcome review)
unfolding request_review
Quiet-request_review done review = search quiet_rules
Quiet-request_review needs_review review = search quiet_rules

outcome_allowed :
    (outcome : Outcome) → may_move_task TaskStatus.running (outcome_status outcome) ≡ true
unfolding may_move_task
outcome_allowed done = refl
outcome_allowed needs_review = refl

pub Moves-finalize_task_execution :
    (task_id : String) (outcome : Outcome) (latest_update : String) (run_id : Option String)
    (id : String) (updated_at : ℕ)
    → Moves (finalize_task_execution task_id outcome latest_update run_id id updated_at)
unfolding finalize_task_execution
Moves-finalize_task_execution task_id outcome latest_update run_id id updated_at =
    let write =
      Moves-release task_id TaskStatus.running (outcome_status outcome) latest_update updated_at
        (outcome_allowed outcome) (λ t same. ground arith) in
    Moves-transaction _ (
      Moves-bind _ _ (search quiet_rules) λ found. Moves-bind _ _ (search quiet_rules) λ task.
        Moves-bind _ _ (search quiet_rules) λ _.
          Moves-bind _ _ (Quiet-request_review outcome _)
            λ review. Moves-then _ _ write (λ _. search quiet_rules))

pub Moves-approve_task_review :
    (task_id : String) (reason : Option String) (expected : Option Expected) (updated_at : ℕ)
    → Moves (approve_task_review task_id reason expected updated_at)
unfolding approve_task_review may_move_task
Moves-approve_task_review task_id reason expected updated_at =
    let write = λ (update : String).
      Moves-release task_id TaskStatus.needs_review TaskStatus.done update updated_at refl
        (λ t same. ground arith) in
    search (moves_rules, write) depth 16

pub Moves-request_task_rework :
    (task_id reason : String) (expected : Option Expected) (message_id : String) (updated_at : ℕ)
    → Moves (request_task_rework task_id reason expected message_id updated_at)
unfolding request_task_rework may_move_task
Moves-request_task_rework task_id reason expected message_id updated_at =
    let write = λ (update : String).
      Moves-release task_id TaskStatus.needs_review TaskStatus.queued update updated_at refl
        (λ t same. ground arith) in
    search (moves_rules, write) depth 18

Quiet-no_remote :
    (allow : Bool) (task_id : String) (found : Option RunRow)
    → Quiet (no_remote allow task_id found)
Quiet-no_remote true task_id found = search quiet_rules
Quiet-no_remote false task_id none = search quiet_rules
Quiet-no_remote false task_id (some r) = search quiet_rules

pub Moves-retry_blocked_task :
    (task_id : String) (reason : Option String) (allow : Bool) (message_id : String)
    (updated_at : ℕ)
    → Moves (retry_blocked_task task_id reason allow message_id updated_at)
unfolding retry_blocked_task may_move_task
Moves-retry_blocked_task task_id reason allow message_id updated_at =
    let write = λ (update : String).
      Moves-release task_id TaskStatus.blocked TaskStatus.queued update updated_at refl
        (λ t same. ground arith) in
    search (moves_rules, Quiet-no_remote, write) depth 16

pub Quiet-create_review :
    (id task_id : String) (run_id reviewer : Option String) (created_at : ℕ)
    → Quiet (create_review id task_id run_id reviewer created_at)
unfolding create_review
Quiet-create_review id task_id run_id reviewer created_at = search quiet_rules

pub Quiet-decide_review :
    (review_id : String) (decision : Decision) (reason : Option String) (updated_at : ℕ)
    → Quiet (decide_review review_id decision reason updated_at)
unfolding decide_review
Quiet-decide_review review_id decision reason updated_at = search quiet_rules depth 8
