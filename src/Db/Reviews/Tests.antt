-- ===== src/Db/Reviews/Tests.antt =====
-- The theorems on reviews and on what requeues a task, at small databases.
use agent_control_center_cor.Base.{
  ℕ, String, Option, none, some, true, false, ok, err, All, ◌≡◌, refl,
}
use agent_control_center_cor.Db.State.{Db, ReviewRow, ReviewStatus, MessageRow}
use agent_control_center_cor.Db.Action.{◌>>=◌, transaction}
use agent_control_center_cor.Db.Samples.{sample_review, one_waiting, one_blocked}
use agent_control_center_cor.Db.Reviews.{
  Expected, approve_task_review, request_task_rework, retry_blocked_task, system_message,
  select_review, is_current, is_unresolved_remote,
}
use agent_control_center_cor.Db.Reviews.Decisions.{IsFinal, approve_task_review-final}
use agent_control_center_cor.Db.Reviews.Requeue.{
  IsRequeued, IsReset, IsRetried, IsConfirmed, request_task_rework-IsRequeued,
  retry_blocked_task-IsConfirmed,
}

-- the version of the review that the reviewer has seen
abbrev seen : Option Expected
seen = some (record { review_id = "review-1"; updated_at = 2 })

abbrev approved_row : ReviewRow
approved_row = record (sample_review "review-1" "task-1" ReviewStatus.approved) { updated_at = 9 }

abbrev approved : Db
approved = (approve_task_review "task-1" none seen 9 one_waiting).1

approves : approve_task_review "task-1" none seen 9 one_waiting ≡ (ok approved_row, approved)
unfolding approve_task_review transaction ◌>>=◌ agent_control_center_cor.Base.first_where
    select_review agent_control_center_cor.Base.count_where
    agent_control_center_cor.Base.update_where
approves = refl

approve_task_review-final_example : IsFinal "task-1" none seen 9 one_waiting approved_row approved
approve_task_review-final_example =
    approve_task_review-final "task-1" none seen 9 one_waiting approved_row approved approves

abbrev rework_row : ReviewRow
rework_row = record (sample_review "review-1" "task-1" ReviewStatus.rework_requested) {
  note = some "Add a test.";
  updated_at = 9;
}

abbrev rework_message : MessageRow
rework_message = system_message "message-1" "task-1" none "reviewer" "Add a test." 9

abbrev reworked : Db
reworked = (request_task_rework "task-1" "Add a test." seen "message-1" 9 one_waiting).1

reworks :
    request_task_rework "task-1" "Add a test." seen "message-1" 9 one_waiting
    ≡ (ok (rework_row, rework_message), reworked)
unfolding request_task_rework ◌>>=◌ agent_control_center_cor.Base.Text.trim transaction
    agent_control_center_cor.Base.first_where select_review
    agent_control_center_cor.Base.count_where agent_control_center_cor.Db.Insert.insert_message
    agent_control_center_cor.Base.any agent_control_center_cor.Db.Insert.has_task
    agent_control_center_cor.Db.Insert.has_run_or_null agent_control_center_cor.Base.update_where
reworks = refl

request_task_rework-IsRequeued_example :
    IsRequeued "task-1" reworked × All (IsReset "task-1") reworked.steps
request_task_rework-IsRequeued_example =
    request_task_rework-IsRequeued "task-1" "Add a test." seen "message-1" 9 one_waiting rework_row
      rework_message reworked reworks

abbrev retry_message : MessageRow
retry_message = system_message "message-1" "task-1" none "operator" "Again." 9

abbrev retried : Db
retried = (retry_blocked_task "task-1" (some "Again.") false "message-1" 9 one_blocked).1

retries :
    retry_blocked_task "task-1" (some "Again.") false "message-1" 9 one_blocked
    ≡ (ok retry_message, retried)
unfolding retry_blocked_task transaction ◌>>=◌ agent_control_center_cor.Base.first_where
    agent_control_center_cor.Db.Reviews.unresolved_remote
    agent_control_center_cor.Db.Insert.insert_message agent_control_center_cor.Base.any
    agent_control_center_cor.Db.Insert.has_task agent_control_center_cor.Db.Insert.has_run_or_null
    agent_control_center_cor.Base.count_where agent_control_center_cor.Base.Text.trim
retries = refl

retry_blocked_task-IsConfirmed_example :
    All (IsConfirmed "task-1" one_blocked) one_blocked.runs
    × (IsRequeued "task-1" retried × All (IsRetried "task-1") retried.steps)
retry_blocked_task-IsConfirmed_example =
    retry_blocked_task-IsConfirmed "task-1" (some "Again.") "message-1" 9 one_blocked retry_message
      retried retries
