-- ===== src/Db/Reviews.antt =====
-- src/db.ts: createReview, decideReview, finalizeTaskExecution, approveTaskReview,
-- requestTaskRework, retryBlockedTask.
pub mod Decisions
pub mod Requeue
pub mod Legal
mod Tests
use agent_control_center_cor.Base.{
  ℕ, String, Bool, true, false, not, ◌&&◌, ◌||◌, Option, none, some, List, [], ◌∷◌, ltb, eqb, ◌==◌,
  get_or, if◌then◌else◌, any, first_where, order_first, select_where,
}
use agent_control_center_cor.Base.Text.{trim, contains}
use agent_control_center_cor.Protocol.{
  AgentKind, RunStatus, TaskStatus, same_task_status, same_run_status,
}
use agent_control_center_cor.Db.State.{
  Db, DbError, TaskRow, RouteStepRow, RouteStepStatus, RunRow, EventRow, MessageRow, Direction,
  DeliveryStatus, ReviewRow, ReviewStatus, task_not_found, task_changed, task_not_waiting,
  task_not_blocked, task_cannot_finalize, unconfirmed_remote, review_not_found, no_pending_review,
  review_changed, review_disappeared, note_required,
}
use agent_control_center_cor.Db.Action.{
  Action, ◌>>=◌, ◌>>◌, pure, gets, required, check, update_tasks, update_steps, update_reviews,
  transaction,
}
use agent_control_center_cor.Db.Insert.{insert_message, insert_review}
use agent_control_center_cor.Db.Tasks.{find_task}
use agent_control_center_cor.Db.Runs.{reset_step, same_step_status, is_same}

abbrev pub is_pending : ReviewStatus → Bool
is_pending ReviewStatus.pending = true
is_pending _ = false

-- `note?.trim() || null`
abbrev pub clean_note : Option String → Option String
clean_note none = none
clean_note (some note) = let clean = trim note in if clean == "" then none else some clean

abbrev pub new_review : String → String → Option String → Option String → ℕ → ReviewRow
new_review id task_id run_id reviewer created_at = record {
  id = id;
  task_id = task_id;
  run_id = run_id;
  reviewer = reviewer;
  status = ReviewStatus.pending;
  note = none;
  created_at = created_at;
  updated_at = created_at;
}

-- `id` is `review_${randomUUID()}` here and below.
pub create_review : String → String → Option String → Option String → ℕ → Action ReviewRow
create_review id task_id run_id reviewer created_at =
    let row = new_review id task_id run_id reviewer created_at in do insert_review row; pure row

abbrev pub find_review : String → Db → Option ReviewRow
find_review id db = first_where (λ (r : ReviewRow). r.id == id) db.reviews

abbrev decided : ReviewStatus → Option String → ℕ → ReviewRow → ReviewRow
decided status note updated_at r = record r {
  status = status;
  note = note;
  updated_at = updated_at;
}

-- Exclude<ReviewStatus, "pending">
pub data Decision : Type 0 where
  approved rework_requested rejected : Decision

abbrev pub decision_status : Decision → ReviewStatus
decision_status approved = ReviewStatus.approved
decision_status rework_requested = ReviewStatus.rework_requested
decision_status rejected = ReviewStatus.rejected

pub decide_review : String → Decision → Option String → ℕ → Action ReviewRow
decide_review review_id decision note updated_at = do
  changes ←
      update_reviews (λ r. r.id == review_id && is_pending r.status)
        (decided (decision_status decision) (clean_note note) updated_at)
  check (eqb changes 1) (review_not_found review_id)
  row ← gets (find_review review_id)
  required row (review_disappeared review_id)

-- `input.status` of finalizeTaskExecution: "done" | "needs-review"
pub data Outcome : Type 0 where
  done needs_review : Outcome

abbrev pub outcome_status : Outcome → TaskStatus
outcome_status done = TaskStatus.done
outcome_status needs_review = TaskStatus.needs_review

unfoldable pub request_review : Outcome → ReviewRow → Action (Option ReviewRow)
request_review done review = pure none
request_review needs_review review = do insert_review review; pure (some review)

-- What each method of this file writes to the task that it moves.
abbrev pub released : TaskStatus → String → ℕ → TaskRow → TaskRow
released status latest_update updated_at t = record t {
  status = status;
  latest_update = latest_update;
  claimed_by = none;
  claimed_at = none;
  updated_at = updated_at;
}

abbrev pub has_status : String → TaskStatus → TaskRow → Bool
has_status task_id status t = t.id == task_id && same_task_status t.status status

unfoldable pub finalize_task_execution :
    String → Outcome → String → Option String → String → ℕ → Action (Option ReviewRow)
finalize_task_execution task_id outcome latest_update run_id id updated_at = transaction do
  found ← gets (find_task task_id)
  task ← required found (task_not_found task_id)
  check (same_task_status task.status TaskStatus.running) (task_cannot_finalize task_id)
  review ← request_review outcome (new_review id task_id run_id none updated_at)
  changes ←
      update_tasks (has_status task_id TaskStatus.running)
        (released (outcome_status outcome) latest_update updated_at)
  check (eqb changes 1) (task_changed task_id)
  pure review

-- The review and the `updated_at` that the reviewer has seen.
pub record Expected : Type 0 where
  pub review_id : String
  pub updated_at : ℕ

-- ORDER BY created_at DESC, rowid DESC LIMIT 1: of two rows that tie the later one.
unfoldable pub latest_review : List ReviewRow → Option ReviewRow
latest_review rows = order_first (λ a b. not (ltb a.created_at b.created_at)) rows

unfoldable pub select_review : String → Option Expected → Db → Option ReviewRow
unfolding latest_review
select_review task_id none db =
    latest_review
      (select_where (λ (r : ReviewRow). r.task_id == task_id && is_pending r.status) db.reviews)
select_review task_id (some e) db =
    first_where (λ (r : ReviewRow). r.id == e.review_id && r.task_id == task_id) db.reviews

-- `expected && …`: true where nothing is expected
abbrev pub is_current : Option Expected → ReviewRow → Bool
is_current none r = true
is_current (some e) r = eqb r.updated_at e.updated_at

pub approve_task_review : String → Option String → Option Expected → ℕ → Action ReviewRow
approve_task_review task_id note expected updated_at = transaction do
  found ← gets (find_task task_id)
  task ← required found (task_not_found task_id)
  check (same_task_status task.status TaskStatus.needs_review) (task_not_waiting task_id)
  selected ← gets (select_review task_id expected)
  review ← required selected (no_pending_review task_id)
  check (is_pending review.status && is_current expected review) (review_changed review.id)
  decisions ←
      update_reviews
        (λ r.
          r.id == review.id && r.task_id == task_id && is_pending r.status && is_current expected r)
        (decided ReviewStatus.approved (clean_note note) updated_at)
  check (eqb decisions 1) (review_changed review.id)
  changes ←
      update_tasks (has_status task_id TaskStatus.needs_review) (
        released TaskStatus.done (get_or (clean_note note) "Approved by human reviewer.")
          updated_at)
  check (eqb changes 1) (task_changed task_id)
  row ← gets (find_review review.id)
  required row (review_disappeared review.id)

abbrev pub system_message : String → String → Option String → String → String → ℕ → MessageRow
system_message id task_id run_id role body created_at = record {
  id = id;
  task_id = task_id;
  run_id = run_id;
  direction = Direction.system;
  role = role;
  body = body;
  delivery_status = DeliveryStatus.queued;
  created_at = created_at;
}

-- `message_id` is `message_${randomUUID()}` here and below.
pub request_task_rework :
    String → String → Option Expected → String → ℕ → Action (ReviewRow × MessageRow)
request_task_rework task_id note expected message_id updated_at =
    let clean = trim note in
    do
      check (not (clean == "")) note_required
      transaction do
        found ← gets (find_task task_id)
        task ← required found (task_not_found task_id)
        check (same_task_status task.status TaskStatus.needs_review) (task_not_waiting task_id)
        selected ← gets (select_review task_id expected)
        review ← required selected (no_pending_review task_id)
        check (is_pending review.status && is_current expected review) (review_changed review.id)
        decisions ←
            update_reviews
              (λ r.
                r.id == review.id
                && r.task_id == task_id
                && is_pending r.status
                && is_current expected r)
              (decided ReviewStatus.rework_requested (some clean) updated_at)
        check (eqb decisions 1) (review_changed review.id)
        let message = system_message message_id task_id review.run_id "reviewer" clean updated_at
        insert_message message
        update_steps (λ s. s.task_id == task_id) (reset_step updated_at)
        changes ←
            update_tasks (has_status task_id TaskStatus.needs_review)
              (released TaskStatus.queued clean updated_at)
        check (eqb changes 1) (task_changed task_id)
        row ← gets (find_review review.id)
        decision ← required row (review_disappeared review.id)
        pure (decision, message)

abbrev pub is_openclaw : AgentKind → Bool
is_openclaw AgentKind.openclaw = true
is_openclaw _ = false

abbrev pub heartbeat_expired : Option String → Bool
heartbeat_expired none = false
heartbeat_expired (some error) = contains "Worker heartbeat expired" error

abbrev pub is_confirmation : String → EventRow → Bool
is_confirmation run_id e =
    is_same e.run_id (some run_id) && e.type == "run.remote_cancellation_confirmed"

-- The WHERE clause that retryBlockedTask selects by.
unfoldable pub is_unresolved_remote : String → Db → RunRow → Bool
is_unresolved_remote task_id db r =
    r.task_id == task_id
    && is_openclaw r.agent
    && (same_run_status r.status RunStatus.stale || heartbeat_expired r.error)
    && not (any (is_confirmation r.id) db.events)

unfoldable pub unresolved_remote : String → Db → Option RunRow
unfolding is_unresolved_remote
unresolved_remote task_id db = first_where (is_unresolved_remote task_id db) db.runs

abbrev pub no_remote : Bool → String → Option RunRow → Action (Unit {0})
no_remote true task_id found = pure tt
no_remote false task_id none = pure tt
no_remote false task_id (some r) = check false (unconfirmed_remote task_id r.id)

pub retry_blocked_task : String → Option String → Bool → String → ℕ → Action MessageRow
retry_blocked_task task_id note allow_unconfirmed_remote message_id updated_at =
    let body = get_or (clean_note note) "Operator requested another execution attempt." in
    let message = system_message message_id task_id none "operator" body updated_at in
    transaction do
      found ← gets (find_task task_id)
      task ← required found (task_not_found task_id)
      check (same_task_status task.status TaskStatus.blocked) (task_not_blocked task_id)
      unresolved ← gets (unresolved_remote task_id)
      no_remote allow_unconfirmed_remote task_id unresolved
      insert_message message
      update_steps (λ s. s.task_id == task_id && same_step_status s.status RouteStepStatus.failed)
          (reset_step updated_at)
      changes ←
          update_tasks (has_status task_id TaskStatus.blocked)
            (released TaskStatus.queued body updated_at)
      check (eqb changes 1) (task_changed task_id)
      pure message
