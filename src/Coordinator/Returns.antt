-- ===== src/Coordinator/Returns.antt =====
-- The writes that end the execution of a task leave it in a status other than running.
use agent_control_center_cor.Base.{
  ℕ, String, Bool, true, false, ◌&&◌, Option, some, Result, ok, err, ◌==◌, ◌≡◌, ◌≢◌, refl, sym, ap,
  ◌∙◌, arith, update_where, first_where, if◌then◌else◌,
}
use agent_control_center_cor.Base.Lookup.{set_if, first_where-update_where, first_where-meets, ap2}
use agent_control_center_cor.Protocol.{TaskStatus, same_task_status}
use agent_control_center_cor.Db.State.{Db, DbError, TaskRow, ReviewRow}
use agent_control_center_cor.Db.Action.{Action, check}
use agent_control_center_cor.Db.Action.Returns.{
  transaction-ok, check-ok, required-ok, lift-ok, bind-ok, pure-ok, gets-ok, update_tasks-ok,
}
use agent_control_center_cor.Db.Tasks.{find_task, is_running, status_update, update_task_status}
use agent_control_center_cor.Db.Reviews.{
  Outcome, outcome_status, released, has_status, request_review, finalize_task_execution,
}
use agent_control_center_cor.Db.Reviews.Legal.{Quiet-request_review}
use agent_control_center_cor.Db.Reviews.Decisions.{find_task-released}
use agent_control_center_cor.Coordinator.{Worker, job_db, message_of_result}

-- The task, where it is there, is not running.
abbrev pub IsSettled : String → Db → Type 0
IsSettled task_id db =
    (row : TaskRow) → find_task task_id db ≡ some row → is_running row.status ≡ false

same_task_status_refl : (s : TaskStatus) → same_task_status s s ≡ true
same_task_status_refl TaskStatus.queued = refl
same_task_status_refl TaskStatus.running = refl
same_task_status_refl TaskStatus.needs_review = refl
same_task_status_refl TaskStatus.blocked = refl
same_task_status_refl TaskStatus.done = refl

find_task-status_update :
    (task_id : String) (status : TaskStatus) (update : String) (now : ℕ) (db : Db) (row : TaskRow)
    → find_task task_id db ≡ some row
    → find_task task_id (record db {
      tasks =
          update_where
            (λ t. t.id == task_id && same_task_status t.status row.status)
            (status_update status update now)
            db.tasks;
    })
      ≡ some (status_update status update now row)
find_task-status_update task_id status update now db row found =
    let written = λ (t : TaskRow). t.id == task_id && same_task_status t.status row.status in
    let same_id = first_where-meets (λ (t : TaskRow). t.id == task_id) db.tasks row found in
    let is_written : written row ≡ true = rw (same_id, same_task_status_refl row.status) refl in
    first_where-update_where (λ (t : TaskRow). t.id == task_id) written
      (status_update status update now) db.tasks (λ t. refl)
    ∙ (ap (set_if written (status_update status update now)) found
        ∙ ap (λ b. some (if b then status_update status update now row else row)) is_written)

check-keeps :
    (c : Bool) (e : DbError) (db after : Db) (u : Unit {0})
    → check c e db ≡ (ok u, after)
    → db ≡ after
unfolding check
check-keeps true e db after u h = ap (λ x. x.1) h
check-keeps false e db after u h = cc

same_in_some : (row other : TaskRow) → some row ≡ some other → row ≡ other
same_in_some row other h = cc

settles :
    (task_id : String) (db after : Db) (row : TaskRow)
    → find_task task_id db ≡ some row
    → is_running row.status ≡ false
    → db ≡ after
    → IsSettled task_id after
settles task_id db after row found ended same other k =
    let same_row : some row ≡ some other = sym found ∙ (ap (find_task task_id) same ∙ k) in
    ap (λ (t : TaskRow). is_running t.status) (sym (same_in_some row other same_row)) ∙ ended

pub update_task_status-IsSettled :
    (task_id update : String) (status : TaskStatus) (now : ℕ) (db after : Db) (u : Unit {0})
    → is_running status ≡ false
    → update_task_status db task_id status update now db ≡ (ok u, after)
    → IsSettled task_id after
unfolding update_task_status
update_task_status-IsSettled task_id update status now db after u ended h =
    let (row, (found, h1)) = required-ok _ _ _ h in
    let (_, (_, h2)) = lift-ok _ _ h1 in
    let h3 = update_tasks-ok db _ _ _ h2 in
    settles task_id _ after (status_update status update now row)
      (find_task-status_update task_id status update now db row found) ended
      (check-keeps _ _ _ after u h3)

request_review-tasks :
    (outcome : Outcome) (review : ReviewRow) (db after : Db) (r : Option ReviewRow)
    → request_review outcome review db ≡ (ok r, after)
    → after.tasks ≡ db.tasks
request_review-tasks outcome review db after r h =
    ap (λ x. x.1.tasks) (sym h) ∙ (Quiet-request_review outcome review).tasks db

is_running-outcome : (outcome : Outcome) → is_running (outcome_status outcome) ≡ false
is_running-outcome Outcome.done = refl
is_running-outcome Outcome.needs_review = refl

was_running :
    (s : TaskStatus) → same_task_status s TaskStatus.running ≡ true → s ≡ TaskStatus.running
was_running s h = ground arith

pub finalize_task_execution-IsSettled :
    (task_id update id : String) (outcome : Outcome) (run_id : Option String) (now : ℕ)
    (db after : Db) (review : Option ReviewRow)
    → finalize_task_execution task_id outcome update run_id id now db ≡ (ok review, after)
    → IsSettled task_id after
unfolding finalize_task_execution
finalize_task_execution-IsSettled task_id update id outcome run_id now db after review h =
    let (task, (found, h1)) = required-ok _ _ _ (gets-ok _ _ (transaction-ok _ h)) in
    let (running, h2) = check-ok _ _ _ h1 in
    let (asked, (db', (reviewed, h3))) = bind-ok _ _ h2 in
    let same_tasks = request_review-tasks outcome _ db db' asked reviewed in
    let (_, h4) = check-ok _ _ _ (update_tasks-ok db' _ _ _ h3) in
    let (_, last) = pure-ok _ h4 in
    settles task_id _ after (released (outcome_status outcome) update now task)
      (ap
          (λ tasks.
            first_where (λ (t : TaskRow). t.id == task_id)
              (update_where (has_status task_id TaskStatus.running)
                (released (outcome_status outcome) update now) tasks))
          same_tasks
        ∙ find_task-released task_id TaskStatus.running (outcome_status outcome) update now db.tasks
            task found (was_running task.status running))
      (is_running-outcome outcome) last

pub job_db-returns :
    {A : Type 0} (message_of : DbError → String) (method : Db → Action A) (x after : Worker) (a : A)
    → job_db message_of method x ≡ (ok a, after)
    → method x.db x.db ≡ (ok a, after.db)
unfolding job_db
job_db-returns {A} message_of method x after a h =
    returned (method x.db x.db).0 (method x.db x.db).1 refl h
  where
    ok_value : (b c : A) → ◌≡◌ {A = Result String A} (ok b) (ok c) → b ≡ c
    ok_value b c n = cc

    returned :
        (r : Result DbError A) (db : Db)
        → method x.db x.db ≡ (r, db)
        → ◌≡◌ {A = Result String A × Worker}
            (message_of_result message_of r, record x { db = db })
            (ok a, after)
        → method x.db x.db ≡ (ok a, after.db)
    returned (ok b) db e k =
        e ∙ ap2 (λ v d. (ok v, d)) (ok_value b a (ap (λ p. p.0) k)) (ap (λ p. p.1.db) k)
    returned (err e) db same k = absurd (never (ap (λ p. p.0) k))
      where
        never : ◌≢◌ {A = Result String A} (err (message_of e)) (ok a)
        never n = cc
