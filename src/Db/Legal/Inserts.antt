-- ===== src/Db/Legal/Inserts.antt =====
-- The INSERT statements.
use agent_control_center_cor.Base.{ℕ, String, Option, arith}
use agent_control_center_cor.Json.{Json}
use agent_control_center_cor.Db.State.{
  TaskRow, RouteStepRow, RunRow, EventLevel, MessageRow, ReviewRow,
}
use agent_control_center_cor.Db.Insert.{
  insert_task, insert_step, insert_event, insert_message, insert_review, insert_run,
}
use agent_control_center_cor.Db.Legal.Rows.{
  Evolves-append, TaskStep, IsNewTask, RunStep, IsNewRun, TaskStep-refl, RunStep-refl, tasks_refl,
  runs_refl,
}
use agent_control_center_cor.Db.Legal.Rules.{Quiet, Moves}

pub Quiet-insert_step : (row : RouteStepRow) → Quiet (insert_step row)
unfolding insert_step
Quiet-insert_step row = record { tasks = λ db. ground arith; runs = λ db. ground arith }

pub Quiet-insert_event :
    (task_id : String) (run_id : Option String) (type : String) (level : EventLevel)
    (message : String) (data_json : Option Json) (created_at : ℕ)
    → Quiet (insert_event task_id run_id type level message data_json created_at)
unfolding insert_event
Quiet-insert_event task_id run_id type level message data_json created_at = record {
  tasks = λ db. ground arith;
  runs = λ db. ground arith;
}

pub Quiet-insert_message : (row : MessageRow) → Quiet (insert_message row)
unfolding insert_message
Quiet-insert_message row = record { tasks = λ db. ground arith; runs = λ db. ground arith }

pub Quiet-insert_review : (row : ReviewRow) → Quiet (insert_review row)
unfolding insert_review
Quiet-insert_review row = record { tasks = λ db. ground arith; runs = λ db. ground arith }

pub Moves-insert_task : (row : TaskRow) → IsNewTask row → Moves (insert_task row)
unfolding insert_task
Moves-insert_task row new = record {
  at = λ db.
      let same = tasks_refl db.tasks in
      let added = Evolves-append TaskStep IsNewTask TaskStep-refl db.tasks row new in
      record { tasks = ground (arith, same, added); runs = ground (arith, runs_refl db.runs) };
}

pub Moves-insert_run : (row : RunRow) → IsNewRun row → Moves (insert_run row)
unfolding insert_run
Moves-insert_run row new = record {
  at = λ db.
      let same = runs_refl db.runs in
      let added = Evolves-append RunStep IsNewRun RunStep-refl db.runs row new in
      record { tasks = ground (arith, tasks_refl db.tasks); runs = ground (arith, same, added) };
}
