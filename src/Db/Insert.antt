-- ===== src/Db/Insert.antt =====
-- INSERT into the tables of src/db.ts, with the PRIMARY KEY and REFERENCES clauses of its schema
-- (`PRAGMA foreign_keys = ON`). The columns that a statement leaves out are NULL.
use agent_control_center_cor.Base.{
  ℕ, suc, String, Bool, true, not, ◌&&◌, Option, none, some, [], ◌∷◌, ◌++◌, ok, err, any, ◌==◌, eqb,
  if◌then◌else◌,
}
use agent_control_center_cor.Json.{Json}
use agent_control_center_cor.Db.State.{
  Db, TaskRow, RouteStepRow, RunRow, EventRow, EventLevel, MessageRow, ReviewRow, constraint,
}
use agent_control_center_cor.Db.Action.{Action}

unfoldable pub has_task : String → Db → Bool
has_task id db = any (λ (t : TaskRow). t.id == id) db.tasks

unfoldable pub has_step : String → Db → Bool
has_step id db = any (λ (s : RouteStepRow). s.id == id) db.steps

unfoldable pub has_run : String → Db → Bool
has_run id db = any (λ (r : RunRow). r.id == id) db.runs

-- A nullable REFERENCES runs(id)
unfoldable pub has_run_or_null : Option String → Db → Bool
unfolding has_run
has_run_or_null none db = true
has_run_or_null (some id) db = has_run id db

unfoldable pub insert_task : TaskRow → Action (Unit {0})
insert_task row db =
    if has_task row.id db
    then (err constraint, db)
    else (ok tt, record db { tasks = db.tasks ++ row ∷ [] })

unfoldable pub insert_step : RouteStepRow → Action (Unit {0})
insert_step row db =
    if not (has_step row.id db) && has_task row.task_id db
    then (ok tt, record db { steps = db.steps ++ row ∷ [] })
    else (err constraint, db)

-- The row's id is the next of AUTOINCREMENT, which is also `lastID`.
unfoldable pub insert_event :
    String → Option String → String → EventLevel → String → Option Json → ℕ → Action ℕ
insert_event task_id run_id type level message data_json created_at db =
    let row : EventRow = record {
      id = db.next_event;
      task_id = task_id;
      run_id = run_id;
      type = type;
      level = level;
      message = message;
      data_json = data_json;
      created_at = created_at;
    } in
    if has_task task_id db && has_run_or_null run_id db
    then (
      ok db.next_event,
      record db { events = db.events ++ row ∷ []; next_event = suc db.next_event },
    )
    else (err constraint, db)

unfoldable pub insert_message : MessageRow → Action (Unit {0})
insert_message row db =
    if not (any (λ (m : MessageRow). m.id == row.id) db.messages)
      && has_task row.task_id db
      && has_run_or_null row.run_id db
    then (ok tt, record db { messages = db.messages ++ row ∷ [] })
    else (err constraint, db)

unfoldable pub insert_review : ReviewRow → Action (Unit {0})
insert_review row db =
    if not (any (λ (r : ReviewRow). r.id == row.id) db.reviews)
      && has_task row.task_id db
      && has_run_or_null row.run_id db
    then (ok tt, record db { reviews = db.reviews ++ row ∷ [] })
    else (err constraint, db)

-- Of `runs` also UNIQUE(route_step_id, attempt).
unfoldable pub same_attempt : RunRow → RunRow → Bool
same_attempt row r = r.route_step_id == row.route_step_id && eqb r.attempt row.attempt

unfoldable pub insert_run : RunRow → Action (Unit {0})
unfolding same_attempt
insert_run row db =
    if not (has_run row.id db)
      && not (any (same_attempt row) db.runs)
      && has_task row.task_id db
      && has_step row.route_step_id db
    then (ok tt, record db { runs = db.runs ++ row ∷ [] })
    else (err constraint, db)
