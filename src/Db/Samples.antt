-- ===== src/Db/Samples.antt =====
-- Small databases for the tests.
use agent_control_center_cor.Base.{ℕ, String, Option, none, some, List, [], ◌∷◌, true, false}
use agent_control_center_cor.Protocol.{
  AgentSelection, AgentKind, Priority, RouteMode, RouteRole, Risk, TaskStatus,
}
use agent_control_center_cor.Db.State.{
  Db, TaskRow, RouteStepRow, RouteStepStatus, ReviewRow, ReviewStatus,
}

abbrev pub sample_task : String → Priority → TaskStatus → Option String → Option ℕ → ℕ → TaskRow
sample_task id priority status claimed_by claimed_at created_at = record {
  id = id;
  goal = "Fix the build";
  repo = "/repo";
  base_ref = "main";
  requested_agent = AgentSelection.auto;
  priority = priority;
  context = none;
  success_criteria = [];
  verification_command = none;
  handoff_required = false;
  status = status;
  route_mode = RouteMode.single;
  route_risk = Risk.normal;
  route_reasons = [];
  latest_update = "";
  claimed_by = claimed_by;
  claimed_at = claimed_at;
  created_at = created_at;
  updated_at = created_at;
}

abbrev pub sample_step : String → String → RouteStepStatus → RouteStepRow
sample_step id task_id status = record {
  id = id;
  task_id = task_id;
  sequence_no = 1;
  agent = AgentKind.codex;
  role = RouteRole.execute;
  required = true;
  reason = "";
  status = status;
  run_id = none;
  created_at = 1;
  updated_at = 1;
}

abbrev pub sample_review : String → String → ReviewStatus → ReviewRow
sample_review id task_id status = record {
  id = id;
  task_id = task_id;
  run_id = none;
  reviewer = none;
  status = status;
  note = none;
  created_at = 2;
  updated_at = 2;
}

abbrev pub sample_db : List TaskRow → List RouteStepRow → List ReviewRow → Db
sample_db tasks steps reviews = record {
  tasks = tasks;
  steps = steps;
  runs = [];
  events = [];
  next_event = 1;
  artifacts = [];
  messages = [];
  reviews = reviews;
  keys = [];
}

-- Two queued tasks, the urgent one the younger.
abbrev pub two_queued : Db
two_queued =
    sample_db
      (sample_task "task-1" Priority.normal TaskStatus.queued none none 1
        ∷ sample_task "task-2" Priority.urgent TaskStatus.queued none none 5
        ∷ [])
      [] []

-- One task that waits for its reviewer.
abbrev pub one_waiting : Db
one_waiting =
    sample_db (sample_task "task-1" Priority.normal TaskStatus.needs_review none none 1 ∷ [])
      (sample_step "step-1" "task-1" RouteStepStatus.succeeded ∷ [])
      (sample_review "review-1" "task-1" ReviewStatus.pending ∷ [])

abbrev pub one_blocked : Db
one_blocked =
    sample_db (sample_task "task-1" Priority.normal TaskStatus.blocked none none 1 ∷ [])
      (sample_step "step-1" "task-1" RouteStepStatus.failed ∷ []) []

abbrev pub one_running : Db
one_running =
    sample_db
      (sample_task "task-1" Priority.normal TaskStatus.running (some "worker-1") (some 3) 1 ∷ []) []
      []
