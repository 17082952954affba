-- ===== src/Db/Calls/Tests.antt =====
-- The theorems on whole databases, at small ones.
use agent_control_center_cor.Base.{none, some, false, List, [], ◌∷◌, All}
use agent_control_center_cor.Base.Decimal.{decimal}
use agent_control_center_cor.Protocol.{
  TaskPayload, RoutePlan, AgentSelection, Priority, RouteMode, Risk,
}
use agent_control_center_cor.Db.Legal.{IsLegal, IsOwned}
use agent_control_center_cor.Db.Samples.{two_queued}
use agent_control_center_cor.Db.Calls.{
  Call, create_task, recover_tasks_owned_by, claim_next_task, perform, perform_all, empty_db,
  perform-IsLegal, reachable-IsOwned,
}

perform-IsLegal_example : IsLegal two_queued (perform (claim_next_task "worker-1" 9) two_queued)
perform-IsLegal_example = perform-IsLegal (claim_next_task "worker-1" 9) two_queued

abbrev payload : TaskPayload
payload = record {
  id = some "task-1";
  goal = "Fix the build";
  repo = "/repo";
  base_ref = "main";
  agent = AgentSelection.auto;
  priority = Priority.normal;
  context = none;
  success_criteria = [];
  verification_command = none;
  handoff_required = false;
}

abbrev plan : RoutePlan
plan = record { mode = RouteMode.single; risk = Risk.normal; reasons = []; steps = [] }

-- A task is created and claimed, its worker is lost, and the task is recovered.
abbrev calls : List Call
calls =
    create_task payload plan "" 1
    ∷ claim_next_task "worker-1" 9
    ∷ recover_tasks_owned_by decimal "worker-1" "worker-2" 20
    ∷ []

reachable-IsOwned_example : All IsOwned (perform_all calls empty_db).tasks
reachable-IsOwned_example = reachable-IsOwned calls
