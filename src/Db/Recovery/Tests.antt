-- ===== src/Db/Recovery/Tests.antt =====
-- The recovery of a small database.
use agent_control_center_cor.Base.{ok, some, none, [], ◌∷◌, ◌≡◌, refl}
use agent_control_center_cor.Base.Decimal.{decimal}
use agent_control_center_cor.Db.State.{Db, RunRow}
use agent_control_center_cor.Protocol.{AgentKind, RouteRole, RunStatus}
use agent_control_center_cor.Db.Samples.{one_running}
use agent_control_center_cor.Db.Action.{◌>>=◌, transaction}
use agent_control_center_cor.Db.Recovery.{
  StaleRecoveryResult, expired_before, recover_running_tasks, recover_tasks, recover_task,
  recover_runs, recover_run, lost_tasks, active_runs, no_result,
}
use agent_control_center_cor.Db.Recovery.Recovers.{Recovers, recover_running_tasks-Recovers}

abbrev lost_one : RunRow
lost_one = record {
  id = "run-1";
  task_id = "task-1";
  route_step_id = "step-1";
  adapter_run_id = none;
  agent = AgentKind.claude;
  role = RouteRole.execute;
  attempt = 1;
  status = RunStatus.running;
  pid = none;
  worktree_path = none;
  branch = none;
  base_commit = none;
  stdout_path = none;
  stderr_path = none;
  result_path = none;
  exit_code = none;
  signal = none;
  summary = none;
  error = none;
  usage_json = none;
  started_at = some 3;
  finished_at = none;
  created_at = 2;
  updated_at = 3;
}

-- a running task with a running run
abbrev one_lost : Db
one_lost = record one_running { runs = lost_one ∷ [] }

abbrev recovered : Db
recovered = (recover_running_tasks decimal (expired_before 9) "worker-2" 10 one_lost).1

abbrev result : StaleRecoveryResult
result = record no_result { task_ids = "task-1" ∷ []; stale_run_ids = "run-1" ∷ [] }

recovers :
    recover_running_tasks decimal (expired_before 9) "worker-2" 10 one_lost ≡ (ok result, recovered)
unfolding recover_running_tasks ◌>>=◌ transaction lost_tasks active_runs recover_tasks recover_task
    recover_runs recover_run agent_control_center_cor.Base.Text.trim
    agent_control_center_cor.Base.order_by agent_control_center_cor.Base.select_where
    agent_control_center_cor.Base.insert_before agent_control_center_cor.Base.count_where
    agent_control_center_cor.Db.Insert.insert_event agent_control_center_cor.Db.Insert.has_task
    agent_control_center_cor.Base.any agent_control_center_cor.Base.update_where
    agent_control_center_cor.Db.Insert.has_run_or_null
    agent_control_center_cor.Db.Recovery.open_verifier agent_control_center_cor.Base.order_first
recovers = refl

recover_running_tasks-Recovers_example : Recovers (expired_before 9) one_lost recovered
recover_running_tasks-Recovers_example =
    recover_running_tasks-Recovers decimal (expired_before 9) "worker-2" 10 one_lost recovered
      result recovers
