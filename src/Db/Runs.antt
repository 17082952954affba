-- ===== src/Db/Runs.antt =====
-- src/db.ts: updateRouteStep, resetRouteSteps, createRun, updateRun.
pub mod Legal
use agent_control_center_cor.Base.{
  ℕ, ◌+◌, String, Bool, true, false, ◌&&◌, Option, none, some, List, [], ◌∷◌, Result, ok, err, max,
  eqb, ◌==◌, get_or, if◌then◌else◌, first_where,
}
use agent_control_center_cor.Protocol.{
  AgentKind, RouteRole, RunStatus, TransitionError, same_run_status, assert_run_transition,
}
use agent_control_center_cor.Db.State.{
  Db, DbError, RouteStepRow, RouteStepStatus, RunRow, transition, step_not_found, step_changed,
  run_not_found, run_changed, run_disappeared,
}
use agent_control_center_cor.Db.Action.{
  Action, ◌>>=◌, ◌>>◌, pure, gets, required, check, lift, update_steps, update_runs,
}
use agent_control_center_cor.Db.Insert.{insert_run}

abbrev pub same_step_status : RouteStepStatus → RouteStepStatus → Bool
same_step_status RouteStepStatus.pending RouteStepStatus.pending = true
same_step_status RouteStepStatus.running RouteStepStatus.running = true
same_step_status RouteStepStatus.succeeded RouteStepStatus.succeeded = true
same_step_status RouteStepStatus.failed RouteStepStatus.failed = true
same_step_status RouteStepStatus.skipped RouteStepStatus.skipped = true
same_step_status _ _ = false

-- `a IS b` on nullable texts
abbrev pub is_same : Option String → Option String → Bool
is_same none none = true
is_same (some a) (some b) = a == b
is_same _ _ = false

-- `null` sets NULL, and a field that is left out keeps what was there.
pub data Patch (A : Type 0) : Type 0 where
  keep : Patch A
  set : A → Patch A

abbrev pub patched : {A : Type 0} → Patch A → A → A
patched keep a = a
patched (set b) a = b

-- `updateRouteStep`; `seen` is the database that its SELECT reads.
unfoldable pub update_route_step :
    Db → String → Patch RouteStepStatus → Patch (Option String) → ℕ → Action (Unit {0})
update_route_step seen step_id status run_id updated_at = do
  row ←
      required (first_where (λ (s : RouteStepRow). s.id == step_id) seen.steps)
        (step_not_found step_id)
  changes ←
      update_steps
        (λ s.
          s.id == step_id && same_step_status s.status row.status && is_same s.run_id row.run_id)
        (λ s. record s {
          status = patched status row.status;
          run_id = patched run_id row.run_id;
          updated_at = updated_at;
        })
  check (eqb changes 1) (step_changed step_id)

-- UPDATE route_steps SET status = 'pending', run_id = NULL
abbrev pub reset_step : ℕ → RouteStepRow → RouteStepRow
reset_step updated_at s = record s {
  status = RouteStepStatus.pending;
  run_id = none;
  updated_at = updated_at;
}

pub reset_route_steps : String → ℕ → Action ℕ
reset_route_steps task_id updated_at =
    update_steps (λ s. s.task_id == task_id) (reset_step updated_at)

-- COALESCE(MAX(attempt), 0) over the runs of one route step
unfoldable pub last_attempt : String → List RunRow → ℕ
last_attempt step_id [] = 0
last_attempt step_id (r ∷ rs) =
    let rest = last_attempt step_id rs in
    if r.route_step_id == step_id then max r.attempt rest else rest

pub record CreateRunInput : Type 0 where
  pub task_id : String
  pub route_step_id : String
  pub agent : AgentKind
  pub role : RouteRole
  pub worktree_path : Option String
  pub branch : Option String
  pub base_commit : Option String

abbrev pub new_run_row : CreateRunInput → String → ℕ → ℕ → RunRow
new_run_row input id attempt created_at = record {
  id = id;
  task_id = input.task_id;
  route_step_id = input.route_step_id;
  adapter_run_id = none;
  agent = input.agent;
  role = input.role;
  attempt = attempt;
  status = RunStatus.queued;
  pid = none;
  worktree_path = input.worktree_path;
  branch = input.branch;
  base_commit = input.base_commit;
  stdout_path = none;
  stderr_path = none;
  result_path = none;
  exit_code = none;
  signal = none;
  summary = none;
  error = none;
  usage_json = none;
  started_at = none;
  finished_at = none;
  created_at = created_at;
  updated_at = created_at;
}

abbrev pub find_run : String → Db → Option RunRow
find_run id db = first_where (λ (r : RunRow). r.id == id) db.runs

-- `createRun`; `id` is `run_${randomUUID()}`, and `seen` the database that its first SELECT reads.
unfoldable pub create_run : Db → CreateRunInput → String → ℕ → Action RunRow
create_run seen input id created_at = do
  insert_run (new_run_row input id (last_attempt input.route_step_id seen.runs + 1) created_at)
  row ← gets (find_run id)
  required row (run_disappeared id)

pub record UpdateRunPatch : Type 0 where
  pub status : Option RunStatus
  pub adapter_run_id : Patch (Option String)
  pub pid : Patch (Option ℕ)
  pub worktree_path : Patch (Option String)
  pub branch : Patch (Option String)
  pub base_commit : Patch (Option String)
  pub stdout_path : Patch (Option String)
  pub stderr_path : Patch (Option String)
  pub result_path : Patch (Option String)
  pub exit_code : Patch (Option ℕ)
  pub signal : Patch (Option String)
  pub summary : Patch (Option String)
  pub error : Patch (Option String)
  pub usage_json : Patch (Option String)
  pub started_at : Patch (Option ℕ)
  pub finished_at : Patch (Option ℕ)

-- What the UPDATE writes to a row: the values of `next`, which stem from the row `current`.
abbrev pub run_update : RunRow → UpdateRunPatch → ℕ → RunRow → RunRow
run_update current patch updated_at r = record r {
  adapter_run_id = patched patch.adapter_run_id current.adapter_run_id;
  status = get_or patch.status current.status;
  pid = patched patch.pid current.pid;
  worktree_path = patched patch.worktree_path current.worktree_path;
  branch = patched patch.branch current.branch;
  base_commit = patched patch.base_commit current.base_commit;
  stdout_path = patched patch.stdout_path current.stdout_path;
  stderr_path = patched patch.stderr_path current.stderr_path;
  result_path = patched patch.result_path current.result_path;
  exit_code = patched patch.exit_code current.exit_code;
  signal = patched patch.signal current.signal;
  summary = patched patch.summary current.summary;
  error = patched patch.error current.error;
  usage_json = patched patch.usage_json current.usage_json;
  started_at = patched patch.started_at current.started_at;
  finished_at = patched patch.finished_at current.finished_at;
  updated_at = updated_at;
}

abbrev pub run_transition : RunStatus → Option RunStatus → Result DbError (Unit {0})
run_transition current none = ok tt
run_transition current (some next) = elim (assert_run_transition current next) [
  | ok _ ↦ ok tt
  | err e ↦ err (transition e)
]

-- `updateRun`; `seen` is the database that its first SELECT reads.
unfoldable pub update_run : Db → String → UpdateRunPatch → ℕ → Action RunRow
update_run seen run_id patch updated_at = do
  current ← required (find_run run_id seen) (run_not_found run_id)
  lift (run_transition current.status patch.status)
  changes ←
      update_runs (λ r. r.id == run_id && same_run_status r.status current.status)
        (run_update current patch updated_at)
  check (eqb changes 1) (run_changed run_id)
  row ← gets (find_run run_id)
  required row (run_disappeared run_id)
