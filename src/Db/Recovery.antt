-- ===== src/Db/Recovery.antt =====
-- src/db.ts: recoverStaleTasks, recoverTasksOwnedBy and the transaction that both run.
pub mod Legal
pub mod Closes
mod Rows
mod Steps
pub mod Recovers
mod Tests
use agent_control_center_cor.Base.{
  ℕ, String, Bool, true, false, not, ◌&&◌, ◌||◌, Option, none, some, List, [], ◌∷◌, ◌++◌, ltb, eqb,
  ◌==◌, get_or, if◌then◌else◌, any, order_first, order_by, select_where,
}
use agent_control_center_cor.Base.Text.{trim, text_before}
use agent_control_center_cor.Base.Decimal.{concat}
use agent_control_center_cor.Json.{
  Json, Fields, null, str, obj, field, end, get_field, safe_integer,
}
use agent_control_center_cor.Protocol.{
  AgentKind, RunStatus, TaskStatus, same_run_status, same_task_status,
}
use agent_control_center_cor.Db.State.{
  Db, TaskRow, RouteStepRow, RouteStepStatus, RunRow, EventRow, EventLevel, worker_required,
  bad_cutoff, run_changed_in_recovery, task_changed_in_recovery,
}
use agent_control_center_cor.Db.Action.{
  Action, ◌>>=◌, ◌>>◌, pure, throw, gets, check, update_tasks, update_steps, update_runs,
  transaction,
}
use agent_control_center_cor.Db.Insert.{insert_event}
use agent_control_center_cor.Db.Runs.{is_same, same_step_status}
use agent_control_center_cor.Db.Reviews.{is_openclaw}

-- `{ cutoff, claimedBy }`, of which the callers set exactly one.
pub data Lost : Type 0 where
  expired_before : ℕ → Lost
  owned_by : String → Lost

pub data ProcessAgent : Type 0 where
  codex claude verifier : ProcessAgent

pub record ProcessCandidate : Type 0 where
  pub task_id : String
  pub run_id : String
  pub pid : ℕ
  pub agent : ProcessAgent

pub record RemoteCandidate : Type 0 where
  pub task_id : String
  pub run_id : String
  pub remote_id : String

pub record StaleRecoveryResult : Type 0 where
  pub task_ids : List String
  pub stale_run_ids : List String
  pub failed_run_ids : List String
  pub process_candidates : List ProcessCandidate
  pub remote_candidates : List RemoteCandidate

abbrev pub no_result : StaleRecoveryResult
no_result = record {
  task_ids = [];
  stale_run_ids = [];
  failed_run_ids = [];
  process_candidates = [];
  remote_candidates = [];
}

-- `iso` stands for the text of an instant in the messages.
module _ (iso : ℕ → String) where
  abbrev pub description : Lost → String
  description (owned_by worker) = concat ("Previous worker " ∷ worker ∷ " is no longer alive." ∷ [])
  description (expired_before cutoff) =
      concat ("Worker heartbeat expired before " ∷ iso cutoff ∷ "." ∷ [])

-- claimed_at IS NOT NULL AND claimed_at < ?
abbrev pub claimed_before : ℕ → Option ℕ → Bool
claimed_before cutoff none = false
claimed_before cutoff (some at) = ltb at cutoff

abbrev pub is_lost : Lost → TaskRow → Bool
is_lost (owned_by worker) t =
    same_task_status t.status TaskStatus.running && is_same t.claimed_by (some worker)
is_lost (expired_before cutoff) t =
    same_task_status t.status TaskStatus.running && claimed_before cutoff t.claimed_at

-- ORDER BY of a nullable instant: NULL comes first.
abbrev null_first : Option ℕ → Option ℕ → Bool
null_first none none = false
null_first none (some b) = true
null_first (some a) none = false
null_first (some a) (some b) = ltb a b

-- `a IS b` on nullable instants
abbrev pub is_same_time : Option ℕ → Option ℕ → Bool
is_same_time none none = true
is_same_time (some a) (some b) = eqb a b
is_same_time _ _ = false

unfoldable pub lost_tasks : Lost → Db → List TaskRow
lost_tasks lost db =
    order_by
      (λ a b.
        null_first a.claimed_at b.claimed_at
        || (is_same_time a.claimed_at b.claimed_at && text_before a.id b.id))
      (select_where (is_lost lost) db.tasks)

abbrev pub is_active : RunStatus → Bool
is_active RunStatus.starting = true
is_active RunStatus.running = true
is_active _ = false

unfoldable pub active_runs : String → Db → List RunRow
active_runs task_id db =
    order_by
      (λ a b.
        ltb a.created_at b.created_at || (eqb a.created_at b.created_at && text_before a.id b.id))
      (select_where (λ (r : RunRow). r.task_id == task_id && is_active r.status) db.runs)

abbrev is_verifier_end : EventRow → EventRow → Bool
is_verifier_end started e =
    is_same e.run_id started.run_id
    && ltb started.id e.id
    && (e.type == "verification.succeeded" || e.type == "verification.failed")

-- the last start of a verifier that no later event of the run ends
unfoldable pub open_verifier : String → Db → Option EventRow
open_verifier run_id db =
    order_first (λ a b. ltb b.id a.id)
      (select_where
        (λ (e : EventRow).
          is_same e.run_id (some run_id)
          && e.type == "verification.process_started"
          && not (any (is_verifier_end e) db.events))
        db.events)

abbrev pid_of : Option Json → Option ℕ
pid_of none = none
pid_of (some (obj fields)) = elim (get_field "pid" fields) [
  | none ↦ none
  | some value ↦ safe_integer value
]
pid_of (some other) = none

abbrev usable_pid : Option ℕ → Option ℕ
usable_pid none = none
usable_pid (some pid) = if ltb 1 pid then some pid else none

abbrev verifier_pid : Option EventRow → Option ℕ
verifier_pid none = none
verifier_pid (some e) = usable_pid (pid_of e.data_json)

abbrev local_agent : AgentKind → Option ProcessAgent
local_agent AgentKind.codex = some codex
local_agent AgentKind.claude = some claude
local_agent AgentKind.openclaw = none

abbrev candidate : RunRow → ℕ → ProcessAgent → ProcessCandidate
candidate run pid agent = record {
  task_id = run.task_id;
  run_id = run.id;
  pid = pid;
  agent = agent;
}

abbrev own_process : RunRow → Option ℕ → Option ProcessAgent → List ProcessCandidate
own_process run (some pid) (some agent) = candidate run pid agent ∷ []
own_process run _ _ = []

abbrev processes : RunRow → Option ℕ → List ProcessCandidate
processes run (some pid) = candidate run pid verifier ∷ []
processes run none = own_process run run.pid (local_agent run.agent)

abbrev remotes : RunRow → List RemoteCandidate
remotes run =
    if is_openclaw run.agent
    then record {
      task_id = run.task_id;
      run_id = run.id;
      remote_id = get_or run.adapter_run_id run.id;
    }
      ∷ []
    else []

abbrev pub lost_status : RunStatus → RunStatus
lost_status RunStatus.running = RunStatus.stale
lost_status _ = RunStatus.failed

-- CASE WHEN error IS NULL OR error = '' THEN ? ELSE error || char(10) || ? END
abbrev with_error : Option String → String → String
with_error none error = error
with_error (some old) error = if old == "" then error else concat (old ∷ "\n" ∷ error ∷ [])

abbrev pub lost_run : RunStatus → String → ℕ → RunRow → RunRow
lost_run next error recovered_at r = record r {
  status = next;
  error = some (with_error r.error error);
  finished_at = some (get_or r.finished_at recovered_at);
  updated_at = recovered_at;
}

abbrev pub add_run : Db → RunRow → RunStatus → StaleRecoveryResult → StaleRecoveryResult
add_run db run RunStatus.stale result = record result {
  stale_run_ids = result.stale_run_ids ++ run.id ∷ [];
  process_candidates =
      result.process_candidates ++ processes run (verifier_pid (open_verifier run.id db));
  remote_candidates = result.remote_candidates ++ remotes run;
}
add_run db run _ result = record result {
  failed_run_ids = result.failed_run_ids ++ run.id ∷ [];
  process_candidates =
      result.process_candidates ++ processes run (verifier_pid (open_verifier run.id db));
  remote_candidates = result.remote_candidates ++ remotes run;
}

abbrev active_name : RunStatus → String
active_name RunStatus.running = "running"
active_name _ = "starting"

abbrev text_or_null : Option String → Json
text_or_null none = null
text_or_null (some s) = str s

abbrev time_or_null : (ℕ → String) → Option ℕ → Json
time_or_null iso none = null
time_or_null iso (some at) = str (iso at)

-- `{ recoveredBy, cutoff }` or `{ recoveredBy, deadOwner }`
abbrev recovery_fields : (ℕ → String) → Lost → String → Fields
recovery_fields iso (owned_by worker) recovered_by =
    field "recoveredBy" (str recovered_by) (field "deadOwner" (str worker) end)
recovery_fields iso (expired_before cutoff) recovered_by =
    field "recoveredBy" (str recovered_by) (field "cutoff" (str (iso cutoff)) end)

module _ (iso : ℕ → String) (lost : Lost) (recovered_by : String) (recovered_at : ℕ) where
  recover_run : String → RunRow → StaleRecoveryResult → Action StaleRecoveryResult
  recover_run task_id run result =
      let next = lost_status run.status in
      let error = concat (
        description iso lost
        ∷ (if same_run_status run.status RunStatus.running
            then " The run was active."
            else " The run had not become active.")
        ∷ []) in
      do
        found ← gets (λ db. add_run db run next result)
        changes ←
            update_runs
              (λ r. r.id == run.id && r.task_id == task_id && same_run_status r.status run.status)
              (lost_run next error recovered_at)
        check (eqb changes 1) (run_changed_in_recovery run.id)
        insert_event task_id (some run.id)
            (if same_run_status next RunStatus.stale then "run.stale" else "run.failed")
            EventLevel.warn error
            (some (
              obj (
                field "previousStatus" (str (active_name run.status))
                  (recovery_fields iso lost recovered_by))))
            recovered_at
        pure found

  recover_runs : String → List RunRow → StaleRecoveryResult → Action StaleRecoveryResult
  recover_runs task_id [] result = pure result
  recover_runs task_id (run ∷ runs) result = do
    next ← recover_run task_id run result
    recover_runs task_id runs next

  abbrev pub blocked_row : TaskRow → TaskRow
  blocked_row t = record t {
    status = TaskStatus.blocked;
    claimed_by = none;
    claimed_at = none;
    latest_update = concat (description iso lost ∷ " Task requires recovery." ∷ []);
    updated_at = recovered_at;
  }

  abbrev task_event : Lost → String
  task_event (owned_by worker) = "task.dead_owner_recovered"
  task_event (expired_before cutoff) = "task.stale_recovered"

  abbrev task_message : Lost → String
  task_message (owned_by worker) =
      "Task owned by a dead daemon was blocked and its active execution state was closed."
  task_message (expired_before cutoff) =
      "Stale task was blocked and its active execution state was closed."

  recover_task : TaskRow → StaleRecoveryResult → Action StaleRecoveryResult
  recover_task task result = do
    runs ← gets (active_runs task.id)
    closed ← recover_runs task.id runs result
    update_steps (λ s. s.task_id == task.id && same_step_status s.status RouteStepStatus.running)
        (λ s. record s { status = RouteStepStatus.failed; updated_at = recovered_at })
    changes ←
        update_tasks
          (λ t.
            t.id == task.id
            && same_task_status t.status TaskStatus.running
            && is_same_time t.claimed_at task.claimed_at
            && is_same t.claimed_by task.claimed_by)
          blocked_row
    check (eqb changes 1) (task_changed_in_recovery task.id)
    insert_event task.id none (task_event lost) EventLevel.warn (task_message lost)
        (some (
          obj (
            field "claimedAt" (time_or_null iso task.claimed_at) (
              field "claimedBy" (text_or_null task.claimed_by)
                (recovery_fields iso lost recovered_by)))))
        recovered_at
    pure (record closed { task_ids = closed.task_ids ++ task.id ∷ [] })

  recover_tasks : List TaskRow → StaleRecoveryResult → Action StaleRecoveryResult
  recover_tasks [] result = pure result
  recover_tasks (task ∷ tasks) result = do next ← recover_task task result; recover_tasks tasks next

-- `#recoverRunningTasks`
pub recover_running_tasks : (ℕ → String) → Lost → String → ℕ → Action StaleRecoveryResult
recover_running_tasks iso lost recovered_by recovered_at =
    let worker = trim recovered_by in
    do
      check (not (worker == "")) worker_required
      transaction do
        tasks ← gets (lost_tasks lost)
        recover_tasks iso lost worker recovered_at tasks no_result

-- `recoverStaleTasks`; the cutoff is `Date.parse` of its argument, `none` for NaN.
pub recover_stale_tasks : (ℕ → String) → Option ℕ → String → ℕ → Action StaleRecoveryResult
recover_stale_tasks iso none recovered_by recovered_at = throw bad_cutoff
recover_stale_tasks iso (some cutoff) recovered_by recovered_at =
    recover_running_tasks iso (expired_before cutoff) recovered_by recovered_at

pub recover_tasks_owned_by : (ℕ → String) → String → String → ℕ → Action StaleRecoveryResult
recover_tasks_owned_by iso claimed_by recovered_by recovered_at =
    let worker = trim claimed_by in
    do
      check (not (worker == "")) worker_required
      recover_running_tasks iso (owned_by worker) recovered_by recovered_at
