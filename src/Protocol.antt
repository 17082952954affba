-- ===== src/Protocol.antt =====
-- src/protocol.ts: the statuses of tasks and runs, their transition tables, and the task id schema.
-- A thrown Error is the `err` of a `Result`.
pub mod TaskId
use agent_control_center_cor.Base.{
  ℕ, String, Bool, true, false, ◌||◌, Option, List, [], ◌∷◌, Result, ok, err, if◌then◌else◌,
}

pub data TaskStatus : Type 0 where
  queued running needs_review blocked done : TaskStatus

pub data Priority : Type 0 where
  low normal high urgent : Priority

pub data AgentSelection : Type 0 where
  auto codex claude openclaw parallel : AgentSelection

pub data AgentKind : Type 0 where
  codex claude openclaw : AgentKind

pub data RouteRole : Type 0 where
  execute review approval : RouteRole

pub data RunStatus : Type 0 where
  queued starting running succeeded failed stopped stale : RunStatus

pub data ArtifactKind : Type 0 where
  prompt stdout stderr result diff git_status commit screenshot test_log handoff metadata :
      ArtifactKind

pub data RouteMode : Type 0 where
  single sequential parallel : RouteMode

pub data Risk : Type 0 where
  normal high : Risk

pub record TaskPayload : Type 0 where
  pub id : Option String
  pub goal : String
  pub repo : String
  pub base_ref : String
  pub agent : AgentSelection
  pub priority : Priority
  pub context : Option String
  pub success_criteria : List String
  pub verification_command : Option String
  pub handoff_required : Bool

pub record RouteStep : Type 0 where
  pub id : String
  pub sequence : ℕ
  pub agent : AgentKind
  pub role : RouteRole
  pub required : Bool
  pub reason : String

pub record RoutePlan : Type 0 where
  pub mode : RouteMode
  pub risk : Risk
  pub reasons : List String
  pub steps : List RouteStep

-- `from === to` on the two status enums
abbrev pub same_task_status : TaskStatus → TaskStatus → Bool
same_task_status TaskStatus.queued TaskStatus.queued = true
same_task_status TaskStatus.running TaskStatus.running = true
same_task_status TaskStatus.needs_review TaskStatus.needs_review = true
same_task_status TaskStatus.blocked TaskStatus.blocked = true
same_task_status TaskStatus.done TaskStatus.done = true
same_task_status _ _ = false

abbrev pub same_run_status : RunStatus → RunStatus → Bool
same_run_status RunStatus.queued RunStatus.queued = true
same_run_status RunStatus.starting RunStatus.starting = true
same_run_status RunStatus.running RunStatus.running = true
same_run_status RunStatus.succeeded RunStatus.succeeded = true
same_run_status RunStatus.failed RunStatus.failed = true
same_run_status RunStatus.stopped RunStatus.stopped = true
same_run_status RunStatus.stale RunStatus.stale = true
same_run_status _ _ = false

unfoldable pub task_transitions : TaskStatus → List TaskStatus
task_transitions TaskStatus.queued = TaskStatus.running ∷ TaskStatus.blocked ∷ []
task_transitions TaskStatus.running =
    TaskStatus.needs_review ∷ TaskStatus.blocked ∷ TaskStatus.done ∷ TaskStatus.queued ∷ []
task_transitions TaskStatus.needs_review =
    TaskStatus.done ∷ TaskStatus.queued ∷ TaskStatus.blocked ∷ []
task_transitions TaskStatus.blocked = TaskStatus.queued ∷ TaskStatus.done ∷ []
task_transitions TaskStatus.done = TaskStatus.queued ∷ []

unfoldable pub run_transitions : RunStatus → List RunStatus
run_transitions RunStatus.queued = RunStatus.starting ∷ RunStatus.stopped ∷ []
run_transitions RunStatus.starting = RunStatus.running ∷ RunStatus.failed ∷ RunStatus.stopped ∷ []
run_transitions RunStatus.running =
    RunStatus.succeeded ∷ RunStatus.failed ∷ RunStatus.stopped ∷ RunStatus.stale ∷ []
run_transitions RunStatus.succeeded = []
run_transitions RunStatus.failed = RunStatus.queued ∷ []
run_transitions RunStatus.stopped = RunStatus.queued ∷ []
run_transitions RunStatus.stale = RunStatus.queued ∷ RunStatus.failed ∷ []

abbrev includes {ℓ} : {A : Type ℓ} → (A → A → Bool) → List A → A → Bool
includes same [] x = false
includes same (y ∷ ys) x = same y x || includes same ys x

-- What `assertTaskTransition` lets pass.
unfoldable pub may_move_task : TaskStatus → TaskStatus → Bool
unfolding task_transitions
may_move_task from to =
    same_task_status from to || includes same_task_status (task_transitions from) to

unfoldable pub may_move_run : RunStatus → RunStatus → Bool
unfolding run_transitions
may_move_run from to = same_run_status from to || includes same_run_status (run_transitions from) to

pub data TransitionError : Type 0 where
  invalid_task_transition : TaskStatus → TaskStatus → TransitionError
  invalid_run_transition : RunStatus → RunStatus → TransitionError

unfoldable pub assert_task_transition : TaskStatus → TaskStatus → Result TransitionError (Unit {0})
unfolding may_move_task
assert_task_transition from to =
    if may_move_task from to then ok tt else err (invalid_task_transition from to)

unfoldable pub assert_run_transition : RunStatus → RunStatus → Result TransitionError (Unit {0})
unfolding may_move_run
assert_run_transition from to =
    if may_move_run from to then ok tt else err (invalid_run_transition from to)
