-- ===== src/Db/State.antt =====
-- The rows of the tables of src/db.ts, and the errors that its methods throw. An instant is its
-- number of milliseconds: the ISO texts that the code stores have one width, so they order alike.
-- A JSON column holds the value that its text parses to.
use agent_control_center_cor.Base.{ℕ, String, Bool, Option, List}
use agent_control_center_cor.Json.{Json}
use agent_control_center_cor.Protocol.{
  AgentKind, AgentSelection, ArtifactKind, Priority, Risk, RouteMode, RouteRole, RunStatus,
  TaskStatus, TransitionError,
}

pub data RouteStepStatus : Type 0 where
  pending running succeeded failed skipped : RouteStepStatus

pub data EventLevel : Type 0 where
  debug info warn error : EventLevel

pub data ReviewStatus : Type 0 where
  pending approved rework_requested rejected : ReviewStatus

pub data Direction : Type 0 where
  user_to_agent agent_to_user system : Direction

pub data DeliveryStatus : Type 0 where
  queued delivered unsupported failed : DeliveryStatus

pub data IdempotencyState : Type 0 where
  pending completed : IdempotencyState

pub record TaskRow : Type 0 where
  pub id : String
  pub goal : String
  pub repo : String
  pub base_ref : String
  pub requested_agent : AgentSelection
  pub priority : Priority
  pub context : Option String
  pub success_criteria : List String
  pub verification_command : Option String
  pub handoff_required : Bool
  pub status : TaskStatus
  pub route_mode : RouteMode
  pub route_risk : Risk
  pub route_reasons : List String
  pub latest_update : String
  pub claimed_by : Option String
  pub claimed_at : Option ℕ
  pub created_at : ℕ
  pub updated_at : ℕ

pub record RouteStepRow : Type 0 where
  pub id : String
  pub task_id : String
  pub sequence_no : ℕ
  pub agent : AgentKind
  pub role : RouteRole
  pub required : Bool
  pub reason : String
  pub status : RouteStepStatus
  pub run_id : Option String
  pub created_at : ℕ
  pub updated_at : ℕ

pub record RunRow : Type 0 where
  pub id : String
  pub task_id : String
  pub route_step_id : String
  pub adapter_run_id : Option String
  pub agent : AgentKind
  pub role : RouteRole
  pub attempt : ℕ
  pub status : RunStatus
  pub pid : Option ℕ
  pub worktree_path : Option String
  pub branch : Option String
  pub base_commit : Option String
  pub stdout_path : Option String
  pub stderr_path : Option String
  pub result_path : Option String
  pub exit_code : Option ℕ
  pub signal : Option String
  pub summary : Option String
  pub error : Option String
  pub usage_json : Option String
  pub started_at : Option ℕ
  pub finished_at : Option ℕ
  pub created_at : ℕ
  pub updated_at : ℕ

pub record EventRow : Type 0 where
  pub id : ℕ
  pub task_id : String
  pub run_id : Option String
  pub type : String
  pub level : EventLevel
  pub message : String
  pub data_json : Option Json
  pub created_at : ℕ

pub record ArtifactRow : Type 0 where
  pub id : String
  pub task_id : String
  pub run_id : Option String
  pub kind : ArtifactKind
  pub path : String
  pub relative_path : Option String
  pub sha256 : String
  pub size_bytes : ℕ
  pub metadata : Option Json
  pub created_at : ℕ

pub record MessageRow : Type 0 where
  pub id : String
  pub task_id : String
  pub run_id : Option String
  pub direction : Direction
  pub role : String
  pub body : String
  pub delivery_status : DeliveryStatus
  pub created_at : ℕ

pub record ReviewRow : Type 0 where
  pub id : String
  pub task_id : String
  pub run_id : Option String
  pub reviewer : Option String
  pub status : ReviewStatus
  pub note : Option String
  pub created_at : ℕ
  pub updated_at : ℕ

pub record IdempotencyRow : Type 0 where
  pub key : String
  pub request_hash : String
  pub state : IdempotencyState
  pub response_status : Option ℕ
  pub response_body : Option String
  pub created_at : ℕ
  pub updated_at : ℕ

-- `next_event` is the AUTOINCREMENT counter of `events`.
pub record Db : Type 0 where
  pub tasks : List TaskRow
  pub steps : List RouteStepRow
  pub runs : List RunRow
  pub events : List EventRow
  pub next_event : ℕ
  pub artifacts : List ArtifactRow
  pub messages : List MessageRow
  pub reviews : List ReviewRow
  pub keys : List IdempotencyRow

pub data DbError : Type 0 where
  -- a PRIMARY KEY, UNIQUE, CHECK or REFERENCES clause of the schema
  constraint : DbError
  transition : TransitionError → DbError
  worker_required bad_cutoff : DbError
  task_not_found task_changed task_not_waiting task_not_blocked task_cannot_finalize :
      String → DbError
  task_not_claimed : String → String → DbError
  unconfirmed_remote : String → String → DbError
  step_not_found step_changed : String → DbError
  run_not_found run_changed run_disappeared run_changed_in_recovery : String → DbError
  task_changed_in_recovery : String → DbError
  review_not_found no_pending_review review_changed review_disappeared : String → DbError
  note_required : DbError
  message_not_found : String → DbError
  key_required key_too_long : DbError
  key_no_response key_disappeared key_not_claimed key_conflict : String → DbError
  key_unverified key_has_other_response : String → DbError
  bad_response_status : DbError
  bad_limit bad_cursor : DbError
  bad_artifact : DbError
  artifact_conflict : String → DbError
