-- ===== src/Coordinator.antt =====
-- src/coordinator.ts: the worker that executes claimed tasks. Its state, and code that may throw while
-- it changes the state.
pub mod Names
pub mod Step
pub mod Keeps
pub mod Verified
pub mod Evidence
pub mod Execute
pub mod Returns
pub mod Settled
pub mod Succeeds
pub mod Tests
use agent_control_center_cor.Base.{
  ℕ, String, Bool, true, false, not, Option, none, some, List, [], ◌∷◌, ◌++◌, ◌==◌, any,
  if◌then◌else◌, delete_where, Result, ok, err, ◌≡◌, ◌≢◌, refl,
}
use agent_control_center_cor.Json.{Json}
use agent_control_center_cor.Db.State.{Db, DbError, EventLevel, ArtifactRow}
use agent_control_center_cor.Db.Action.{Action}
use agent_control_center_cor.Db.Journal.{append_event}

pub data Phase : Type 0 where
  starting active verifying finalizing : Phase

-- The database and the private maps of `Coordinator`: `#runPhases`, `#activeRuns`,
-- `#activeVerifications` (by run id), `#stopRequestedRuns` and `#shutdownRequested`.
pub record Worker : Type 0 where
  pub db : Db
  pub run_phases : List (String × (String × Phase))
  pub active_runs : List (String × String)
  pub active_verifications : List (String × String)
  pub stop_requested_runs : List String
  pub shutdown_requested : Bool

-- Of what worktrees and adapters report, the fields that the coordinator stores or acts on
pub record WorktreeInfo : Type 0 where
  pub worktree_path : String
  pub branch : String
  pub base_commit : String

pub record AdapterRun : Type 0 where
  pub id : String
  pub pid : Option ℕ
  pub stdout_path : String
  pub stderr_path : String
  pub result_path : String

pub data AdapterStatus : Type 0 where
  succeeded failed stopped stale : AdapterStatus

pub record AdapterResult : Type 0 where
  pub status : AdapterStatus
  pub exit_code : Option ℕ
  pub signal : Option String
  pub summary : String
  pub error : Option String
  pub usage_json : Option String
  pub finished_at : ℕ

-- The worker, and the variables that the `try` of `#executeStep` shares with its `catch`.
pub record Scene : Type 0 where
  pub worker : Worker
  pub worktree : Option WorktreeInfo
  pub has_snapshot : Bool
  pub adapter_run : Option AdapterRun

-- What returns or throws the message of an error, and changes the scene either way.
abbrev pub Attempt : Type 0 → Type 0
Attempt A = Scene → Result String A × Scene

-- The same for code that has the worker only
abbrev pub Job : Type 0 → Type 0
Job A = Worker → Result String A × Worker

module _ {S A : Type 0} where
  abbrev pub pure : A → S → Result String A × S
  pure a state = (ok a, state)

  abbrev pub throw : String → S → Result String A × S
  throw message state = (err message, state)

  -- an outcome of code that is not modelled
  abbrev pub io : Result String A → S → Result String A × S
  io r state = (r, state)

abbrev pub continue :
    {S A B : Type 0} → Result String A → (A → S → Result String B × S) → S → Result String B × S
continue (ok a) f state = f a state
continue (err message) f state = (err message, state)

infixl 10 ◌>>=◌ ◌>>◌
unfoldable pub ◌>>=◌ :
    {S A B : Type 0}
    → (S → Result String A × S)
    → (A → S → Result String B × S)
    → S
    → Result String B × S
◌>>=◌ m f state = continue (m state).0 f (m state).1

abbrev pub ◌>>◌ :
    {S A B : Type 0}
    → (S → Result String A × S)
    → (S → Result String B × S)
    → S
    → Result String B × S
m >> n = m >>= λ _. n

abbrev pub on_worker : (Worker → Worker) → Scene → Scene
on_worker f scene = record scene { worker = f scene.worker }

abbrev pub modify : (Worker → Worker) → Attempt (Unit {0})
modify f scene = (ok tt, on_worker f scene)

abbrev pub message_of_result :
    {A : Type 0} → (DbError → String) → Result DbError A → Result String A
message_of_result message_of (ok a) = ok a
message_of_result message_of (err e) = err (message_of e)

-- A method of the database, which throws an error with a message; the method sees the database as
-- it is when it is called.
unfoldable pub job_db : {A : Type 0} → (DbError → String) → (Db → Action A) → Job A
job_db message_of method worker =
    let (r, db) = method worker.db worker.db in
    (message_of_result message_of r, record worker { db = db })

unfoldable pub on_db : {A : Type 0} → (DbError → String) → (Db → Action A) → Attempt A
unfolding job_db
on_db message_of method scene =
    let (r, worker) = job_db message_of method scene.worker in (r, record scene { worker = worker })

-- `if (b) throw new Error(message)`
abbrev pub refuse_if : Bool → String → Attempt (Unit {0})
refuse_if true message scene = (err message, scene)
refuse_if false message scene = (ok tt, scene)

-- a text that is there and not empty
abbrev pub is_filled : Option String → Bool
is_filled none = false
is_filled (some s) = not (s == "")

-- `#publish`: the event is stored; the bus only tells those who listen.
unfoldable pub publish :
    (DbError → String)
    → String
    → Option String
    → String
    → Option EventLevel
    → String
    → Option Json
    → ℕ
    → Attempt ℕ
publish message_of task_id run_id type level message data_json now =
    on_db message_of (λ _. append_event task_id run_id type level message data_json now)

-- the same for a job
unfoldable pub append_event_job :
    (DbError → String)
    → String
    → Option String
    → String
    → Option EventLevel
    → String
    → Option Json
    → ℕ
    → Job ℕ
unfolding job_db
append_event_job message_of task_id run_id type level message data_json now =
    job_db message_of (λ _. append_event task_id run_id type level message data_json now)

-- `map.set` and `map.delete`
abbrev pub without : {A : Type 0} → String → List (String × A) → List (String × A)
without key entries = delete_where (λ entry. entry.0 == key) entries

abbrev pub set_phase : String → String → Phase → Worker → Worker
set_phase run_id task_id phase w = record w {
  run_phases = (run_id, (task_id, phase)) ∷ without run_id w.run_phases;
}

abbrev pub forget_run : String → Worker → Worker
forget_run run_id w = record w {
  run_phases = without run_id w.run_phases;
  stop_requested_runs = delete_where (λ id. id == run_id) w.stop_requested_runs;
}

-- Rows of `addArtifact` for the files that were captured, and the message of what ended the capture, if
-- anything did
pub record Captured : Type 0 where
  pub rows : List ArtifactRow
  pub failure : Option String

abbrev pub failure_of : Option String → Result String (Unit {0})
failure_of none = ok tt
failure_of (some message) = err message

abbrev pub add_rows : List ArtifactRow → Worker → Worker
add_rows rows w = record w { db = record w.db { artifacts = w.db.artifacts ++ rows } }

abbrev pub register : Captured → Attempt (Unit {0})
register captured scene =
    (failure_of captured.failure, on_worker (λ w. add_rows captured.rows w) scene)

-- What returns in the end has returned at each step, and left a state to the next one.
pub after_return :
    {S A B G : Type 0} (m : S → Result String A × S) (f : A → S → Result String B × S)
    (state after : S) (b : B)
    → (m >>= f) state ≡ (ok b, after)
    → ((a : A) (next : S) → m state ≡ (ok a, next) → f a next ≡ (ok b, after) → G)
    → G
unfolding ◌>>=◌
after_return {S} {A} {B} {G} m f state after b h rest = went_on (m state).0 (m state).1 refl h
  where
    went_on :
        (r : Result String A) (next : S)
        → m state ≡ (r, next)
        → continue r f next ≡ (ok b, after)
        → G
    went_on (ok a) next e k = rest a next e k
    went_on (err message) next e k = absurd (never k)
      where
        never : ◌≢◌ {A = Result String B × S} (err message, next) (ok b, after)
        never same = cc
