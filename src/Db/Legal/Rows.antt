-- ===== src/Db/Legal/Rows.antt =====
-- What may become of the rows of `tasks` and `runs`.
use agent_control_center_cor.Base.{
  ◌≡◌, refl, ◌⊎◌, Bool, true, false, none, List, [], ◌∷◌, ◌++◌, arith, All, update_where,
  if◌then◌else◌,
}
use agent_control_center_cor.Protocol.{TaskStatus, RunStatus, may_move_task, may_move_run}
use agent_control_center_cor.Db.State.{Db, TaskRow, RunRow}

-- The rows that were there are there still, in their order, each moved by a step; what is added
-- behind them is new.
module _ {A : Type 0} (Step : A → A → Type 0) (IsNew : A → Type 0) where
  abbrev pub Evolves : List A → List A → Type 0
  Evolves [] ys = All IsNew ys
  Evolves (x ∷ xs) [] = ⊥
  Evolves (x ∷ xs) (y ∷ ys) = Step x y × Evolves xs ys

  pub Evolves-refl : ((x : A) → Step x x) → (xs : List A) → Evolves xs xs
  Evolves-refl same [] = tt
  Evolves-refl same (x ∷ xs) = (same x, Evolves-refl same xs)

  pub Evolves-append :
      ((x : A) → Step x x) → (xs : List A) (y : A) → IsNew y → Evolves xs (xs ++ y ∷ [])
  Evolves-append same [] y new = (new, tt)
  Evolves-append same (x ∷ xs) y new = (same x, Evolves-append same xs y new)

  pub Evolves-update_where :
      ((x : A) → Step x x)
      → (p : A → Bool) (f : A → A) (xs : List A) → ((x : A) → p x ≡ true → Step x (f x))
      → Evolves xs (update_where p f xs)
  unfolding update_where
  Evolves-update_where same p f [] moves = tt
  Evolves-update_where same p f (x ∷ xs) moves =
      (set_row (p x) refl, Evolves-update_where same p f xs moves)
    where
      set_row : (b : Bool) → p x ≡ b → Step x (if b then f x else x)
      set_row true e = moves x e
      set_row false e = same x

-- A worker is recorded on a task only while the task is running.
abbrev pub IsOwned : TaskRow → Type 0
IsOwned t = (t.claimed_by ≡ none × t.claimed_at ≡ none) ⊎ (t.status ≡ TaskStatus.running)

pub record TaskStep (t u : TaskRow) : Type 0 where
  pub same_id : u.id ≡ t.id
  pub legal : may_move_task t.status u.status ≡ true
  pub owned : IsOwned t → IsOwned u

pub record IsNewTask (t : TaskRow) : Type 0 where
  pub queued : t.status ≡ TaskStatus.queued
  pub owned : IsOwned t

pub record RunStep (r s : RunRow) : Type 0 where
  pub same_id : s.id ≡ r.id
  pub same_task : s.task_id ≡ r.task_id
  pub same_attempt : s.attempt ≡ r.attempt
  pub legal : may_move_run r.status s.status ≡ true

abbrev pub IsNewRun : RunRow → Type 0
IsNewRun r = r.status ≡ RunStatus.queued

-- Every task and every run moves along the transition tables of src/protocol.ts or stays; no row
-- disappears or changes its id, and new tasks and runs are queued.
pub record IsLegal (before after : Db) : Type 0 where
  pub tasks : Evolves TaskStep IsNewTask before.tasks after.tasks
  pub runs : Evolves RunStep IsNewRun before.runs after.runs

may_move_task_refl : (s : TaskStatus) → may_move_task s s ≡ true
unfolding may_move_task
may_move_task_refl s = ground arith

may_move_run_refl : (s : RunStatus) → may_move_run s s ≡ true
unfolding may_move_run
may_move_run_refl s = ground arith

pub TaskStep-refl : (t : TaskRow) → TaskStep t t
TaskStep-refl t = record { same_id = refl; legal = may_move_task_refl t.status; owned = λ h. h }

pub RunStep-refl : (r : RunRow) → RunStep r r
RunStep-refl r = record {
  same_id = refl;
  same_task = refl;
  same_attempt = refl;
  legal = may_move_run_refl r.status;
}

pub tasks_refl : (ts : List TaskRow) → Evolves TaskStep IsNewTask ts ts
tasks_refl = Evolves-refl TaskStep IsNewTask TaskStep-refl

pub runs_refl : (rs : List RunRow) → Evolves RunStep IsNewRun rs rs
runs_refl = Evolves-refl RunStep IsNewRun RunStep-refl
