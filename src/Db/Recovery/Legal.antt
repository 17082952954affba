-- ===== src/Db/Recovery/Legal.antt =====
-- Recovery closes lost work and does nothing else to tasks and runs.
use agent_control_center_cor.Base.{
  ◌≡◌, refl, subst, sym, ◌⊎◌, inl, inr, Bool, true, none, List, [], ◌∷◌, arith, Result, ok, err,
}
use agent_control_center_cor.Protocol.{TaskStatus, RunStatus, may_move_task, may_move_run}
use agent_control_center_cor.Db.State.{Db, DbError, TaskRow, RunRow}
use agent_control_center_cor.Db.Action.{
  Action, ◌>>=◌, continue, gets, update_tasks, update_runs, transaction, restore,
}
use agent_control_center_cor.Db.Legal.{
  Evolves, Evolves-refl, Evolves-update_where, IsLegal, TaskStep, RunStep, IsNewTask, IsNewRun,
  TaskStep-refl, RunStep-refl, Quiet, Moves, quiet_rules,
}

-- Of a task: it stays as it was, or it was running and is blocked and released.
abbrev pub TaskCloses : TaskRow → TaskRow → Type 0
TaskCloses t u =
    (u ≡ t)
    ⊎ ((u.id ≡ t.id)
        × (t.status ≡ TaskStatus.running)
        × (u.status ≡ TaskStatus.blocked)
        × (u.claimed_by ≡ none)
        × (u.claimed_at ≡ none))

-- Of a run: it stays as it was, or it was active and is stale or failed.
abbrev pub RunCloses : RunRow → RunRow → Type 0
RunCloses r s =
    (s ≡ r)
    ⊎ ((s.id ≡ r.id)
        × (s.task_id ≡ r.task_id)
        × (s.attempt ≡ r.attempt)
        × ((r.status ≡ RunStatus.running × s.status ≡ RunStatus.stale)
            ⊎ (r.status ≡ RunStatus.starting × s.status ≡ RunStatus.failed)))

abbrev pub NoneNew : {A : Type 0} → A → Type 0
NoneNew x = ⊥

pub record IsClosing (before after : Db) : Type 0 where
  pub tasks : Evolves TaskCloses NoneNew before.tasks after.tasks
  pub runs : Evolves RunCloses NoneNew before.runs after.runs

module _ {A : Type 0} (Step : A → A → Type 0) where
  pub Evolves-trans :
      ((x y z : A) → Step x y → Step y z → Step x z)
      → (xs ys zs : List A) → Evolves Step NoneNew xs ys
      → Evolves Step NoneNew ys zs
      → Evolves Step NoneNew xs zs
  Evolves-trans via [] [] zs h k = k
  Evolves-trans via [] (y ∷ ys) zs h k = absurd h.0
  Evolves-trans via (x ∷ xs) [] zs h k = absurd h
  Evolves-trans via (x ∷ xs) (y ∷ ys) [] h k = absurd k
  Evolves-trans via (x ∷ xs) (y ∷ ys) (z ∷ zs) h k =
      (via x y z h.0 k.0, Evolves-trans via xs ys zs h.1 k.1)

TaskCloses-trans : (t u v : TaskRow) → TaskCloses t u → TaskCloses u v → TaskCloses t v
TaskCloses-trans t u v (inl same) k = subst (λ x. TaskCloses x v) same k
TaskCloses-trans t u v (inr h) (inl same) = subst (TaskCloses t) (sym same) (inr h)
TaskCloses-trans t u v (inr h) (inr k) = cc h.2

pub RunCloses-trans : (r s u : RunRow) → RunCloses r s → RunCloses s u → RunCloses r u
RunCloses-trans r s u (inl same) k = subst (λ x. RunCloses x u) same k
RunCloses-trans r s u (inr h) (inl same) = subst (RunCloses r) (sym same) (inr h)
RunCloses-trans r s u (inr h) (inr k) = absurd (twice h.3 k.3)
  where
    twice :
        (r.status ≡ RunStatus.running × s.status ≡ RunStatus.stale)
          ⊎ (r.status ≡ RunStatus.starting × s.status ≡ RunStatus.failed)
        → (s.status ≡ RunStatus.running × u.status ≡ RunStatus.stale)
          ⊎ (s.status ≡ RunStatus.starting × u.status ≡ RunStatus.failed)
        → ⊥
    twice a b = ground arith

pub TaskCloses-TaskStep : (t u : TaskRow) → TaskCloses t u → TaskStep t u
unfolding may_move_task
TaskCloses-TaskStep t u (inl same) = subst (TaskStep t) (sym same) (TaskStep-refl t)
TaskCloses-TaskStep t u (inr h) = record {
  same_id = h.0;
  legal = ground arith;
  owned = λ _. inl (h.3, h.4);
}

pub RunCloses-RunStep : (r s : RunRow) → RunCloses r s → RunStep r s
unfolding may_move_run
RunCloses-RunStep r s (inl same) = subst (RunStep r) (sym same) (RunStep-refl r)
RunCloses-RunStep r s (inr h) = record {
  same_id = h.0;
  same_task = h.1;
  same_attempt = h.2;
  legal = ground arith;
}

IsClosing-refl : (db : Db) → IsClosing db db
IsClosing-refl db = record {
  tasks = Evolves-refl TaskCloses NoneNew (λ t. inl refl) db.tasks;
  runs = Evolves-refl RunCloses NoneNew (λ r. inl refl) db.runs;
}

IsClosing-trans : (a b c : Db) → IsClosing a b → IsClosing b c → IsClosing a c
IsClosing-trans a b c h k = record {
  tasks = Evolves-trans TaskCloses TaskCloses-trans a.tasks b.tasks c.tasks h.tasks k.tasks;
  runs = Evolves-trans RunCloses RunCloses-trans a.runs b.runs c.runs h.runs k.runs;
}

-- `m` closes lost work, and does nothing else to tasks and runs.
pub record Closes {A : Type 0} (m : Action A) : Type 0 where
  pub at : (db : Db) → IsClosing db (m db).1

module _ {A : Type 0} where
  pub Closes-Quiet : {m : Action A} → Quiet m → Closes m
  Closes-Quiet {m} q = record {
    at = λ db.
        let same = IsClosing-refl db in
        record {
          tasks = subst (Evolves TaskCloses NoneNew db.tasks) (sym (q.tasks db)) same.tasks;
          runs = subst (Evolves RunCloses NoneNew db.runs) (sym (q.runs db)) same.runs;
        };
  }

  restored-IsClosing :
      (before : Db) (r : Result DbError A × Db)
      → IsClosing before r.1
      → IsClosing before (restore before r).1
  restored-IsClosing before (ok a, after) h = h
  restored-IsClosing before (err e, after) h = IsClosing-refl before

  pub Closes-transaction : (m : Action A) → Closes m → Closes (transaction m)
  unfolding transaction
  Closes-transaction m k = record { at = λ db. restored-IsClosing db (m db) (k.at db) }

module _ {A B : Type 0} where
  continued :
      (db : Db) (r : Result DbError A) (f : A → Action B)
      → ((a : A) → Closes (f a))
      → IsClosing db (continue r f db).1
  continued db (ok a) f k = (k a).at db
  continued db (err e) f k = IsClosing-refl db

  pub Closes-bind :
      (m : Action A) (f : A → Action B) → Closes m → ((a : A) → Closes (f a)) → Closes (m >>= f)
  unfolding ◌>>=◌
  Closes-bind m f km kf = record {
    at = λ db.
        let (r, db') = m db in
        IsClosing-trans db db' ((m >>= f) db).1 (km.at db) (continued db' r f kf);
  }

pub Closes-update_tasks :
    (p : TaskRow → Bool) (f : TaskRow → TaskRow)
    → ((t : TaskRow) → p t ≡ true → TaskCloses t (f t))
    → Closes (update_tasks p f)
unfolding update_tasks
Closes-update_tasks p f h = record {
  at = λ db. record {
    tasks = Evolves-update_where TaskCloses NoneNew (λ t. inl refl) p f db.tasks h;
    runs = (IsClosing-refl db).runs;
  };
}

pub Closes-update_runs :
    (p : RunRow → Bool) (f : RunRow → RunRow)
    → ((r : RunRow) → p r ≡ true → RunCloses r (f r))
    → Closes (update_runs p f)
unfolding update_runs
Closes-update_runs p f h = record {
  at = λ db. record {
    tasks = (IsClosing-refl db).tasks;
    runs = Evolves-update_where RunCloses NoneNew (λ r. inl refl) p f db.runs h;
  };
}

-- what was read is known to the rest of the block
pub Closes-gets :
    {A B : Type 0} (P : A → Type 0) (g : Db → A) (f : A → Action B)
    → ((db : Db) → P (g db))
    → ((a : A) → P a → Closes (f a))
    → Closes (gets g >>= f)
unfolding ◌>>=◌
Closes-gets P g f h k = record { at = λ db. (k (g db) (h db)).at db }

pub ruleset closes_rules = (quiet_rules, Closes-Quiet, Closes-bind, Closes-transaction)
