-- ===== src/Db/Legal/Rules.antt =====
-- One rule for each way to build an action.
use agent_control_center_cor.Base.{
  ◌≡◌, refl, subst, sym, ◌∙◌, Bool, true, false, Option, some, none, ok, err, Result, if◌then◌else◌,
}
use agent_control_center_cor.Db.State.{
  Db, DbError, TaskRow, RunRow, RouteStepRow, ReviewRow, MessageRow,
}
use agent_control_center_cor.Db.Action.{
  Action, ◌>>=◌, pure, throw, lift, gets, required, check, update_tasks, update_steps, update_runs,
  update_reviews, update_messages, transaction, continue, restore,
}
use agent_control_center_cor.Db.Legal.Rows.{
  IsLegal, Evolves, Evolves-update_where, TaskStep, IsNewTask, RunStep, IsNewRun, TaskStep-refl,
  RunStep-refl, tasks_refl, runs_refl,
}

-- `m` writes neither tasks nor runs.
pub record Quiet {A : Type 0} (m : Action A) : Type 0 where
  pub tasks : (db : Db) → (m db).1.tasks ≡ db.tasks
  pub runs : (db : Db) → (m db).1.runs ≡ db.runs

-- Whether `m` returns or throws, the change that it leaves is legal.
pub record Moves {A : Type 0} (m : Action A) : Type 0 where
  pub at : (db : Db) → IsLegal db (m db).1

module _ {A : Type 0} where
  pub Quiet-pure : (a : A) → Quiet (pure a)
  unfolding pure
  Quiet-pure a = record { tasks = λ db. refl; runs = λ db. refl }

  pub Quiet-throw : (e : DbError) → Quiet (throw {A = A} e)
  unfolding throw
  Quiet-throw e = record { tasks = λ db. refl; runs = λ db. refl }

  pub Quiet-lift : (r : Result DbError A) → Quiet (lift r)
  unfolding lift
  Quiet-lift r = record { tasks = λ db. refl; runs = λ db. refl }

  pub Quiet-gets : (f : Db → A) → Quiet (gets f)
  unfolding gets
  Quiet-gets f = record { tasks = λ db. refl; runs = λ db. refl }

  pub Quiet-required : (o : Option A) (e : DbError) → Quiet (required o e)
  unfolding required
  Quiet-required none e = record { tasks = λ db. refl; runs = λ db. refl }
  Quiet-required (some a) e = record { tasks = λ db. refl; runs = λ db. refl }

  pub Quiet-if : (b : Bool) (m n : Action A) → Quiet m → Quiet n → Quiet (if b then m else n)
  Quiet-if true m n qm qn = qm
  Quiet-if false m n qm qn = qn

  pub Moves-Quiet : {m : Action A} → Quiet m → Moves m
  Moves-Quiet {m} q = record {
    at = λ db. record {
      tasks = subst (Evolves TaskStep IsNewTask db.tasks) (sym (q.tasks db)) (tasks_refl db.tasks);
      runs = subst (Evolves RunStep IsNewRun db.runs) (sym (q.runs db)) (runs_refl db.runs);
    };
  }

  pub Moves-if :
      (b : Bool) (m n : Action A)
      → (b ≡ true → Moves m)
      → (b ≡ false → Moves n)
      → Moves (if b then m else n)
  Moves-if true m n km kn = km refl
  Moves-if false m n km kn = kn refl

  restored-IsLegal :
      (before : Db) (r : Result DbError A × Db)
      → IsLegal before r.1
      → IsLegal before (restore before r).1
  restored-IsLegal before (ok a, after) h = h
  restored-IsLegal before (err e, after) h = record {
    tasks = tasks_refl before.tasks;
    runs = runs_refl before.runs;
  }

  pub Moves-transaction : (m : Action A) → Moves m → Moves (transaction m)
  unfolding transaction
  Moves-transaction m k = record { at = λ db. restored-IsLegal db (m db) (k.at db) }

pub Quiet-check : (b : Bool) (e : DbError) → Quiet (check b e)
unfolding check
Quiet-check true e = record { tasks = λ db. refl; runs = λ db. refl }
Quiet-check false e = record { tasks = λ db. refl; runs = λ db. refl }

pub Quiet-update_steps :
    (p : RouteStepRow → Bool) (f : RouteStepRow → RouteStepRow) → Quiet (update_steps p f)
unfolding update_steps
Quiet-update_steps p f = record { tasks = λ db. refl; runs = λ db. refl }

pub Quiet-update_reviews :
    (p : ReviewRow → Bool) (f : ReviewRow → ReviewRow) → Quiet (update_reviews p f)
unfolding update_reviews
Quiet-update_reviews p f = record { tasks = λ db. refl; runs = λ db. refl }

pub Quiet-update_messages :
    (p : MessageRow → Bool) (f : MessageRow → MessageRow) → Quiet (update_messages p f)
unfolding update_messages
Quiet-update_messages p f = record { tasks = λ db. refl; runs = λ db. refl }

module _ {A B : Type 0} where
  continued :
      (r : Result DbError A) (f : A → Action B)
      → ((a : A) → r ≡ ok a → Quiet (f a))
      → Quiet (continue r f)
  continued (ok a) f q = q a refl
  continued (err e) f q = record { tasks = λ db. refl; runs = λ db. refl }

  pub Quiet-bind :
      (m : Action A) (f : A → Action B) → Quiet m → ((a : A) → Quiet (f a)) → Quiet (m >>= f)
  unfolding ◌>>=◌
  Quiet-bind m f qm qf = record {
    tasks = λ db. let (r, db') = m db in (continued r f (λ a _. qf a)).tasks db' ∙ qm.tasks db;
    runs = λ db. let (r, db') = m db in (continued r f (λ a _. qf a)).runs db' ∙ qm.runs db;
  }

  pub Moves-lift :
      (r : Result DbError A) (f : A → Action B)
      → ((a : A) → r ≡ ok a → Moves (f a))
      → Moves (lift r >>= f)
  unfolding ◌>>=◌
  Moves-lift (ok a) f k = k a refl
  Moves-lift (err e) f k = Moves-Quiet (Quiet-throw e)

  after_quiet :
      (r : Result DbError A) (f : A → Action B) → ((a : A) → Moves (f a)) → Moves (continue r f)
  after_quiet (ok a) f k = k a
  after_quiet (err e) f k = Moves-Quiet (unfold throw in Quiet-throw e)

  -- first what does not write the two tables, then what does
  pub Moves-bind :
      (m : Action A) (f : A → Action B) → Quiet m → ((a : A) → Moves (f a)) → Moves (m >>= f)
  unfolding ◌>>=◌
  Moves-bind m f q k = record {
    at = λ db.
        let (r, db') = m db in
        let legal = (after_quiet r f k).at db' in
        record {
          tasks =
              subst (λ ts. Evolves TaskStep IsNewTask ts ((m >>= f) db).1.tasks) (q.tasks db)
                legal.tasks;
          runs =
              subst (λ rs. Evolves RunStep IsNewRun rs ((m >>= f) db).1.runs) (q.runs db)
                legal.runs;
        };
  }

  -- the other way round
  pub Moves-then :
      (m : Action A) (f : A → Action B) → Moves m → ((a : A) → Quiet (f a)) → Moves (m >>= f)
  unfolding ◌>>=◌
  Moves-then m f k q = record {
    at = λ db.
        let (r, db') = m db in
        let rest = continued r f (λ a _. q a) in
        record {
          tasks =
              subst (Evolves TaskStep IsNewTask db.tasks) (sym (rest.tasks db')) (k.at db).tasks;
          runs = subst (Evolves RunStep IsNewRun db.runs) (sym (rest.runs db')) (k.at db).runs;
        };
  }

-- a guard that the rest of the block may use
pub Moves-check :
    {B : Type 0} (b : Bool) (e : DbError) (f : Unit {0} → Action B)
    → (b ≡ true → Moves (f tt))
    → Moves (check b e >>= f)
unfolding ◌>>=◌
Moves-check true e f k = k refl
Moves-check false e f k = Moves-Quiet (Quiet-throw e)

pub Moves-required :
    {A B : Type 0} (o : Option A) (e : DbError) (f : A → Action B)
    → ((a : A) → o ≡ some a → Moves (f a))
    → Moves (required o e >>= f)
unfolding ◌>>=◌
Moves-required none e f k = Moves-Quiet (Quiet-throw e)
Moves-required (some a) e f k = k a refl

pub Moves-update_tasks :
    (p : TaskRow → Bool) (f : TaskRow → TaskRow)
    → ((t : TaskRow) → p t ≡ true → TaskStep t (f t))
    → Moves (update_tasks p f)
unfolding update_tasks
Moves-update_tasks p f h = record {
  at = λ db. record {
    tasks = Evolves-update_where TaskStep IsNewTask TaskStep-refl p f db.tasks h;
    runs = runs_refl db.runs;
  };
}

pub Moves-update_runs :
    (p : RunRow → Bool) (f : RunRow → RunRow)
    → ((r : RunRow) → p r ≡ true → RunStep r (f r))
    → Moves (update_runs p f)
unfolding update_runs
Moves-update_runs p f h = record {
  at = λ db. record {
    tasks = tasks_refl db.tasks;
    runs = Evolves-update_where RunStep IsNewRun RunStep-refl p f db.runs h;
  };
}
