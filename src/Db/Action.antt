-- ===== src/Db/Action.antt =====
-- A method of `ControlCenterDb` that writes: what was written before an error stays, unless a
-- transaction rolls it back. One method holds the write connection at a time
-- (`#withWriteConnection`), so a method is a function of the database.
pub mod Returns
use agent_control_center_cor.Base.{
  ℕ, Bool, true, false, Option, none, some, Result, ok, err, ◌≡◌, refl, update_where, count_where,
}
use agent_control_center_cor.Db.State.{
  Db, DbError, TaskRow, RouteStepRow, RunRow, ReviewRow, MessageRow,
}

abbrev pub Action : Type 0 → Type 0
Action A = Db → Result DbError A × Db

module _ {A : Type 0} where
  unfoldable pub pure : A → Action A
  pure a db = (ok a, db)

  unfoldable pub throw : DbError → Action A
  throw e db = (err e, db)

  unfoldable pub lift : Result DbError A → Action A
  lift r db = (r, db)

  unfoldable pub gets : (Db → A) → Action A
  gets f db = (ok (f db), db)

  -- `if (!row) throw e`
  unfoldable pub required : Option A → DbError → Action A
  required none e db = (err e, db)
  required (some a) e db = (ok a, db)

-- `if (!b) throw e`
unfoldable pub check : Bool → DbError → Action (Unit {0})
check true e db = (ok tt, db)
check false e db = (err e, db)

-- UPDATE … WHERE …, and its `changes`
unfoldable pub update_tasks : (TaskRow → Bool) → (TaskRow → TaskRow) → Action ℕ
update_tasks p f db = (ok (count_where p db.tasks), record db { tasks = update_where p f db.tasks })

unfoldable pub update_steps : (RouteStepRow → Bool) → (RouteStepRow → RouteStepRow) → Action ℕ
update_steps p f db = (ok (count_where p db.steps), record db { steps = update_where p f db.steps })

unfoldable pub update_runs : (RunRow → Bool) → (RunRow → RunRow) → Action ℕ
update_runs p f db = (ok (count_where p db.runs), record db { runs = update_where p f db.runs })

unfoldable pub update_reviews : (ReviewRow → Bool) → (ReviewRow → ReviewRow) → Action ℕ
update_reviews p f db =
    (ok (count_where p db.reviews), record db { reviews = update_where p f db.reviews })

unfoldable pub update_messages : (MessageRow → Bool) → (MessageRow → MessageRow) → Action ℕ
update_messages p f db =
    (ok (count_where p db.messages), record db { messages = update_where p f db.messages })

abbrev pub continue : {A B : Type 0} → Result DbError A → (A → Action B) → Action B
continue (ok a) f db = f a db
continue (err e) f db = (err e, db)

infixl 10 ◌>>=◌ ◌>>◌
-- Opening this opens the actions above.
unfoldable pub ◌>>=◌ : {A B : Type 0} → Action A → (A → Action B) → Action B
unfolding pure throw lift gets required check update_tasks update_steps update_runs update_reviews
    update_messages
◌>>=◌ m f db = let (r, db') = m db in continue r f db'

abbrev pub ◌>>◌ : {A B : Type 0} → Action A → Action B → Action B
m >> n = m >>= λ _. n

abbrev pub restore : {A : Type 0} → Db → Result DbError A × Db → Result DbError A × Db
restore before (ok a, after) = (ok a, after)
restore before (err e, after) = (err e, before)

-- `#withImmediateTransaction`: COMMIT what returns, ROLLBACK what throws. SQLite takes the BEGIN IMMEDIATE and
-- the COMMIT here, and a ROLLBACK gives back the database of the BEGIN, as SQLite documents; the
-- errors of these three statements are not modelled.
unfoldable pub transaction : {A : Type 0} → Action A → Action A
transaction m db = restore db (m db)
