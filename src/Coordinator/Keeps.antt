-- ===== src/Coordinator/Keeps.antt =====
-- src/coordinator.ts: which parts of #executeStep leave the rows of artifacts where they are. None of
-- them deletes one.
use agent_control_center_cor.Base.{
  ℕ, String, Bool, true, false, Option, none, some, List, [], ◌∷◌, ◌++◌, Result, ok, err, ◌≡◌, refl,
  sym, ap, ◌∙◌, subst, inl, inr, if_lem,
}
use agent_control_center_cor.Base.Order.{IsRow}
use agent_control_center_cor.Json.{Json}
use agent_control_center_cor.Db.State.{
  Db, DbError, ArtifactRow, RunRow, RouteStepRow, RouteStepStatus, EventLevel,
}
use agent_control_center_cor.Db.Action.{
  Action, ◌>>=◌ as then_action, continue as continue_action, pure as return_action, gets, required,
  check, lift, update_runs, update_steps,
}
use agent_control_center_cor.Db.Insert.{insert_event}
use agent_control_center_cor.Db.Journal.{append_event}
use agent_control_center_cor.Db.Runs.{Patch, UpdateRunPatch, update_run, update_route_step}
use agent_control_center_cor.Coordinator.{
  Worker, Scene, Attempt, Captured, pure, throw, io, continue, ◌>>=◌, modify, on_db, job_db,
  publish, refuse_if, register,
}

-- every artifact that was registered is registered still
abbrev pub Kept : Db → Db → Type 0
Kept before after = (row : ArtifactRow) → IsRow row before.artifacts → IsRow row after.artifacts

-- A method of the database that does not write the artifacts
pub record Spares {A : Type 0} (m : Action A) : Type 0 where
  pub at : (db : Db) → (m db).1.artifacts ≡ db.artifacts

module _ {A : Type 0} where
  Spares-required : (o : Option A) (e : DbError) → Spares (required o e)
  unfolding required
  Spares-required none e = record { at = λ db. refl }
  Spares-required (some a) e = record { at = λ db. refl }

  Spares-gets : (f : Db → A) → Spares (gets f)
  unfolding gets
  Spares-gets f = record { at = λ db. refl }

  Spares-lift : (r : Result DbError A) → Spares (lift r)
  unfolding lift
  Spares-lift r = record { at = λ db. refl }

Spares-check : (b : Bool) (e : DbError) → Spares (check b e)
unfolding check
Spares-check true e = record { at = λ db. refl }
Spares-check false e = record { at = λ db. refl }

Spares-update_runs : (p : RunRow → Bool) (f : RunRow → RunRow) → Spares (update_runs p f)
unfolding update_runs
Spares-update_runs p f = record { at = λ db. refl }

Spares-update_steps :
    (p : RouteStepRow → Bool) (f : RouteStepRow → RouteStepRow) → Spares (update_steps p f)
unfolding update_steps
Spares-update_steps p f = record { at = λ db. refl }

module _ {A B : Type 0} where
  continued :
      (r : Result DbError A) (f : A → Action B)
      → ((a : A) → Spares (f a))
      → Spares (continue_action r f)
  continued (ok a) f k = k a
  continued (err e) f k = record { at = λ db. refl }

  Spares-bind :
      (m : Action A) (f : A → Action B)
      → Spares m
      → ((a : A) → Spares (f a))
      → Spares (then_action m f)
  unfolding agent_control_center_cor.Db.Action.◌>>=◌
  Spares-bind m f km kf = record {
    at = λ db. let (r, db') = m db in (continued r f kf).at db' ∙ km.at db;
  }

ruleset spares_rules = (
  Spares-required, Spares-gets, Spares-lift, Spares-check, Spares-update_runs, Spares-update_steps,
  Spares-bind,
)

Spares-update_run :
    (seen : Db) (run_id : String) (patch : UpdateRunPatch) (updated_at : ℕ)
    → Spares (update_run seen run_id patch updated_at)
unfolding update_run
Spares-update_run seen run_id patch updated_at = search spares_rules depth 14

Spares-update_route_step :
    (seen : Db) (step_id : String) (status : Patch RouteStepStatus) (run_id : Patch (Option String))
    (updated_at : ℕ)
    → Spares (update_route_step seen step_id status run_id updated_at)
unfolding update_route_step
Spares-update_route_step seen step_id status run_id updated_at = search spares_rules

Spares-append_event :
    (task_id : String) (run_id : Option String) (type : String) (level : Option EventLevel)
    (message : String) (data_json : Option Json) (created_at : ℕ)
    → Spares (append_event task_id run_id type level message data_json created_at)
unfolding append_event insert_event
Spares-append_event task_id run_id type level message data_json created_at = record {
  at = λ db.
      if_lem (λ (r : Result DbError ℕ × Db). r.1.artifacts ≡ db.artifacts) _ _ _ (λ h. refl)
        (λ h. refl);
}

-- A part of the step that keeps the artifacts, whether it returns or throws
pub record Keeps {A : Type 0} (m : Attempt A) : Type 0 where
  pub at : (scene : Scene) → Kept scene.worker.db (m scene).1.worker.db

module _ {A : Type 0} where
  pub Keeps-pure : (a : A) → Keeps (pure a)
  Keeps-pure a = record { at = λ scene row here. here }

  pub Keeps-throw : (message : String) → Keeps (throw {A = A} message)
  Keeps-throw message = record { at = λ scene row here. here }

  pub Keeps-io : (r : Result String A) → Keeps (io r)
  Keeps-io r = record { at = λ scene row here. here }

  pub Keeps-on_db :
      (message_of : DbError → String) (method : Db → Action A)
      → ((seen : Db) → Spares (method seen))
      → Keeps (on_db message_of method)
  unfolding on_db job_db
  Keeps-on_db message_of method k = record {
    at = λ scene row here. let db = scene.worker.db in subst (IsRow row) (sym ((k db).at db)) here;
  }

pub Keeps-refuse_if : (b : Bool) (message : String) → Keeps (refuse_if b message)
Keeps-refuse_if true message = record { at = λ scene row here. here }
Keeps-refuse_if false message = record { at = λ scene row here. here }

pub Keeps-modify : (f : Worker → Worker) → ((x : Worker) → Kept x.db (f x).db) → Keeps (modify f)
Keeps-modify f k = record { at = λ scene. k scene.worker }

module _ {A B : Type 0} where
  went_on :
      (r : Result String A) (f : A → Attempt B) (scene : Scene)
      → ((a : A) → Keeps (f a))
      → Kept scene.worker.db (continue r f scene).1.worker.db
  went_on (ok a) f scene k = (k a).at scene
  went_on (err message) f scene k = λ row here. here

  pub Keeps-bind :
      (m : Attempt A) (f : A → Attempt B) → Keeps m → ((a : A) → Keeps (f a)) → Keeps (m >>= f)
  unfolding ◌>>=◌
  Keeps-bind m f km kf = record {
    at = λ scene row here. went_on (m scene).0 f (m scene).1 kf row (km.at scene row here);
  }

pub Keeps-publish :
    (message_of : DbError → String) (task_id : String) (run_id : Option String) (type : String)
    (level : Option EventLevel) (message : String) (data_json : Option Json) (now : ℕ)
    → Keeps (publish message_of task_id run_id type level message data_json now)
unfolding publish
Keeps-publish message_of task_id run_id type level message data_json now =
    Keeps-on_db message_of _
      (λ seen. Spares-append_event task_id run_id type level message data_json now)

pub Keeps-update_run :
    (message_of : DbError → String) (run_id : String) (patch : UpdateRunPatch) (now : ℕ)
    → Keeps (on_db message_of (λ seen. update_run seen run_id patch now))
Keeps-update_run message_of run_id patch now =
    Keeps-on_db message_of _ (λ seen. Spares-update_run seen run_id patch now)

pub Keeps-update_route_step :
    (message_of : DbError → String) (step_id : String) (status : Patch RouteStepStatus)
    (run_id : Patch (Option String)) (now : ℕ)
    → Keeps (on_db message_of (λ seen. update_route_step seen step_id status run_id now))
Keeps-update_route_step message_of step_id status run_id now =
    Keeps-on_db message_of _ (λ seen. Spares-update_route_step seen step_id status run_id now)

module _ {A : Type 0} where
  append-IsRow_left : (x : A) (xs ys : List A) → IsRow x xs → IsRow x (xs ++ ys)
  append-IsRow_left x [] ys row = absurd row
  append-IsRow_left x (y ∷ xs) ys (inl same) = inl same
  append-IsRow_left x (y ∷ xs) ys (inr later) = inr (append-IsRow_left x xs ys later)

  append-IsRow_right : (x : A) (xs ys : List A) → IsRow x ys → IsRow x (xs ++ ys)
  append-IsRow_right x [] ys row = row
  append-IsRow_right x (y ∷ xs) ys row = inr (append-IsRow_right x xs ys row)

pub Keeps-register : (captured : Captured) → Keeps (register captured)
Keeps-register captured = record {
  at = λ scene row here. append-IsRow_left row scene.worker.db.artifacts captured.rows here;
}

-- the rows that a capture registers are there
abbrev pub AreRegistered : List ArtifactRow → Db → Type 0
AreRegistered rows db = (row : ArtifactRow) → IsRow row rows → IsRow row db.artifacts

pub register-AreRegistered :
    (captured : Captured) (scene after : Scene) (u : Unit {0})
    → register captured scene ≡ (ok u, after)
    → AreRegistered captured.rows after.worker.db
register-AreRegistered captured scene after u h row here =
    subst (λ (x : Scene). IsRow row x.worker.db.artifacts) (ap (λ r. r.1) h)
      (append-IsRow_right row scene.worker.db.artifacts captured.rows here)
