-- ===== src/Db/Recovery/Closes.antt =====
-- The loops of the recovery: every run that they are given is active, since it was selected so.
use agent_control_center_cor.Base.{
  ℕ, String, ◌≡◌, refl, inl, inr, Bool, true, Option, none, some, List, [], ◌∷◌, arith, All,
  select_where, order_by, insert_before,
}
use agent_control_center_cor.Protocol.{RunStatus}
use agent_control_center_cor.Db.State.{Db, TaskRow, RunRow}
use agent_control_center_cor.Db.Action.{Action}
use agent_control_center_cor.Db.Legal.{
  Moves, quiet_rules, Evolves, TaskStep, IsNewTask, RunStep, IsNewRun,
}
use agent_control_center_cor.Db.Recovery.{
  Lost, StaleRecoveryResult, recover_run, recover_runs, recover_task, recover_tasks,
  recover_running_tasks, recover_stale_tasks, recover_tasks_owned_by, expired_before, owned_by,
  lost_status, lost_run, is_active, active_runs,
}
use agent_control_center_cor.Db.Recovery.Legal.{
  Closes, Closes-Quiet, Closes-bind, Closes-transaction, Closes-update_tasks, Closes-update_runs,
  Closes-gets, closes_rules, TaskCloses, RunCloses, TaskCloses-TaskStep, RunCloses-RunStep, NoneNew,
}

module _ {A : Type 0} (P : A → Type 0) where
  pub All-select_where :
      (p : A → Bool) (xs : List A) → ((x : A) → p x ≡ true → P x) → All P (select_where p xs)
  unfolding select_where
  All-select_where p [] h = tt
  All-select_where p (x ∷ xs) h = ground (arith, h x, All-select_where p xs h)

  All-insert_before :
      (before : A → A → Bool) (x : A) (xs : List A)
      → P x
      → All P xs
      → All P (insert_before before x xs)
  unfolding insert_before
  All-insert_before before x [] h k = (h, tt)
  All-insert_before before x (y ∷ ys) h k = ground (arith, All-insert_before before x ys h k.1)

  pub All-order_by : (before : A → A → Bool) (xs : List A) → All P xs → All P (order_by before xs)
  unfolding order_by
  All-order_by before [] h = tt
  All-order_by before (x ∷ xs) h =
      All-insert_before before x (order_by before xs) h.0 (All-order_by before xs h.1)

abbrev pub IsActive : RunRow → Type 0
IsActive r = is_active r.status ≡ true

pub active_runs-IsActive : (task_id : String) (db : Db) → All IsActive (active_runs task_id db)
unfolding active_runs
active_runs-IsActive task_id db =
    All-order_by IsActive _ _ (All-select_where IsActive _ db.runs (λ r h. ground arith))

pub lost_run-RunCloses :
    (from : RunStatus) (error : String) (recovered_at : ℕ) (r : RunRow)
    → is_active from ≡ true
    → r.status ≡ from
    → RunCloses r (lost_run (lost_status from) error recovered_at r)
lost_run-RunCloses RunStatus.starting error recovered_at r active same =
    inr (refl, refl, refl, inr (same, refl))
lost_run-RunCloses RunStatus.running error recovered_at r active same =
    inr (refl, refl, refl, inl (same, refl))
lost_run-RunCloses _ error recovered_at r active same = cc

module _ (iso : ℕ → String) (lost : Lost) (recovered_by : String) (recovered_at : ℕ) where
  Closes-recover_run :
      (task_id : String) (run : RunRow) (result : StaleRecoveryResult)
      → IsActive run
      → Closes (recover_run iso lost recovered_by recovered_at task_id run result)
  unfolding recover_run
  Closes-recover_run task_id run result active =
      let write =
        λ (p : RunRow → Bool) (error : String)
            (h : (r : RunRow) → p r ≡ true → r.status ≡ run.status).
          Closes-update_runs p (lost_run (lost_status run.status) error recovered_at)
            (λ r k. lost_run-RunCloses run.status error recovered_at r active (h r k)) in
      Closes-bind _ _ (search closes_rules)
        λ found. Closes-bind _ _ (write _ _ (λ r h. ground arith)) λ changes. search closes_rules

  Closes-recover_runs :
      (task_id : String) (runs : List RunRow) (result : StaleRecoveryResult)
      → All IsActive runs
      → Closes (recover_runs iso lost recovered_by recovered_at task_id runs result)
  unfolding recover_runs
  Closes-recover_runs task_id [] result active = search closes_rules
  Closes-recover_runs task_id (run ∷ runs) result active =
      Closes-bind _ _ (Closes-recover_run task_id run result active.0)
        (λ next. Closes-recover_runs task_id runs next active.1)

  Closes-recover_task :
      (task : TaskRow) (result : StaleRecoveryResult)
      → Closes (recover_task iso lost recovered_by recovered_at task result)
  unfolding recover_task
  Closes-recover_task task result =
      Closes-gets (All IsActive) (active_runs task.id) _ (active_runs-IsActive task.id)
        λ runs active. Closes-bind _ _ (Closes-recover_runs task.id runs result active) λ closed.
          Closes-bind _ _ (search closes_rules) λ _.
            Closes-bind _ _
              (Closes-update_tasks _ _ λ t h. inr (refl, ground arith, refl, refl, refl))
              λ changes. search closes_rules

  Closes-recover_tasks :
      (tasks : List TaskRow) (result : StaleRecoveryResult)
      → Closes (recover_tasks iso lost recovered_by recovered_at tasks result)
  unfolding recover_tasks
  Closes-recover_tasks [] result = search closes_rules
  Closes-recover_tasks (task ∷ tasks) result =
      Closes-bind _ _ (Closes-recover_task task result) (Closes-recover_tasks tasks)

Closes-recover_running_tasks :
    (iso : ℕ → String) (lost : Lost) (recovered_by : String) (recovered_at : ℕ)
    → Closes (recover_running_tasks iso lost recovered_by recovered_at)
unfolding recover_running_tasks
Closes-recover_running_tasks iso lost recovered_by recovered_at =
    Closes-bind _ _ (Closes-Quiet (search quiet_rules)) λ _. Closes-transaction _ (
      Closes-bind _ _ (Closes-Quiet (search quiet_rules))
        λ tasks. Closes-recover_tasks iso lost _ recovered_at tasks _)

Evolves-weaken :
    {A : Type 0} (Step Step' : A → A → Type 0) (IsNew : A → Type 0)
    → ((x y : A) → Step x y → Step' x y)
    → (xs ys : List A) → Evolves Step NoneNew xs ys
    → Evolves Step' IsNew xs ys
Evolves-weaken Step Step' IsNew weaken [] [] h = tt
Evolves-weaken Step Step' IsNew weaken [] (y ∷ ys) h = absurd h.0
Evolves-weaken Step Step' IsNew weaken (x ∷ xs) [] h = absurd h
Evolves-weaken Step Step' IsNew weaken (x ∷ xs) (y ∷ ys) h =
    (weaken x y h.0, Evolves-weaken Step Step' IsNew weaken xs ys h.1)

Closes-Moves : {A : Type 0} {m : Action A} → Closes m → Moves m
Closes-Moves {m} k = record {
  at = λ db. record {
    tasks =
        Evolves-weaken TaskCloses TaskStep IsNewTask TaskCloses-TaskStep db.tasks (m db).1.tasks
          (k.at db).tasks;
    runs =
        Evolves-weaken RunCloses RunStep IsNewRun RunCloses-RunStep db.runs (m db).1.runs
          (k.at db).runs;
  };
}

pub Moves-recover_stale_tasks :
    (iso : ℕ → String) (cutoff : Option ℕ) (recovered_by : String) (recovered_at : ℕ)
    → Moves (recover_stale_tasks iso cutoff recovered_by recovered_at)
unfolding recover_stale_tasks
Moves-recover_stale_tasks iso none recovered_by recovered_at =
    Closes-Moves (Closes-Quiet (search quiet_rules))
Moves-recover_stale_tasks iso (some cutoff) recovered_by recovered_at =
    Closes-Moves
      (Closes-recover_running_tasks iso (expired_before cutoff) recovered_by recovered_at)

pub Moves-recover_tasks_owned_by :
    (iso : ℕ → String) (claimed_by recovered_by : String) (recovered_at : ℕ)
    → Moves (recover_tasks_owned_by iso claimed_by recovered_by recovered_at)
unfolding recover_tasks_owned_by
Moves-recover_tasks_owned_by iso claimed_by recovered_by recovered_at = Closes-Moves (
    Closes-bind _ _ (Closes-Quiet (search quiet_rules))
      (λ _. Closes-recover_running_tasks iso (owned_by _) recovered_by recovered_at))
