-- ===== src/Db/Recovery/Steps.antt =====
-- src/db.ts: what the writes of a recovery do to the rows of lost tasks and to their runs.
use agent_control_center_cor.Base.{
  ℕ, String, ◌<◌, ◌≡◌, ◌⊎◌, refl, sym, ap, ◌∙◌, subst, inl, inr, Bool, true, false, ◌&&◌, Option,
  none, some, List, [], ◌∷◌, arith, All, ok, eq_iff, eq_refl, ◌==◌, ltb, Bool-cases, update_where,
}
use agent_control_center_cor.Base.Order.{IsRow, All-weaken}
use agent_control_center_cor.Protocol.{RunStatus, TaskStatus, same_run_status, same_task_status}
use agent_control_center_cor.Db.State.{Db, TaskRow, RunRow, EventLevel}
use agent_control_center_cor.Json.{Json}
use agent_control_center_cor.Db.Runs.{is_same}
use agent_control_center_cor.Db.Insert.{insert_event}
use agent_control_center_cor.Db.Legal.{Evolves, Evolves-refl, Quiet, quiet_rules}
use agent_control_center_cor.Db.Recovery.{
  Lost, is_same_time, expired_before, owned_by, lost_status, lost_run, is_active, is_lost,
  active_runs, claimed_before,
}
use agent_control_center_cor.Db.Recovery.Legal.{RunCloses, RunCloses-trans, NoneNew, Evolves-trans}
use agent_control_center_cor.Db.Recovery.Closes.{IsActive}
use agent_control_center_cor.Db.Recovery.Rows.{
  All-improve, All-of-rows, select_where-IsRow, order_by-IsRow, Evolves-All,
}

-- A running task of the worker that is gone, or one whose last heartbeat is before the cutoff.
abbrev pub IsLost : Lost → TaskRow → Type 0
IsLost (owned_by worker) t = (t.status ≡ TaskStatus.running) × (t.claimed_by ≡ some worker)
IsLost (expired_before cutoff) t =
    (t.status ≡ TaskStatus.running) × ((at : ℕ) × ((t.claimed_at ≡ some at) × (at < cutoff)))

pub is_same-some : (o : Option String) (s : String) → is_same o (some s) ≡ true → o ≡ some s
is_same-some none s h = cc
is_same-some (some x) s h = ap some ((eq_iff x s).0 h)

pub claimed_before-some :
    (cutoff : ℕ) (o : Option ℕ)
    → claimed_before cutoff o ≡ true
    → (at : ℕ) × ((o ≡ some at) × (at < cutoff))
claimed_before-some cutoff none h = cc
claimed_before-some cutoff (some at) h = (at, (refl, ground arith))

pub is_lost-IsLost : (lost : Lost) (t : TaskRow) → is_lost lost t ≡ true → IsLost lost t
is_lost-IsLost (owned_by worker) t h =
    (ground arith, is_same-some t.claimed_by worker (ground arith))
is_lost-IsLost (expired_before cutoff) t h =
    (ground arith, claimed_before-some cutoff t.claimed_at (ground arith))

pub IsLost-is_lost : (lost : Lost) (t : TaskRow) → IsLost lost t → is_lost lost t ≡ true
IsLost-is_lost (owned_by worker) t (running, owner) =
    let one = ap (λ o. is_same o (some worker)) owner ∙ eq_refl worker in
    let still = ap (λ s. same_task_status s TaskStatus.running) running in ground arith
IsLost-is_lost (expired_before cutoff) t (running, (at, (same, past))) =
    let early : claimed_before cutoff t.claimed_at ≡ true =
      ap (claimed_before cutoff) same ∙ ltb-true at cutoff past in
    let still = ap (λ s. same_task_status s TaskStatus.running) running in ground arith
  where
    ltb-true : (a b : ℕ) → a < b → ltb a b ≡ true
    ltb-true a b h = ground arith

pub IsLost-running : (lost : Lost) (t : TaskRow) → IsLost lost t → t.status ≡ TaskStatus.running
IsLost-running (owned_by worker) t h = h.0
IsLost-running (expired_before cutoff) t h = h.0

-- Of a task, while the recovery goes on
abbrev pub Blocks : Lost → TaskRow → TaskRow → Type 0
Blocks lost t u =
    (u ≡ t)
    ⊎ (IsLost lost t
        × (u.id ≡ t.id)
        × (u.status ≡ TaskStatus.blocked)
        × (u.claimed_by ≡ none)
        × (u.claimed_at ≡ none))

pub Blocks-trans :
    (lost : Lost) (t u v : TaskRow) → Blocks lost t u → Blocks lost u v → Blocks lost t v
Blocks-trans lost t u v (inl same) k = subst (λ x. Blocks lost x v) same k
Blocks-trans lost t u v (inr h) (inl same) = subst (Blocks lost t) (sym same) (inr h)
Blocks-trans lost t u v (inr h) (inr k) = absurd (clash h.2 (IsLost-running lost u k.0))
  where
    clash : u.status ≡ TaskStatus.blocked → u.status ≡ TaskStatus.running → ⊥
    clash a b = cc

-- Of a run: it moves as `RunCloses` says, and only if its task is one of those given.
abbrev pub Ends : (String → Type 0) → RunRow → RunRow → Type 0
Ends IsTask r s = RunCloses r s × ((s ≡ r) ⊎ IsTask r.task_id)

pub Ends-trans :
    (IsTask : String → Type 0) (r s u : RunRow)
    → Ends IsTask r s
    → Ends IsTask s u
    → Ends IsTask r u
Ends-trans IsTask r s u (a, inr task) (b, c) = (RunCloses-trans r s u a b, inr task)
Ends-trans IsTask r s u (a, inl same) k = subst (λ x. Ends IsTask x u) same k

abbrev pub IsEnded : String → RunRow → Type 0
IsEnded task_id r = r.task_id ≡ task_id → is_active r.status ≡ false

pub Ends-IsEnded :
    (IsTask : String → Type 0) (task_id : String) (r s : RunRow)
    → Ends IsTask r s
    → IsEnded task_id r
    → IsEnded task_id s
Ends-IsEnded IsTask task_id r s (inl same, k) h = subst (IsEnded task_id) (sym same) h
Ends-IsEnded IsTask task_id r s (inr closed, k) h = λ e. ended closed.3
  where
    ended :
        (r.status ≡ RunStatus.running × s.status ≡ RunStatus.stale)
          ⊎ (r.status ≡ RunStatus.starting × s.status ≡ RunStatus.failed)
        → is_active s.status ≡ false
    ended (inl (a, b)) = ap is_active b
    ended (inr (a, b)) = ap is_active b

module _ (lost : Lost) (IsTask : String → Type 0) where
  -- what a part of the recovery has done so far
  pub record Stage (before after : Db) : Type 0 where
    pub tasks : Evolves (Blocks lost) NoneNew before.tasks after.tasks
    pub runs : Evolves (Ends IsTask) NoneNew before.runs after.runs

  pub Stage-trans : (a b c : Db) → Stage a b → Stage b c → Stage a c
  Stage-trans a b c h k = record {
    tasks = Evolves-trans (Blocks lost) (Blocks-trans lost) a.tasks b.tasks c.tasks h.tasks k.tasks;
    runs = Evolves-trans (Ends IsTask) (Ends-trans IsTask) a.runs b.runs c.runs h.runs k.runs;
  }

  pub Stage-same : (a b : Db) → b.tasks ≡ a.tasks → b.runs ≡ a.runs → Stage a b
  Stage-same a b same_tasks same_runs = record {
    tasks =
        subst (Evolves (Blocks lost) NoneNew a.tasks) (sym same_tasks)
          (Evolves-refl (Blocks lost) NoneNew (λ t. inl refl) a.tasks);
    runs =
        subst (Evolves (Ends IsTask) NoneNew a.runs) (sym same_runs)
          (Evolves-refl (Ends IsTask) NoneNew (λ r. (inl refl, inl refl)) a.runs);
  }

pub insert_event-keeps :
    (task_id : String) (run_id : Option String) (type : String) (level : EventLevel)
    (message : String) (data_json : Option Json) (created_at : ℕ) (db after : Db) (n : ℕ)
    → insert_event task_id run_id type level message data_json created_at db ≡ (ok n, after)
    → (after.tasks ≡ db.tasks) × (after.runs ≡ db.runs)
insert_event-keeps task_id run_id type level message data_json created_at db after n e =
    let quiet : Quiet (insert_event task_id run_id type level message data_json created_at) =
      search quiet_rules in
    (ap (λ r. r.1.tasks) (sym e) ∙ quiet.tasks db, ap (λ r. r.1.runs) (sym e) ∙ quiet.runs db)

-- The active runs of the task are among those that are still to be closed.
abbrev pub AreLeft : String → List RunRow → List RunRow → Type 0
AreLeft task_id runs rows =
    All (λ (r : RunRow). r.task_id ≡ task_id → is_active r.status ≡ true → IsRow r runs) rows

abbrev pub matches : String → RunRow → RunRow → Bool
matches task_id run r =
    r.id == run.id && r.task_id == task_id && same_run_status r.status run.status

pub same_run_status_refl : (s : RunStatus) → same_run_status s s ≡ true
same_run_status_refl s = ground arith

pub left_closed :
    (task_id error : String) (recovered_at : ℕ) (run : RunRow) (runs rows : List RunRow)
    → IsActive run
    → AreLeft task_id (run ∷ runs) rows
    → AreLeft task_id runs (
        update_where
          (matches task_id run)
          (lost_run (lost_status run.status) error recovered_at)
          rows)
left_closed task_id error recovered_at run runs rows active left =
    All-improve
      (λ (r : RunRow). r.task_id ≡ task_id → is_active r.status ≡ true → IsRow r (run ∷ runs))
      (λ (r : RunRow). r.task_id ≡ task_id → is_active r.status ≡ true → IsRow r runs)
      (matches task_id run) (lost_run (lost_status run.status) error recovered_at) rows
      (λ r h met e now_active. absurd (ended run.status now_active))
      (λ r h other e still. elim (h e still) [
        | inl same ↦ absurd (unmatched r same e other)
        | inr later ↦ later
      ])
      left
  where
    ended : (s : RunStatus) → is_active (lost_status s) ≡ true → ⊥
    ended s h = ground arith

    unmatched : (r : RunRow) → run ≡ r → r.task_id ≡ task_id → matches task_id run r ≡ false → ⊥
    unmatched r same e other =
        let a = (eq_iff r.id run.id).1 (ap (λ (x : RunRow). x.id) (sym same)) in
        let b = (eq_iff r.task_id task_id).1 e in
        let c =
          subst (λ (x : RunRow). same_run_status r.status x.status ≡ true) (sym same)
            (same_run_status_refl r.status) in
        ground arith

pub active_runs-AreLeft :
    (task_id : String) (db : Db) → AreLeft task_id (active_runs task_id db) db.runs
unfolding active_runs
active_runs-AreLeft task_id db = All-of-rows _ db.runs λ r row e active.
    let here = (eq_iff r.task_id task_id).1 e in
    order_by-IsRow _ r _ (select_where-IsRow _ r db.runs row (ground arith))

pub none_left-IsEnded :
    (task_id : String) (runs : List RunRow) → AreLeft task_id [] runs → All (IsEnded task_id) runs
none_left-IsEnded task_id runs left =
    All-weaken _ (IsEnded task_id) runs
      (λ r h e. elim (Bool-cases (is_active r.status)) [
        | inl active ↦ absurd (h e active)
        | inr ended ↦ ended
      ])
      left

-- the WHERE clause by which `recover_task` writes
abbrev pub claims : TaskRow → TaskRow → Bool
claims task t =
    t.id == task.id
    && same_task_status t.status TaskStatus.running
    && is_same_time t.claimed_at task.claimed_at
    && is_same t.claimed_by task.claimed_by

pub is_same_time_lem : (o p : Option ℕ) → is_same_time o p ≡ true → o ≡ p
is_same_time_lem none none h = refl
is_same_time_lem none (some b) h = cc
is_same_time_lem (some a) none h = cc
is_same_time_lem (some a) (some b) h = ap some (ground arith)

pub is_same_time_refl : (o : Option ℕ) → is_same_time o o ≡ true
is_same_time_refl none = refl
is_same_time_refl (some a) = ground arith

pub is_same_lem : (o p : Option String) → is_same o p ≡ true → o ≡ p
is_same_lem none none h = refl
is_same_lem none (some b) h = cc
is_same_lem (some a) none h = cc
is_same_lem (some a) (some b) h = ap some ((eq_iff a b).0 h)

pub is_same_refl : (o : Option String) → is_same o o ≡ true
is_same_refl none = refl
is_same_refl (some a) = eq_refl a

pub claims-IsLost :
    (lost : Lost) (task t : TaskRow) → IsLost lost task → claims task t ≡ true → IsLost lost t
claims-IsLost (owned_by worker) task t h met =
    (ground arith, is_same_lem t.claimed_by task.claimed_by (ground arith) ∙ h.1)
claims-IsLost (expired_before cutoff) task t (running, (at, (same, past))) met = (
  ground arith,
  (at, (is_same_time_lem t.claimed_at task.claimed_at (ground arith) ∙ same, past)),
)

pub claims_refl : (task : TaskRow) → task.status ≡ TaskStatus.running → claims task task ≡ true
claims_refl task running =
    let a = eq_refl task.id in
    let b = is_same_time_refl task.claimed_at in
    let c = is_same_refl task.claimed_by in
    let d = ap (λ s. same_task_status s TaskStatus.running) running in ground arith

-- The lost tasks are among those that are still to be blocked.
abbrev pub AreLost : Lost → List TaskRow → List TaskRow → Type 0
AreLost lost tasks rows = All (λ (t : TaskRow). IsLost lost t → IsRow t tasks) rows

pub IsLost-blocked : (lost : Lost) (t : TaskRow) → t.status ≡ TaskStatus.blocked → IsLost lost t → ⊥
IsLost-blocked lost t blocked h = clash blocked (IsLost-running lost t h)
  where
    clash : t.status ≡ TaskStatus.blocked → t.status ≡ TaskStatus.running → ⊥
    clash a b = cc

pub Blocks-AreLost :
    (lost : Lost) (tasks rows rows' : List TaskRow)
    → Evolves (Blocks lost) NoneNew rows rows'
    → AreLost lost tasks rows
    → AreLost lost tasks rows'
Blocks-AreLost lost tasks rows rows' =
    Evolves-All (Blocks lost) (λ t. IsLost lost t → IsRow t tasks)
      (λ t. IsLost lost t → IsRow t tasks) kept rows rows'
  where
    kept :
        (t u : TaskRow)
        → Blocks lost t u
        → (IsLost lost t → IsRow t tasks)
        → IsLost lost u
        → IsRow u tasks
    kept t u (inl same) h = subst (λ x. IsLost lost x → IsRow x tasks) (sym same) h
    kept t u (inr b) h = λ again. absurd (IsLost-blocked lost u b.2 again)

pub lost_blocked :
    (lost : Lost) (task : TaskRow) (tasks rows : List TaskRow) (f : TaskRow → TaskRow)
    → ((t : TaskRow) → (f t).status ≡ TaskStatus.blocked)
    → AreLost lost (task ∷ tasks) rows
    → AreLost lost tasks (update_where (claims task) f rows)
lost_blocked lost task tasks rows f blocked left =
    All-improve (λ t. IsLost lost t → IsRow t (task ∷ tasks)) (λ t. IsLost lost t → IsRow t tasks)
      (claims task) f rows (λ t h met again. absurd (IsLost-blocked lost (f t) (blocked t) again))
      (λ t h other is_one. elim (h is_one) [
        | inl same ↦ absurd (unmatched t same (IsLost-running lost t is_one) other)
        | inr later ↦ later
      ])
      left
  where
    unmatched : (t : TaskRow) → task ≡ t → t.status ≡ TaskStatus.running → claims task t ≡ false → ⊥
    unmatched t same running other =
        clash (sym (subst (λ x. claims x t ≡ true) (sym same) (claims_refl t running)) ∙ other)
      where
        clash : true ≡ false → ⊥
        clash h = cc
