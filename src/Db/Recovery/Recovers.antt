-- ===== src/Db/Recovery/Recovers.antt =====
-- What a recovery that returns has done: to every lost task, to its runs, and to nothing else.
use agent_control_center_cor.Base.{
  ℕ, String, ◌≡◌, ◌≢◌, ◌⊎◌, refl, sym, ap, ◌∙◌, subst, inl, inr, false, none, List, [], ◌∷◌, arith,
  All, ok, eq_iff,
}
use agent_control_center_cor.Base.Order.{
  IsRow, All-weaken, All-IsRow, IsRow-select_where, IsRow-order_by,
}
use agent_control_center_cor.Protocol.{RunStatus, TaskStatus}
use agent_control_center_cor.Db.State.{Db, TaskRow, RunRow}
use agent_control_center_cor.Db.Action.{update_runs}
use agent_control_center_cor.Db.Action.Returns.{
  transaction-ok, check-ok, bind-ok, pure-ok, gets-ok, update_tasks-ok, update_steps-ok,
}
use agent_control_center_cor.Db.Legal.{Evolves, Evolves-refl, Evolves-update_where}
use agent_control_center_cor.Db.Recovery.{
  Lost, StaleRecoveryResult, recover_run, recover_runs, recover_task, recover_tasks,
  recover_running_tasks, is_active, is_lost, lost_tasks, active_runs, no_result,
}
use agent_control_center_cor.Db.Recovery.Legal.{NoneNew}
use agent_control_center_cor.Db.Recovery.Closes.{IsActive, active_runs-IsActive, lost_run-RunCloses}
use agent_control_center_cor.Db.Recovery.Rows.{
  All-of-rows, select_where-IsRow, order_by-IsRow, Evolves-All, Evolves-with,
}
use agent_control_center_cor.Db.Recovery.Steps.{
  IsLost, is_lost-IsLost, IsLost-is_lost, Blocks, Ends, IsEnded, Ends-IsEnded, Stage, Stage-trans,
  Stage-same, insert_event-keeps, AreLeft, left_closed, active_runs-AreLeft, none_left-IsEnded,
  claims-IsLost, AreLost, Blocks-AreLost, lost_blocked,
}

module _ (iso : ℕ → String) (lost : Lost) (recovered_by : String) (recovered_at : ℕ)
    (IsTask : String → Type 0) where
  recover_run-Stage :
      (task_id : String) (run : RunRow) (runs : List RunRow) (result found : StaleRecoveryResult)
      (db after : Db)
      → IsActive run
      → IsTask task_id
      → AreLeft task_id (run ∷ runs) db.runs
      → recover_run iso lost recovered_by recovered_at task_id run result db ≡ (ok found, after)
      → Stage lost IsTask db after × AreLeft task_id runs after.runs
  unfolding recover_run update_runs
  recover_run-Stage task_id run runs result found db after active task left h =
      let (changes, (db1, (wrote, h1))) = bind-ok _ _ (gets-ok _ _ h) in
      let (one, h2) = check-ok _ _ _ h1 in
      let (event, (db2, (told, h3))) = bind-ok _ _ h2 in
      let (same, last) = pure-ok _ h3 in
      let (same_tasks, same_runs) = insert_event-keeps _ _ _ _ _ _ _ db1 db2 event told in
      let written_runs =
        ap (λ (d : Db). d.runs) (sym last) ∙ same_runs ∙ ap (λ r. r.1.runs) (sym wrote) in
      let kept_tasks =
        ap (λ (d : Db). d.tasks) (sym last) ∙ same_tasks ∙ ap (λ r. r.1.tasks) (sym wrote) in
      (
        record {
          tasks =
              subst (Evolves (Blocks lost) NoneNew db.tasks) (sym kept_tasks)
                (Evolves-refl (Blocks lost) NoneNew (λ t. inl refl) db.tasks);
          runs = subst (Evolves (Ends IsTask) NoneNew db.runs) (sym written_runs) (
              Evolves-update_where (Ends IsTask) NoneNew (λ r. (inl refl, inl refl)) _ _ db.runs
                λ r met. (
                  lost_run-RunCloses run.status _ recovered_at r active (ground arith),
                  inr (subst IsTask (sym ((eq_iff r.task_id task_id).0 (ground arith))) task),
                ));
        },
        subst (AreLeft task_id runs) (sym written_runs)
            (left_closed task_id _ recovered_at run runs db.runs active left),
      )

  recover_runs-Stage :
      (task_id : String) (runs : List RunRow) (result found : StaleRecoveryResult) (db after : Db)
      → All IsActive runs
      → IsTask task_id
      → AreLeft task_id runs db.runs
      → recover_runs iso lost recovered_by recovered_at task_id runs result db ≡ (ok found, after)
      → Stage lost IsTask db after × AreLeft task_id [] after.runs
  unfolding recover_runs
  recover_runs-Stage task_id [] result found db after active task left h =
      let (same, last) = pure-ok _ h in
      (
        Stage-same lost IsTask db after (ap (λ (d : Db). d.tasks) (sym last))
            (ap (λ (d : Db). d.runs) (sym last)),
        subst (λ (d : Db). AreLeft task_id [] d.runs) last left,
      )
  recover_runs-Stage task_id (run ∷ runs) result found db after active task left h =
      let (next, (db1, (closed, h1))) = bind-ok _ _ h in
      let (first, still) =
        recover_run-Stage task_id run runs result next db db1 active.0 task left closed in
      let (rest, none_left) =
        recover_runs-Stage task_id runs next found db1 after active.1 task still h1 in
      (Stage-trans lost IsTask db db1 after first rest, none_left)

  recover_task-Stage :
      (task : TaskRow) (tasks : List TaskRow) (result found : StaleRecoveryResult) (db after : Db)
      → IsLost lost task
      → IsTask task.id
      → AreLost lost (task ∷ tasks) db.tasks
      → recover_task iso lost recovered_by recovered_at task result db ≡ (ok found, after)
      → Stage lost IsTask db after
        × (AreLost lost tasks after.tasks × All (IsEnded task.id) after.runs)
  unfolding recover_task
  recover_task-Stage task tasks result found db after is_one is_task left h =
      let (closed, (db1, (ran, h1))) = bind-ok _ _ (gets-ok _ _ h) in
      let h2 = update_steps-ok db1 _ _ _ h1 in
      let (one, h3) = check-ok _ _ _ (update_tasks-ok _ _ _ _ h2) in
      let (event, (db2, (told, h4))) = bind-ok _ _ h3 in
      let (same, last) = pure-ok _ h4 in
      let (same_tasks, same_runs) = insert_event-keeps _ _ _ _ _ _ _ _ db2 event told in
      let (runs_done, none_left) =
        recover_runs-Stage task.id (active_runs task.id db) result closed db db1
          (active_runs-IsActive task.id db) is_task (active_runs-AreLeft task.id db) ran in
      let written = ap (λ (d : Db). d.tasks) (sym last) ∙ same_tasks in
      let kept_runs = ap (λ (d : Db). d.runs) (sym last) ∙ same_runs in
      (
        Stage-trans lost IsTask db db1 after runs_done (record {
          tasks = subst (Evolves (Blocks lost) NoneNew db1.tasks) (sym written) (
              Evolves-update_where (Blocks lost) NoneNew (λ t. inl refl) _ _ db1.tasks
                λ t met. inr (claims-IsLost lost task t is_one met, refl, refl, refl, refl));
          runs =
              subst (Evolves (Ends IsTask) NoneNew db1.runs) (sym kept_runs)
                (Evolves-refl (Ends IsTask) NoneNew (λ r. (inl refl, inl refl)) db1.runs);
        }),
        (
          subst (AreLost lost tasks) (sym written) (
              lost_blocked lost task tasks db1.tasks _ (λ t. refl)
                (Blocks-AreLost lost (task ∷ tasks) db.tasks db1.tasks runs_done.tasks left)),
          subst (All (IsEnded task.id)) (sym kept_runs)
              (none_left-IsEnded task.id db1.runs none_left),
        ),
      )

  recover_tasks-Stage :
      (tasks : List TaskRow) (result found : StaleRecoveryResult) (db after : Db)
      → All (λ t. IsLost lost t × IsTask t.id) tasks
      → AreLost lost tasks db.tasks
      → recover_tasks iso lost recovered_by recovered_at tasks result db ≡ (ok found, after)
      → Stage lost IsTask db after
        × (AreLost lost [] after.tasks × All (λ t. All (IsEnded t.id) after.runs) tasks)
  unfolding recover_tasks
  recover_tasks-Stage [] result found db after ones left h =
      let (same, last) = pure-ok _ h in
      (
        Stage-same lost IsTask db after (ap (λ (d : Db). d.tasks) (sym last))
            (ap (λ (d : Db). d.runs) (sym last)),
        (subst (λ (d : Db). AreLost lost [] d.tasks) last left, tt),
      )
  recover_tasks-Stage (task ∷ tasks) result found db after ones left h =
      let (next, (db1, (closed, h1))) = bind-ok _ _ h in
      let (first, (still, ended)) =
        recover_task-Stage task tasks result next db db1 ones.0.0 ones.0.1 left closed in
      let (rest, (none_left, all_ended)) =
        recover_tasks-Stage tasks next found db1 after ones.1 still h1 in
      (
        Stage-trans lost IsTask db db1 after first rest,
        (
          none_left,
          (
            Evolves-All (Ends IsTask) (IsEnded task.id) (IsEnded task.id)
                (Ends-IsEnded IsTask task.id) db1.runs after.runs rest.runs ended,
            all_ended,
          ),
        ),
      )

-- the id of a lost task of the database
abbrev pub IsLostId : Lost → Db → String → Type 0
IsLostId lost db id = (t : TaskRow) × (IsRow t db.tasks × (IsLost lost t × (t.id ≡ id)))

-- Of a task: it was lost and is blocked and released, or it was not and is as it was.
abbrev pub TaskRecovers : Lost → TaskRow → TaskRow → Type 0
TaskRecovers lost t u =
    (IsLost lost t
      × (u.id ≡ t.id)
      × (u.status ≡ TaskStatus.blocked)
      × (u.claimed_by ≡ none)
      × (u.claimed_at ≡ none))
    ⊎ ((IsLost lost t → ⊥) × (u ≡ t))

-- Every task and every run, in its place in the table; and the active runs of lost tasks.
pub record Recovers (lost : Lost) (before after : Db) : Type 0 where
  pub tasks : Evolves (TaskRecovers lost) NoneNew before.tasks after.tasks
  pub runs : Evolves (Ends (IsLostId lost before)) NoneNew before.runs after.runs
  pub ended :
      (t : TaskRow)
      → IsRow t before.tasks
      → IsLost lost t
      → All
          (λ (r : RunRow).
            r.task_id ≡ t.id → (r.status ≢ RunStatus.starting) × (r.status ≢ RunStatus.running))
          after.runs

inactive :
    (s : RunStatus) → is_active s ≡ false → (s ≢ RunStatus.starting) × (s ≢ RunStatus.running)
inactive s h = ((λ e. ground arith), (λ e. ground arith))

Blocks-TaskRecovers :
    (lost : Lost) (t u : TaskRow)
    → Blocks lost t u
    → (IsLost lost u → IsRow u [])
    → TaskRecovers lost t u
Blocks-TaskRecovers lost t u (inr b) h = inl b
Blocks-TaskRecovers lost t u (inl same) h =
    inr (subst (λ x. IsLost lost x → ⊥) same (λ k. absurd (h k)), same)

-- A recovery that returns has blocked and released exactly the lost tasks: those that are running and,
-- for a dead owner, claimed by it or, for a cutoff, claimed before it; every other task is as it was. No
-- run of a lost task is active any more. A run changes only if its task is lost, and then from
-- running to stale or from starting to failed.
pub recover_running_tasks-Recovers :
    (iso : ℕ → String) (lost : Lost) (recovered_by : String) (recovered_at : ℕ) (db after : Db)
    (result : StaleRecoveryResult)
    → recover_running_tasks iso lost recovered_by recovered_at db ≡ (ok result, after)
    → Recovers lost db after
unfolding recover_running_tasks lost_tasks
recover_running_tasks-Recovers iso lost recovered_by recovered_at db after result h =
    let (named, h1) = check-ok _ _ _ h in
    let h2 = gets-ok _ _ (transaction-ok _ h1) in
    let ones =
      All-of-rows (λ t. IsLost lost t × IsLostId lost db t.id) (lost_tasks lost db)
        λ t row.
          let (here, met) = IsRow-select_where _ t db.tasks (IsRow-order_by _ t _ row) in
          let is_one = is_lost-IsLost lost t met in (is_one, (t, (here, (is_one, refl)))) in
    let all_of = λ (t : TaskRow) (row : IsRow t db.tasks) (is_one : IsLost lost t).
      order_by-IsRow _ t _
        (select_where-IsRow (is_lost lost) t db.tasks row (IsLost-is_lost lost t is_one)) in
    let (stage, (none_left, all_ended)) =
      recover_tasks-Stage iso lost _ recovered_at (IsLostId lost db) (lost_tasks lost db) no_result
        result db after ones (All-of-rows _ db.tasks all_of) h2 in
    record {
      tasks =
          Evolves-with (Blocks lost) (TaskRecovers lost) (λ t. IsLost lost t → IsRow t [])
            (Blocks-TaskRecovers lost) db.tasks after.tasks stage.tasks none_left;
      runs = stage.runs;
      ended = λ t row is_one.
          All-weaken (IsEnded t.id) _ after.runs (λ r h e. inactive r.status (h e))
            (All-IsRow (λ t. All (IsEnded t.id) after.runs) t (lost_tasks lost db) all_ended
              (all_of t row is_one));
    }
