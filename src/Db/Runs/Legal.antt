-- ===== src/Db/Runs/Legal.antt =====
-- The methods of src/db.ts on runs move them along the transition table only.
use agent_control_center_cor.Base.{
  ℕ, String, ◌≡◌, refl, true, arith, Option, none, some, get_or, ok,
}
use agent_control_center_cor.Protocol.{
  RunStatus, may_move_run, assert_run_transition, same_run_status,
}
use agent_control_center_cor.Db.State.{Db, RunRow, RouteStepStatus}
use agent_control_center_cor.Db.Legal.{
  Quiet, Moves, RunStep, quiet_rules, Moves-then, Moves-insert_run, Moves-update_runs,
  Moves-required, Moves-lift,
}
use agent_control_center_cor.Db.Runs.{
  Patch, update_route_step, reset_route_steps, CreateRunInput, create_run, UpdateRunPatch,
  update_run, run_update, run_transition,
}

pub Moves-create_run :
    (seen : Db) (input : CreateRunInput) (id : String) (created_at : ℕ)
    → Moves (create_run seen input id created_at)
unfolding create_run
Moves-create_run seen input id created_at =
    Moves-then _ _ (Moves-insert_run _ refl) (λ _. search quiet_rules)

passed_transition :
    (current from : RunStatus) (next : Option RunStatus)
    → run_transition current next ≡ ok tt
    → same_run_status from current ≡ true
    → may_move_run from (get_or next current) ≡ true
unfolding assert_run_transition
passed_transition current from none passed same = ground arith
passed_transition current from (some next) passed same = ground arith

run_update-RunStep :
    (current : RunRow) (patch : UpdateRunPatch) (updated_at : ℕ) (r : RunRow)
    → run_transition current.status patch.status ≡ ok tt
    → same_run_status r.status current.status ≡ true
    → RunStep r (run_update current patch updated_at r)
run_update-RunStep current patch updated_at r passed same = record {
  same_id = refl;
  same_task = refl;
  same_attempt = refl;
  legal = passed_transition current.status r.status patch.status passed same;
}

pub Moves-update_run :
    (seen : Db) (run_id : String) (patch : UpdateRunPatch) (updated_at : ℕ)
    → Moves (update_run seen run_id patch updated_at)
unfolding update_run
Moves-update_run seen run_id patch updated_at = Moves-required _ _ _ λ current _.
    Moves-lift _ _ λ _ passed.
      Moves-then _ _
        (Moves-update_runs _ _
          λ r h. run_update-RunStep current patch updated_at r passed (ground arith))
        (λ _. search quiet_rules)

pub Quiet-update_route_step :
    (seen : Db) (step_id : String) (status : Patch RouteStepStatus) (run_id : Patch (Option String))
    (updated_at : ℕ)
    → Quiet (update_route_step seen step_id status run_id updated_at)
unfolding update_route_step
Quiet-update_route_step seen step_id status run_id updated_at = search quiet_rules

pub Quiet-reset_route_steps :
    (task_id : String) (updated_at : ℕ) → Quiet (reset_route_steps task_id updated_at)
unfolding reset_route_steps
Quiet-reset_route_steps task_id updated_at = search quiet_rules
