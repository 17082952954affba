-- ===== src/Coordinator/Evidence.antt =====
-- What a step has shown when it counts as succeeded.
use agent_control_center_cor.Base.{
  String, Bool, true, false, Option, none, some, Result, ok, err, ◌≡◌, ◌≢◌, refl, sym, ap, ◌∙◌,
  is_some, subst,
}
use agent_control_center_cor.Base.Order.{IsRow}
use agent_control_center_cor.Protocol.{RouteRole}
use agent_control_center_cor.Db.State.{Db, TaskRow, RouteStepRow}
use agent_control_center_cor.Coordinator.Keeps.{
  Kept, Keeps-modify, Keeps-update_run, Keeps-update_route_step, Keeps-register, AreRegistered,
  register-AreRegistered,
}
use agent_control_center_cor.Coordinator.{
  Worker, WorktreeInfo, AdapterResult, Scene, forget_run, after_return,
}
use agent_control_center_cor.Coordinator.Step.{
  StepWorld, StepOutcome, is_success, unavailable_reason, unavailable_step, start_agent,
}
use agent_control_center_cor.Coordinator.Step.Verification.{needs_verification}
use agent_control_center_cor.Coordinator.Step.Run.{
  finish_run, run_agent, recover, try_agent, execute_step, caught, unless_unavailable, scene_of,
}
use agent_control_center_cor.Coordinator.Verified.{
  IsVerified, IsGentle, same_value, same_state, kept, true≢false, failure_of-none, needed,
  Keeps-tell, Keeps-verify_if, later_IsVerified, verify_if-IsVerified,
}

pub record IsProven (w : StepWorld) (task : TaskRow) (step : RouteStepRow) (db : Db) : Type 0 where
  pub result : AdapterResult
  pub is_collected : w.collect_result ≡ ok result
  pub is_success : is_success result.status ≡ true
  pub source_unchanged : w.source_unchanged ≡ ok tt
  pub is_ingested : w.ingest.failure ≡ none
  pub ingested : AreRegistered w.ingest.rows db
  pub is_captured : w.review_artifacts.failure ≡ none
  pub captured : AreRegistered w.review_artifacts.rows db
  pub is_verified :
      (command : String)
      → step.role ≡ RouteRole.execute
      → task.verification_command ≡ some command
      → command ≢ ""
      → IsVerified w db

module _ (w : StepWorld) (task : TaskRow) (step : RouteStepRow) (gentle : IsGentle w) where
  -- A success at the end of the run, with the result that was collected
  finish_run-IsProven :
      (tree : WorktreeInfo) (result : AdapterResult) (scene after : Scene) (outcome : StepOutcome)
      → w.collect_result ≡ ok result
      → finish_run w task step tree result scene ≡ (ok outcome, after)
      → outcome.succeeded ≡ true
      → IsProven w task step after.worker.db
  unfolding finish_run
  finish_run-IsProven tree result scene after outcome collected h success =
      after_return _ _ scene after outcome h λ _ s1 unchanged h1.
        after_return _ _ s1 after outcome h1 λ _ s2 ingested h2.
          after_return _ _ s2 after outcome h2 λ u s3 verified h3.
            after_return _ _ s3 after outcome h3 λ _ s4 captured h4.
              after_return _ _ s4 after outcome h4 λ _ s5 ended h5.
                after_return _ _ s5 after outcome h5 λ _ s6 stepped h6.
                  after_return _ _ s6 after outcome h6 λ _ s7 told h7.
                    after_return _ _ s7 after outcome h7 λ _ s8 forgot h8.
                      let last = same_state _ outcome s8 after h8 in
                      let is_good =
                        ap (λ o. o.succeeded) (same_value _ outcome s8 after h8) ∙ success in
                      let from4 : Kept s4.worker.db after.worker.db = λ row here.
                        subst (λ (x : Scene). IsRow row x.worker.db.artifacts) last
                          (kept _ s7 s8 _ (Keeps-modify (forget_run w.run_id) (λ x row here. here))
                            forgot row
                            (kept _ s6 s7 _ (Keeps-tell w task step gentle _ _ _ _) told row (
                              kept _ s5 s6 _ (Keeps-update_route_step _ _ _ _ _) stepped row
                                (kept _ s4 s5 _ (Keeps-update_run _ _ _ _) ended row here)))) in
                      let from3 : Kept s3.worker.db after.worker.db = λ row here.
                        from4 row (kept _ s3 s4 _ (Keeps-register _) captured row here) in
                      record {
                        result = result;
                        is_collected = collected;
                        is_success = is_good;
                        source_unchanged = ap (λ x. x.0) unchanged;
                        is_ingested = failure_of-none w.ingest.failure (ap (λ x. x.0) ingested);
                        ingested = λ row here. from3 row (
                            kept _ s2 s3 u (Keeps-verify_if w task step gentle _) verified row
                              (register-AreRegistered w.ingest s1 s2 _ ingested row here));
                        is_captured =
                            failure_of-none w.review_artifacts.failure (ap (λ x. x.0) captured);
                        captured = λ row here.
                            from4 row
                              (register-AreRegistered w.review_artifacts s3 s4 _ captured row here);
                        is_verified = λ command execute given filled.
                            later_IsVerified w task step gentle s3 after from3 (
                              verify_if-IsVerified w task step gentle
                                (needs_verification w task step result) s2 s3 u verified
                                (needed task step w result command is_good execute given filled));
                      }

  start_agent-collected :
      (tree : WorktreeInfo) (result : AdapterResult) (scene after : Scene)
      → start_agent w task step tree scene ≡ (ok result, after)
      → w.collect_result ≡ ok result
  unfolding start_agent
  start_agent-collected tree result scene after h =
      after_return _ _ scene after result h λ _ s1 _ h1.
        after_return _ _ s1 after result h1 λ _ s2 _ h2.
          after_return _ _ s2 after result h2 λ _ s3 _ h3.
            after_return _ _ s3 after result h3 λ _ s4 _ h4.
              after_return _ _ s4 after result h4 λ _ s5 _ h5.
                after_return _ _ s5 after result h5 λ _ s6 _ h6.
                  after_return _ _ s6 after result h6 λ _ s7 _ h7.
                    after_return _ _ s7 after result h7 λ _ s8 _ h8.
                      after_return _ _ s8 after result h8 λ _ s9 _ h9.
                        after_return _ _ s9 after result h9 λ _ s10 _ h10.
                          after_return _ _ s10 after result h10 λ found s11 collected h11.
                            after_return _ _ s11 after result h11 λ _ s12 _ h12.
                              after_return _ _ s12 after result h12 λ _ s13 _ h13.
                                ap (λ x. x.0) collected
                                ∙ ap ok (same_value found result s13 after h13)

  run_agent-IsProven :
      (inherited : Option WorktreeInfo) (scene after : Scene) (outcome : StepOutcome)
      → run_agent w task step inherited scene ≡ (ok outcome, after)
      → outcome.succeeded ≡ true
      → IsProven w task step after.worker.db
  unfolding run_agent
  run_agent-IsProven inherited scene after outcome h success =
      after_return _ _ scene after outcome h λ tree s1 _ h1.
        after_return _ _ s1 after outcome h1 λ result s2 started_agent h2.
          finish_run-IsProven tree result s2 after outcome
            (start_agent-collected tree result s1 s2 started_agent) h2 success

  recover-failed :
      (message : String) (tree : Option WorktreeInfo) (has_snapshot has_started : Bool)
      (scene after : Scene) (outcome : StepOutcome)
      → recover w task step message tree has_snapshot has_started scene ≡ (ok outcome, after)
      → outcome.succeeded ≡ false
  unfolding recover
  recover-failed message tree has_snapshot has_started scene after outcome h =
      after_return _ _ scene after outcome h λ _ s1 _ h1.
        after_return _ _ s1 after outcome h1 λ _ s2 _ h2.
          after_return _ _ s2 after outcome h2 λ _ s3 _ h3.
            after_return _ _ s3 after outcome h3 λ _ s4 _ h4.
              after_return _ _ s4 after outcome h4 λ _ s5 _ h5.
                after_return _ _ s5 after outcome h5 λ _ s6 _ h6.
                  after_return _ _ s6 after outcome h6 λ _ s7 _ h7.
                    after_return _ _ s7 after outcome h7 λ _ s8 _ h8.
                      after_return _ _ s8 after outcome h8 λ _ s9 _ h9.
                        after_return _ _ s9 after outcome h9 λ _ s10 _ h10.
                          ap (λ o. o.succeeded) (sym (same_value _ outcome s10 after h10))

  try_agent-IsProven :
      (inherited : Option WorktreeInfo) (scene after : Scene) (outcome : StepOutcome)
      → try_agent w task step inherited scene ≡ (ok outcome, after)
      → outcome.succeeded ≡ true
      → IsProven w task step after.worker.db
  unfolding try_agent
  try_agent-IsProven inherited scene after outcome h success =
      tried (run_agent w task step inherited scene) refl h
    where
      tried :
          (r : Result String StepOutcome × Scene)
          → run_agent w task step inherited scene ≡ r
          → caught w task step r ≡ (ok outcome, after)
          → IsProven w task step after.worker.db
      tried (ok done, next) e k = run_agent-IsProven inherited scene after outcome (e ∙ k) success
      tried (err message, next) e k = absurd (
          true≢false (
            sym success
            ∙ recover-failed message next.worktree next.has_snapshot (is_some next.adapter_run) next
                after outcome k))

  unavailable_step-skips :
      (message : String) (scene after : Scene) (outcome : StepOutcome)
      → unavailable_step w task step message scene ≡ (ok outcome, after)
      → outcome.skipped ≡ outcome.succeeded
  unfolding unavailable_step
  unavailable_step-skips message scene after outcome h =
      after_return _ _ scene after outcome h λ _ s1 _ h1.
        after_return _ _ s1 after outcome h1 λ _ s2 _ h2.
          let same = same_value _ outcome s2 after h2 in
          ap (λ o. o.skipped) (sym same) ∙ ap (λ o. o.succeeded) same

-- Where others delete no artifact rows while the step waits, a step that counts as succeeded and was
-- not skipped is proven: the adapter's result says success, the source repository was found
-- unchanged, and the rows of the adapter's and of the worktree's evidence are in the database. Where
-- the step executes and the task has a verification command that is not empty, the verification
-- passed, left HEAD, the status and the diff of the worktree as they were, and the rows of its
-- evidence are in the database too.
pub execute_step-IsProven :
    (w : StepWorld) (task : TaskRow) (step : RouteStepRow) (inherited : Option WorktreeInfo)
    (worker after : Worker) (outcome : StepOutcome)
    → IsGentle w
    → execute_step w task step inherited worker ≡ (ok outcome, after)
    → outcome.succeeded ≡ true
    → outcome.skipped ≡ false
    → IsProven w task step after.db
unfolding execute_step
execute_step-IsProven w task step inherited worker after outcome gentle h success ran =
    tried (unavailable_reason w task step worker).0
      (scene_of w task step inherited (unavailable_reason w task step worker).1) h
  where
    tried :
        (reason : Option String) (scene : Scene)
        → ◌≡◌ {A = Result String StepOutcome × Worker}
            (
              (unless_unavailable w task step inherited reason scene).0,
              (unless_unavailable w task step inherited reason scene).1.worker,
            )
            (ok outcome, after)
        → IsProven w task step after.db
    tried (some reason) scene k = absurd (
        true≢false (
          sym success
          ∙ (sym (
                unavailable_step-skips w task step gentle reason scene
                  (unless_unavailable w task step inherited (some reason) scene).1 outcome
                  (ap (λ r. (r, (unless_unavailable w task step inherited (some reason) scene).1))
                    (ap (λ x. x.0) k)))
              ∙ ran)))
    tried none scene k =
        after_return _ _ scene (unless_unavailable w task step inherited none scene).1 outcome
          (ap (λ r. (r, (unless_unavailable w task step inherited none scene).1)) (ap (λ x. x.0) k))
          λ _ s1 _ h1.
            subst (λ (x : Worker). IsProven w task step x.db) (ap (λ x. x.1) k)
              (try_agent-IsProven w task step gentle inherited s1
                (unless_unavailable w task step inherited none scene).1 outcome h1 success)
