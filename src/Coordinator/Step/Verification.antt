-- ===== src/Coordinator/Step/Verification.antt =====
-- src/coordinator.ts: #runVerification, and when #executeStep calls it.
use Prim.Native.String.{◌++◌}
use agent_control_center_cor.Base.{
  ℕ, String, Bool, true, false, not, ◌&&◌, Option, none, some, ◌∷◌, ◌==◌, get_or, if◌then◌else◌,
}
use agent_control_center_cor.Json.{Json, obj, field, end, str}
use agent_control_center_cor.Base.Decimal.{decimal}
use agent_control_center_cor.Db.State.{TaskRow, RouteStepRow, EventLevel}
use agent_control_center_cor.Coordinator.{
  Phase, Worker, AdapterResult, Attempt, pure, throw, io, ◌>>=◌, ◌>>◌, modify, refuse_if, without,
  register, is_filled,
}
use agent_control_center_cor.Coordinator.Names.{num_or_null, str_or_null}
use agent_control_center_cor.Coordinator.Step.{
  StepWorld, verified, is_success, is_execute, wait, tell, enter, set_verifying, Capture,
  VerificationResult,
}

module _ (w : StepWorld) (task : TaskRow) (step : RouteStepRow) where
  abbrev pub is_same_capture : Capture → Capture → Bool
  is_same_capture before after =
      (before.head == after.head)
      && ((before.status == after.status) && (before.diff == after.diff))

  -- a verification that changed the worktree
  abbrev pub refuse_mutation : Bool → Attempt (Unit {0})
  refuse_mutation false = pure tt
  refuse_mutation true = do
    tell w task step "verification.failed" (some EventLevel.error)
        "Verification modified tracked or untracked repository state." none
    throw "Independent verification modified repository state"

  abbrev pub leave_verification : Worker → Worker
  leave_verification x = set_verifying w task step (without w.run_id x.active_verifications) x

  -- the `onStarted` of the verifier
  abbrev pub tell_process : Option Json → Attempt (Unit {0})
  tell_process none = pure tt
  tell_process (some process) = do
    tell w task step "verification.process_started" none "Independent verifier process started."
        (some process)
    pure tt

  abbrev pub is_passed : VerificationResult → Bool
  is_passed result = result.status == "succeeded"

  abbrev pub exit_text : Option ℕ → String
  exit_text none = "n/a"
  exit_text (some code) = decimal code

  abbrev pub not_passed : VerificationResult → String
  not_passed result =
      "Independent verification "
      ++ (result.status ++ (" with exit " ++ exit_text result.exit_code))

  unfoldable pub run_verification : Attempt (Unit {0})
  run_verification = do
    before ← io w.before_verification
    modify (λ x.
        set_verifying w task step ((w.run_id, task.id) ∷ without w.run_id x.active_verifications) x)
    tell w task step "verification.started" none
        "Independent verification started in the isolated worktree."
        (some (obj (field "commandLine" (str (get_or task.verification_command "")) end)))
    tell_process w.process_started
    wait w task step verified
    modify leave_verification
    result ← io w.verification
    register w.verification_artifact
    after ← io w.after_verification
    refuse_mutation (not (is_same_capture before after))
    tell w task step (if is_passed result then "verification.succeeded" else "verification.failed")
        (some (if is_passed result then EventLevel.info else EventLevel.error))
        (if is_passed result
          then "Verification passed: " ++ (result.command ++ ".")
          else get_or result.error ("Verification ended with " ++ (result.status ++ ".")))
        (some (
          obj (
            field "exitCode" (num_or_null result.exit_code)
              (field "signal" (str_or_null result.signal) end))))
    refuse_if (not (is_passed result)) (get_or result.error (not_passed result))

  abbrev pub needs_verification : AdapterResult → Bool
  needs_verification result =
      is_success result.status && (is_execute step.role && is_filled task.verification_command)

  unfoldable pub verify_if : Bool → Attempt (Unit {0})
  unfolding run_verification
  verify_if false = pure tt
  verify_if true = do
    enter w task step Phase.verifying
    run_verification
    enter w task step Phase.finalizing
