-- ===== src/Coordinator/Verified.antt =====
-- src/coordinator.ts: what #runVerification has shown when it returns.
use agent_control_center_cor.Base.{
  String, Bool, true, false, not, Option, none, some, Result, ok, err, ◌≡◌, ◌≢◌, eq_iff, refl, ap,
  ◌∙◌, arith, subst, Bool-cases, inl, inr, ◌==◌,
}
use agent_control_center_cor.Base.Order.{IsRow}
use agent_control_center_cor.Json.{Json}
use agent_control_center_cor.Protocol.{RouteRole}
use agent_control_center_cor.Db.State.{Db, TaskRow, RouteStepRow, EventLevel}
use agent_control_center_cor.Coordinator.Keeps.{
  Kept, Keeps, Keeps-pure, Keeps-throw, Keeps-io, Keeps-refuse_if, Keeps-modify, Keeps-bind,
  Keeps-publish, Keeps-register, AreRegistered, register-AreRegistered,
}
use agent_control_center_cor.Coordinator.{
  Worker, AdapterResult, Scene, Attempt, Phase, is_filled, failure_of, refuse_if, after_return,
}
use agent_control_center_cor.Coordinator.Step.{
  StepWorld, Capture, Point, wait, enter, tell, is_execute, VerificationResult, is_success,
}
use agent_control_center_cor.Coordinator.Step.Verification.{
  is_passed, tell_process, is_same_capture, needs_verification, verify_if, run_verification,
  refuse_mutation,
}

-- The verification passed, left the worktree as it was, and its evidence is registered.
pub record IsVerified (w : StepWorld) (db : Db) : Type 0 where
  pub before : Capture
  pub after : Capture
  pub result : VerificationResult
  pub is_before : w.before_verification ≡ ok before
  pub is_after : w.after_verification ≡ ok after
  pub is_result : w.verification ≡ ok result
  pub is_passed : result.status ≡ "succeeded"
  pub same_head : before.head ≡ after.head
  pub same_status : before.status ≡ after.status
  pub same_diff : before.diff ≡ after.diff
  pub is_registered : AreRegistered w.verification_artifact.rows db

-- The others do not delete rows of artifacts while the step waits.
abbrev pub IsGentle : StepWorld → Type 0
IsGentle w = (point : Point) (x : Worker) → Kept x.db (w.meanwhile point x).db

pub err≢ok :
    {A : Type 0} {a : A} (message : String) (scene after : Scene)
    → ◌≢◌ {A = Result String A × Scene} (err message, scene) (ok a, after)
err≢ok message scene after h = cc

pub same_value :
    {A : Type 0} (a b : A) (scene after : Scene)
    → ◌≡◌ {A = Result String A × Scene} (ok a, scene) (ok b, after)
    → a ≡ b
same_value a b scene after h = cc

pub same_state :
    {A : Type 0} (a b : A) (scene after : Scene)
    → ◌≡◌ {A = Result String A × Scene} (ok a, scene) (ok b, after)
    → scene ≡ after
same_state a b scene after h = cc

pub kept :
    {A : Type 0} (m : Attempt A) (scene after : Scene) (a : A)
    → Keeps m
    → m scene ≡ (ok a, after)
    → Kept scene.worker.db after.worker.db
kept m scene after a k e row here =
    subst (λ (x : Scene). IsRow row x.worker.db.artifacts) (ap (λ r. r.1) e) (k.at scene row here)

pub true≢false : true ≢ false
true≢false h = cc

pub failure_of-none : (failure : Option String) → failure_of failure ≡ ok tt → failure ≡ none
failure_of-none none h = refl
failure_of-none (some message) h = cc

pub refuse_if-false :
    (b : Bool) (message : String) (scene after : Scene) (u : Unit {0})
    → refuse_if b message scene ≡ (ok u, after)
    → b ≡ false
refuse_if-false false message scene after u h = refl
refuse_if-false true message scene after u h = absurd (err≢ok message scene after h)

pub needed :
    (task : TaskRow) (step : RouteStepRow) (w : StepWorld) (result : AdapterResult)
    (command : String)
    → is_success result.status ≡ true
    → step.role ≡ RouteRole.execute
    → task.verification_command ≡ some command
    → command ≢ ""
    → needs_verification w task step result ≡ true
needed task step w result command success execute given filled =
    let a = ap is_execute execute in
    let b : is_filled task.verification_command ≡ true = ap is_filled given ∙ not_empty in
    ground arith
  where
    not_empty : not (command == "") ≡ true
    not_empty = elim (Bool-cases (command == "")) [
      | inl empty ↦ absurd (filled ((eq_iff command "").0 empty))
      | inr other ↦ ap not other
    ]

module _ (w : StepWorld) (task : TaskRow) (step : RouteStepRow) (gentle : IsGentle w) where
  pub Keeps-wait : (point : Point) → Keeps (wait w task step point)
  Keeps-wait point = Keeps-modify _ (gentle point)

  pub Keeps-enter : (phase : Phase) → Keeps (enter w task step phase)
  Keeps-enter phase = Keeps-modify _ (λ x row here. here)

  pub Keeps-tell :
      (type : String) (level : Option EventLevel) (message : String) (data_json : Option Json)
      → Keeps (tell w task step type level message data_json)
  Keeps-tell type level message data_json =
      Keeps-publish w.message_of task.id (some w.run_id) type level message data_json w.now

  pub Keeps-tell_process : (process : Option Json) → Keeps (tell_process w task step process)
  Keeps-tell_process none = Keeps-pure tt
  Keeps-tell_process (some process) = Keeps-bind _ _ (Keeps-tell _ _ _ _) (λ _. Keeps-pure tt)

  pub Keeps-refuse_mutation : (b : Bool) → Keeps (refuse_mutation w task step b)
  Keeps-refuse_mutation false = Keeps-pure tt
  Keeps-refuse_mutation true = Keeps-bind _ _ (Keeps-tell _ _ _ _) (λ _. Keeps-throw _)

  pub Keeps-run_verification : Keeps (run_verification w task step)
  unfolding run_verification
  Keeps-run_verification = Keeps-bind _ _ (Keeps-io _) λ before.
      Keeps-bind _ _ (Keeps-modify _ (λ x row here. here)) λ _.
        Keeps-bind _ _ (Keeps-tell _ _ _ _) λ _. Keeps-bind _ _ (Keeps-tell_process _) λ _.
          Keeps-bind _ _ (Keeps-wait _) λ _.
            Keeps-bind _ _ (Keeps-modify _ (λ x row here. here)) λ _.
              Keeps-bind _ _ (Keeps-io _) λ result. Keeps-bind _ _ (Keeps-register _) λ _.
                Keeps-bind _ _ (Keeps-io _) λ after.
                  Keeps-bind _ _ (Keeps-refuse_mutation _)
                    λ _. Keeps-bind _ _ (Keeps-tell _ _ _ _) λ _. Keeps-refuse_if _ _

  pub Keeps-verify_if : (b : Bool) → Keeps (verify_if w task step b)
  unfolding verify_if
  Keeps-verify_if false = Keeps-pure tt
  Keeps-verify_if true =
      Keeps-bind _ _ (Keeps-enter _) λ _. Keeps-bind _ _ Keeps-run_verification λ _. Keeps-enter _

  pub refuse_mutation-false :
      (b : Bool) (scene after : Scene) (u : Unit {0})
      → refuse_mutation w task step b scene ≡ (ok u, after)
      → b ≡ false
  refuse_mutation-false false scene after u h = refl
  refuse_mutation-false true scene after u h =
      after_return _ _ scene after u h λ _ next _ thrown. absurd (err≢ok _ next after thrown)

  pub run_verification-IsVerified :
      (scene after : Scene)
      → run_verification w task step scene ≡ (ok tt, after)
      → IsVerified w after.worker.db
  unfolding run_verification
  run_verification-IsVerified scene after h =
      after_return _ _ scene after tt h λ before s1 is_before h1.
        after_return _ _ s1 after tt h1 λ _ s2 _ h2. after_return _ _ s2 after tt h2 λ _ s3 _ h3.
          after_return _ _ s3 after tt h3 λ _ s4 _ h4. after_return _ _ s4 after tt h4 λ _ s5 _ h5.
            after_return _ _ s5 after tt h5 λ _ s6 _ h6.
              after_return _ _ s6 after tt h6 λ result s7 is_result h7.
                after_return _ _ s7 after tt h7 λ _ s8 stored h8.
                  after_return _ _ s8 after tt h8 λ later s9 is_after h9.
                    after_return _ _ s9 after tt h9 λ _ s10 kept_tree h10.
                      after_return _ _ s10 after tt h10 λ _ s11 told h11.
                        let same =
                          refuse_mutation-false (not (is_same_capture w task step before later)) s9
                            s10 _ kept_tree in
                        let passed =
                          refuse_if-false (not (is_passed w task step result)) _ s11 after tt h11 in
                        record {
                          before = before;
                          after = later;
                          result = result;
                          is_before = ap (λ x. x.0) is_before;
                          is_after = ap (λ x. x.0) is_after;
                          is_result = ap (λ x. x.0) is_result;
                          is_passed = (eq_iff result.status "succeeded").0 (ground arith);
                          same_head = (eq_iff before.head later.head).0 (ground arith);
                          same_status = (eq_iff before.status later.status).0 (ground arith);
                          same_diff = (eq_iff before.diff later.diff).0 (ground arith);
                          is_registered = λ row here.
                              kept _ s11 after _ (Keeps-refuse_if _ _) h11 row (
                                kept _ s10 s11 _ (Keeps-tell _ _ _ _) told row (
                                  kept _ s9 s10 _ (Keeps-refuse_mutation _) kept_tree row (
                                    kept _ s8 s9 later (Keeps-io _) is_after row (
                                      register-AreRegistered w.verification_artifact s7 s8 _ stored
                                        row here))));
                        }

  pub later_IsVerified :
      (scene after : Scene)
      → Kept scene.worker.db after.worker.db
      → IsVerified w scene.worker.db
      → IsVerified w after.worker.db
  later_IsVerified scene after k v = record {
    before = v.before;
    after = v.after;
    result = v.result;
    is_before = v.is_before;
    is_after = v.is_after;
    is_result = v.is_result;
    is_passed = v.is_passed;
    same_head = v.same_head;
    same_status = v.same_status;
    same_diff = v.same_diff;
    is_registered = λ row here. k row (v.is_registered row here);
  }

  pub verify_if-IsVerified :
      (b : Bool) (scene after : Scene) (u : Unit {0})
      → verify_if w task step b scene ≡ (ok u, after)
      → b ≡ true
      → IsVerified w after.worker.db
  unfolding verify_if
  verify_if-IsVerified false scene after u h k = cc
  verify_if-IsVerified true scene after u h k = after_return _ _ scene after u h λ _ s1 _ h1.
      after_return _ _ s1 after u h1 λ _ s2 verified h2.
        let v = run_verification-IsVerified s1 s2 verified in
        later_IsVerified s2 after (kept _ s2 after u (Keeps-enter _) h2) v
