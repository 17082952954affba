-- ===== src/Router/Plans.antt =====
-- What every plan of the router satisfies.
use agent_control_center_cor.Base.{
  ℕ, suc, String, Bool, true, not, ◌&&◌, List, [], ◌∷◌, ◌≡◌, ◌≢◌, refl, ◌⊎◌, inl, inr, if_lem, All,
  arith,
}
use agent_control_center_cor.Protocol.{
  AgentSelection, AgentKind, RouteRole, RouteMode, TaskPayload, RouteStep, RoutePlan,
}
use agent_control_center_cor.Router.{
  Signals, signals_of, plan_for, route_task, risk_of, parallel_plan, planner_first_plan,
  reviewed_plan, auto_plan, single_plan,
}

-- The agents that the requester's choice allows to execute.
abbrev pub MayExecute : AgentSelection → AgentKind → Type 0
MayExecute AgentSelection.auto agent = Unit
MayExecute AgentSelection.codex agent = agent ≡ AgentKind.codex
MayExecute AgentSelection.claude agent = agent ≡ AgentKind.claude
MayExecute AgentSelection.openclaw agent = agent ≡ AgentKind.openclaw
MayExecute AgentSelection.parallel agent = (agent ≡ AgentKind.codex) ⊎ (agent ≡ AgentKind.claude)

-- A step that is not an execution, or by an agent that may execute
abbrev pub RespectsChoice : AgentSelection → RouteStep → Type 0
RespectsChoice selection s = s.role ≡ RouteRole.execute → MayExecute selection s.agent

-- The steps are numbered from `n` on, or all of them are 0 where they run side by side.
abbrev pub IsNumbered : RouteMode → ℕ → List RouteStep → Type 0
IsNumbered mode n [] = Unit
IsNumbered RouteMode.parallel n (s ∷ steps) =
    (s.sequence ≡ 0) × IsNumbered RouteMode.parallel n steps
IsNumbered mode n (s ∷ steps) = (s.sequence ≡ n) × IsNumbered mode (suc n) steps

-- An agent that reviews one step of the plan executes none.
abbrev pub ReviewsApart : List RouteStep → Type 0
ReviewsApart steps =
    All
      (λ reviewing.
        reviewing.role ≡ RouteRole.review
        → All (λ executing. executing.role ≡ RouteRole.execute → executing.agent ≢ reviewing.agent)
            steps)
      steps

-- The first step is required, and the plan has one.
abbrev pub StartsRequired : List RouteStep → Type 0
StartsRequired [] = ⊥
StartsRequired (s ∷ steps) = s.required ≡ true

pub record IsSound (selection : AgentSelection) (risky : Bool) (plan : RoutePlan) : Type 0 where
  pub starts_required : StartsRequired plan.steps
  pub is_numbered : IsNumbered plan.mode 0 plan.steps
  pub respects_choice : All (RespectsChoice selection) plan.steps
  pub reviews_apart : ReviewsApart plan.steps
  pub has_risk : plan.risk ≡ risk_of risky

codex≢claude : AgentKind.codex ≢ AgentKind.claude
codex≢claude h = cc

module _ (ids : ℕ → String) where
  single_plan-IsSound :
      (selection : AgentSelection) (risky : Bool) (plan_reason : String) (agent : AgentKind)
      (role : RouteRole) (reason : String)
      → (role ≡ RouteRole.execute → MayExecute selection agent)
      → IsSound selection risky (single_plan ids risky plan_reason agent role reason)
  single_plan-IsSound selection risky plan_reason agent role reason allowed = record {
    starts_required = refl;
    is_numbered = (refl, tt);
    respects_choice = (allowed, tt);
    reviews_apart = ((λ r. ((λ e same. ground arith), tt)), tt);
    has_risk = refl;
  }

  parallel_plan-IsSound :
      (risky : Bool) → IsSound AgentSelection.parallel risky (parallel_plan ids risky)
  parallel_plan-IsSound risky = record {
    starts_required = refl;
    is_numbered = (refl, (refl, tt));
    respects_choice = ((λ e. inl refl), ((λ e. inr refl), tt));
    reviews_apart = ground arith;
    has_risk = refl;
  }

  planner_first_plan-IsSound :
      (risky : Bool) → IsSound AgentSelection.auto risky (planner_first_plan ids risky)
  planner_first_plan-IsSound risky = record {
    starts_required = refl;
    is_numbered = (refl, (refl, (refl, tt)));
    respects_choice = ((λ e. tt), ((λ e. tt), ((λ e. tt), tt)));
    reviews_apart = ground arith;
    has_risk = refl;
  }

  reviewed_plan-IsSound :
      (selection : AgentSelection) (risky : Bool)
      → MayExecute selection AgentKind.codex
      → risky ≡ true
      → IsSound selection risky (reviewed_plan ids selection)
  reviewed_plan-IsSound selection risky allowed is_risky = record {
    starts_required = refl;
    is_numbered = (refl, (refl, (refl, tt)));
    respects_choice = ((λ e. allowed), ((λ e. ground arith), ((λ e. ground arith), tt)));
    reviews_apart = ground arith;
    has_risk = ground arith;
  }

  auto_plan-IsSound : (s : Signals) → IsSound AgentSelection.auto s.is_risky (auto_plan ids s)
  auto_plan-IsSound s =
      if_lem (IsSound AgentSelection.auto s.is_risky) s.is_external _ _
        (λ external.
          single_plan-IsSound _ s.is_risky _ AgentKind.openclaw RouteRole.execute _ (λ e. tt))
        (λ internal.
          if_lem (IsSound AgentSelection.auto s.is_risky) (s.is_architecture && not s.is_change) _ _
            (λ analysis.
              single_plan-IsSound _ s.is_risky _ AgentKind.claude RouteRole.review _ (λ e. tt))
            (λ work.
              single_plan-IsSound _ s.is_risky _ AgentKind.codex RouteRole.execute _ (λ e. tt)))

  plan_for-IsSound :
      (selection : AgentSelection) (s : Signals)
      → IsSound selection s.is_risky (plan_for ids selection s)
  unfolding plan_for
  plan_for-IsSound AgentSelection.parallel s = parallel_plan-IsSound s.is_risky
  plan_for-IsSound AgentSelection.auto s =
      if_lem (IsSound AgentSelection.auto s.is_risky) s.is_planner_first _ _
        (λ planned. planner_first_plan-IsSound s.is_risky)
        (λ direct.
          if_lem (IsSound AgentSelection.auto s.is_risky)
            (s.is_risky && (s.is_coding && s.is_change)) _ _
            (λ guarded. reviewed_plan-IsSound AgentSelection.auto s.is_risky tt (ground arith))
            (λ other. auto_plan-IsSound s))
  plan_for-IsSound AgentSelection.codex s =
      if_lem (IsSound AgentSelection.codex s.is_risky) (s.is_risky && (s.is_coding && s.is_change))
        _ _ (λ guarded. reviewed_plan-IsSound AgentSelection.codex s.is_risky refl (ground arith))
        (λ other.
          single_plan-IsSound AgentSelection.codex s.is_risky _ AgentKind.codex RouteRole.execute _
            (λ e. refl))
  plan_for-IsSound AgentSelection.claude s =
      single_plan-IsSound AgentSelection.claude s.is_risky _ AgentKind.claude RouteRole.execute _
        (λ e. refl)
  plan_for-IsSound AgentSelection.openclaw s =
      single_plan-IsSound AgentSelection.openclaw s.is_risky _ AgentKind.openclaw RouteRole.execute
        _ (λ e. refl)

-- Every plan of the router starts with a required step; its steps are numbered from 0 in order, or are
-- all 0 where they run side by side; only the agents that the requester chose execute; no agent
-- reviews a plan that it executes a part of; and the risk is high exactly if a risky word is in
-- the text or the priority is urgent.
pub route_task-IsSound :
    (ids : ℕ → String) (task : TaskPayload)
    → IsSound task.agent (signals_of task).is_risky (route_task ids task)
unfolding route_task
route_task-IsSound ids task = plan_for-IsSound ids task.agent (signals_of task)
