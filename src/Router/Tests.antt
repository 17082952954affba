-- ===== src/Router/Tests.antt =====
-- Routes of small tasks.
use agent_control_center_cor.Base.{ℕ, String, true, false, none, [], ◌∷◌, ◌≡◌, refl, map}
use agent_control_center_cor.Protocol.{Priority, AgentSelection, AgentKind, RouteMode, TaskPayload}
use agent_control_center_cor.Router.{
  risky_words, architecture_words, planner_first_words, signals_of, route_task,
}
use agent_control_center_cor.Router.Words.{tests}
use agent_control_center_cor.Router.Plans.{IsSound, route_task-IsSound}

abbrev task : AgentSelection → Priority → String → TaskPayload
task agent priority goal = record {
  id = none;
  goal = goal;
  repo = "app";
  base_ref = "main";
  agent = agent;
  priority = priority;
  context = none;
  success_criteria = [];
  verification_command = none;
  handoff_required = false;
}

abbrev ids : ℕ → String
ids n = "step"

risky_production : tests risky_words "Ship to PRODUCTION now" ≡ true
unfolding tests
risky_production = refl

risky_products : tests risky_words "list products" ≡ false
unfolding tests
risky_products = refl

planner_claude : tests planner_first_words "let Claude as planner decide" ≡ true
unfolding tests
planner_claude = refl

architecture_analyze : tests architecture_words "analyze it" ≡ true
unfolding tests
architecture_analyze = refl

abbrev migration : TaskPayload
migration = task AgentSelection.codex Priority.normal "Fix the schema"

migration_is_risky : (signals_of migration).is_risky ≡ true
unfolding signals_of tests
migration_is_risky = refl

migration_is_coding : (signals_of migration).is_coding ≡ true
unfolding signals_of tests
migration_is_coding = refl

migration_is_change : (signals_of migration).is_change ≡ true
unfolding signals_of tests
migration_is_change = refl

route_migration :
    map (λ s. s.agent) (route_task ids migration).steps
    ≡ AgentKind.codex ∷ AgentKind.claude ∷ AgentKind.openclaw ∷ []
unfolding route_task tests
route_migration = refl

-- A risky text without a coding word is executed without a review.
route_delete :
    (route_task ids (task AgentSelection.auto Priority.normal "Delete the billing records")).mode
    ≡ RouteMode.single
unfolding route_task tests
route_delete = refl

route_task-IsSound_example :
    IsSound AgentSelection.codex (signals_of migration).is_risky (route_task ids migration)
route_task-IsSound_example = route_task-IsSound ids migration
