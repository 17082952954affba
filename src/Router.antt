-- ===== src/Router.antt =====
-- src/router.ts: the route of a task, by the words of its text and the agent that is asked for.
pub mod Words
pub mod Plans
pub mod Tests
use Prim.Native.String.{◌++◌}
use agent_control_center_cor.Base.{
  ℕ, String, Bool, true, false, not, ◌&&◌, ◌||◌, Option, none, some, List, [], ◌∷◌, get_or,
  if◌then◌else◌,
}
use agent_control_center_cor.Protocol.{
  Priority, AgentSelection, AgentKind, RouteRole, RouteMode, Risk, TaskPayload, RouteStep,
  RoutePlan,
}
use agent_control_center_cor.Router.Words.{
  Pattern, text, one_of, optional, followed_by, either, never, tests,
}

abbrev pub one_of_words : List Pattern → Pattern
one_of_words [] = never
one_of_words (p ∷ rest) = either p (one_of_words rest)

-- The source's `\b(…|…)\b` with the flag `i`
abbrev pub risky_words : Pattern
risky_words = one_of_words (
    followed_by (text "prod") (optional (text "uction"))
    ∷ text "deploy"
    ∷ text "migration"
    ∷ text "database"
    ∷ text "schema"
    ∷ text "auth"
    ∷ text "security"
    ∷ text "permission"
    ∷ text "payment"
    ∷ text "billing"
    ∷ text "delete"
    ∷ text "destructive"
    ∷ text "secret"
    ∷ text "credential"
    ∷ text "infrastructure"
    ∷ [])

abbrev pub architecture_words : Pattern
architecture_words = one_of_words (
    followed_by (text "architect") (optional (text "ure"))
    ∷ text "design"
    ∷ text "review"
    ∷ text "audit"
    ∷ followed_by (text "analy") (followed_by (one_of "sz") (text "e"))
    ∷ text "plan"
    ∷ followed_by (text "trade") (followed_by (optional (text "-")) (text "off"))
    ∷ text "spec"
    ∷ text "proposal"
    ∷ [])

abbrev pub external_words : Pattern
external_words = one_of_words (
    text "discord"
    ∷ text "telegram"
    ∷ text "slack"
    ∷ text "email"
    ∷ text "calendar"
    ∷ text "cron"
    ∷ text "macos"
    ∷ text "desktop"
    ∷ text "browser automation"
    ∷ text "external system"
    ∷ text "openclaw"
    ∷ [])

abbrev pub coding_words : Pattern
coding_words = one_of_words (
    text "code"
    ∷ text "implement"
    ∷ text "fix"
    ∷ text "bug"
    ∷ text "refactor"
    ∷ text "test"
    ∷ text "build"
    ∷ text "typescript"
    ∷ text "javascript"
    ∷ text "python"
    ∷ text "api"
    ∷ text "cli"
    ∷ text "repo"
    ∷ text "commit"
    ∷ text "pull request"
    ∷ text "pr"
    ∷ text "schema"
    ∷ text "migration"
    ∷ text "migrate"
    ∷ text "deploy"
    ∷ [])

abbrev pub change_intent_words : Pattern
change_intent_words = one_of_words (
    text "implement"
    ∷ text "fix"
    ∷ text "refactor"
    ∷ text "write"
    ∷ text "add"
    ∷ text "build"
    ∷ text "change"
    ∷ text "modify"
    ∷ text "migrate"
    ∷ text "deploy"
    ∷ text "remove"
    ∷ text "delete"
    ∷ [])

abbrev pub planner_first_words : Pattern
planner_first_words = one_of_words (
    followed_by (text "planner") (followed_by (optional (one_of "- ")) (text "first"))
    ∷ followed_by (text "claude ") (
        followed_by (optional (text "as "))
          (one_of_words (text "planner" ∷ text "brain" ∷ text "assigner" ∷ [])))
    ∷ followed_by (text "assign ")
        (one_of_words (text "work" ∷ followed_by (text "task") (optional (text "s")) ∷ []))
    ∷ followed_by (text "delegate") (
        followed_by (optional (one_of "sd")) (
          followed_by (text " ")
            (one_of_words (text "work" ∷ followed_by (text "task") (optional (text "s")) ∷ []))))
    ∷ text "codex and openclaw execute"
    ∷ [])

-- `lines.join("\n")`
abbrev pub join_lines : List String → String
join_lines [] = ""
join_lines (line ∷ []) = line
join_lines (line ∷ next ∷ rest) = line ++ ("\n" ++ join_lines (next ∷ rest))

abbrev pub text_of : TaskPayload → String
text_of task =
    task.goal ++ ("\n" ++ (get_or task.context "" ++ ("\n" ++ join_lines task.success_criteria)))

-- The tests of a task's text that the routes depend on
pub record Signals : Type 0 where
  pub is_risky : Bool
  pub is_architecture : Bool
  pub is_external : Bool
  pub is_coding : Bool
  pub is_change : Bool
  pub is_planner_first : Bool

abbrev pub is_urgent : Priority → Bool
is_urgent Priority.urgent = true
is_urgent _ = false

unfoldable pub signals_of : TaskPayload → Signals
signals_of task = record {
  is_risky = tests risky_words (text_of task) || is_urgent task.priority;
  is_architecture = tests architecture_words (text_of task);
  is_external = tests external_words (text_of task);
  is_coding = tests coding_words (text_of task);
  is_change = tests change_intent_words (text_of task);
  is_planner_first = tests planner_first_words (text_of task);
}

abbrev pub is_auto : AgentSelection → Bool
is_auto AgentSelection.auto = true
is_auto _ = false

abbrev pub is_codex : AgentSelection → Bool
is_codex AgentSelection.codex = true
is_codex _ = false

abbrev pub risk_of : Bool → Risk
risk_of risky = if risky then Risk.high else Risk.normal

-- `step(…)`, with the id that `randomUUID` gives
abbrev pub step : String → ℕ → AgentKind → RouteRole → String → Bool → RouteStep
step id sequence agent role reason required = record {
  id = id;
  sequence = sequence;
  agent = agent;
  role = role;
  required = required;
  reason = reason;
}

module _ (ids : ℕ → String) where
  abbrev pub parallel_plan : Bool → RoutePlan
  parallel_plan risky = record {
    mode = RouteMode.parallel;
    risk = risk_of risky;
    reasons = "The requester explicitly selected a parallel Codex + Claude run." ∷ [];
    steps =
        step (ids 0) 0 AgentKind.codex RouteRole.execute
          "Codex produces an implementation candidate." true
        ∷ step (ids 1) 0 AgentKind.claude RouteRole.execute
            "Claude produces an independent candidate." true
        ∷ [];
  }

  abbrev pub planner_first_plan : Bool → RoutePlan
  planner_first_plan risky = record {
    mode = RouteMode.sequential;
    risk = risk_of risky;
    reasons =
        "The requester asked for a planner-first delegation flow: Claude plans first, then Codex and OpenClaw execute from that plan."
        ∷ [];
    steps =
        step (ids 0) 0 AgentKind.claude RouteRole.review
          "Claude acts as the planner: decompose the goal, assign responsibilities, and define success checks."
          true
        ∷ step (ids 1) 1 AgentKind.codex RouteRole.execute
            "Codex implements the repository-scoped work from Claude's plan in an isolated worktree."
            true
        ∷ step (ids 2) 2 AgentKind.openclaw RouteRole.execute
            "OpenClaw executes the external coordination, workflow explanation, and handoff work from Claude's plan."
            true
        ∷ [];
  }

  abbrev pub reviewed_plan : AgentSelection → RoutePlan
  reviewed_plan agent = record {
    mode = RouteMode.sequential;
    risk = Risk.high;
    reasons =
        "Risk-sensitive coding work requires implementation, independent review, and a human-facing approval handoff."
        ∷ (if is_codex agent
            then "The explicit Codex assignment is preserved as the implementation step." ∷ []
            else []);
    steps =
        step (ids 0) 0 AgentKind.codex RouteRole.execute
          "Codex implements the change in an isolated worktree." true
        ∷ step (ids 1) 1 AgentKind.claude RouteRole.review
            "Claude independently reviews the implementation and evidence." true
        ∷ step (ids 2) 2 AgentKind.openclaw RouteRole.approval
            "OpenClaw summarizes the evidence and requests approve/rework." false
        ∷ [];
  }

  abbrev pub single_plan : Bool → String → AgentKind → RouteRole → String → RoutePlan
  single_plan risky plan_reason agent role reason = record {
    mode = RouteMode.single;
    risk = risk_of risky;
    reasons = plan_reason ∷ [];
    steps = step (ids 0) 0 agent role reason true ∷ [];
  }

  abbrev pub explicit_plan : Bool → String → AgentKind → RoutePlan
  explicit_plan risky name agent =
      single_plan risky ("The requester explicitly selected " ++ (name ++ ".")) agent
        RouteRole.execute "Explicit agent assignment."

  -- what is left when no agent is asked for and neither of the sequential plans applies
  abbrev pub auto_plan : Signals → RoutePlan
  auto_plan s =
      if s.is_external
      then single_plan s.is_risky
          "The task targets chat, automation, desktop, or another external system."
          AgentKind.openclaw RouteRole.execute "OpenClaw owns external-system work."
      else if s.is_architecture && not s.is_change
      then single_plan s.is_risky "The task is primarily architecture, analysis, or review."
          AgentKind.claude RouteRole.review "Claude owns non-destructive analysis and review work."
      else single_plan s.is_risky "The task is repository-scoped implementation work."
          AgentKind.codex RouteRole.execute "Codex owns coding implementation."

  unfoldable pub plan_for : AgentSelection → Signals → RoutePlan
  plan_for AgentSelection.parallel s = parallel_plan s.is_risky
  plan_for AgentSelection.auto s =
      if s.is_planner_first
      then planner_first_plan s.is_risky
      else if s.is_risky && (s.is_coding && s.is_change)
      then reviewed_plan AgentSelection.auto
      else auto_plan s
  plan_for AgentSelection.codex s =
      if s.is_risky && (s.is_coding && s.is_change)
      then reviewed_plan AgentSelection.codex
      else explicit_plan s.is_risky "codex" AgentKind.codex
  plan_for AgentSelection.claude s = explicit_plan s.is_risky "claude" AgentKind.claude
  plan_for AgentSelection.openclaw s = explicit_plan s.is_risky "openclaw" AgentKind.openclaw

  unfoldable pub route_task : TaskPayload → RoutePlan
  unfolding plan_for signals_of
  route_task task = plan_for task.agent (signals_of task)
