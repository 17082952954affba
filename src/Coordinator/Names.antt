-- ===== src/Coordinator/Names.antt =====
-- The texts of agents and roles in messages, and the data of events.
use agent_control_center_cor.Base.{ℕ, String, Option, none, some}
use agent_control_center_cor.Json.{Json, null, num, str, obj, field, end}
use agent_control_center_cor.Protocol.{AgentKind, RouteRole}

abbrev pub agent_name : AgentKind → String
agent_name AgentKind.codex = "codex"
agent_name AgentKind.claude = "claude"
agent_name AgentKind.openclaw = "openclaw"

abbrev pub role_name : RouteRole → String
role_name RouteRole.execute = "execute"
role_name RouteRole.review = "review"
role_name RouteRole.approval = "approval"

abbrev pub agent_and_role : AgentKind → RouteRole → Json
agent_and_role agent role =
    obj (field "agent" (str (agent_name agent)) (field "role" (str (role_name role)) end))

abbrev pub num_or_null : Option ℕ → Json
num_or_null none = null
num_or_null (some n) = num n

abbrev pub str_or_null : Option String → Json
str_or_null none = null
str_or_null (some s) = str s
