-- ===== src/Protocol/TaskId/Tests.antt =====
-- The theorem on task ids, at one.
use agent_control_center_cor.Base.{String, some, ◌≡◌, refl}
use agent_control_center_cor.Protocol.TaskId.{
  parse_task_id, is_task_id, matches_task_id, IsStorageKey, parse_task_id-IsStorageKey,
}

parses : parse_task_id " task-1 " ≡ some "task-1"
unfolding parse_task_id is_task_id agent_control_center_cor.Base.Text.length
    agent_control_center_cor.Base.Text.trim matches_task_id
parses = refl

parse_task_id-IsStorageKey_example : IsStorageKey "task-1"
parse_task_id-IsStorageKey_example = parse_task_id-IsStorageKey " task-1 " "task-1" parses
