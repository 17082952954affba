-- ===== src/Db/Tasks/Tests.antt =====
-- The theorems on claims, at small databases.
use agent_control_center_cor.Base.{ℕ, String, Option, none, some, ok, ◌≡◌, ◌≢◌, refl}
use agent_control_center_cor.Db.Action.{◌>>=◌, transaction}
use agent_control_center_cor.Db.Insert.{insert_event}
use agent_control_center_cor.Db.Samples.{two_queued}
use agent_control_center_cor.Db.Tasks.{claim_next_task, claim_candidate, claims_before}
use agent_control_center_cor.Db.Tasks.Claim.{
  Claimed, claim_next_task-Claimed, claim_next_task-exclusive,
}

-- The urgent task goes first, though it is the younger.
claims_urgent : (claim_next_task "worker-1" 9 two_queued).0 ≡ ok (some "task-2")
unfolding claim_next_task claim_candidate claims_before transaction ◌>>=◌ insert_event
    agent_control_center_cor.Base.order_first agent_control_center_cor.Base.select_where
    agent_control_center_cor.Base.count_where agent_control_center_cor.Db.Insert.has_task
    agent_control_center_cor.Base.any agent_control_center_cor.Base.update_where
    agent_control_center_cor.Db.Insert.has_run_or_null
claims_urgent = refl

claim_next_task-Claimed_example :
    Claimed "worker-1" 9 two_queued "task-2" (claim_next_task "worker-1" 9 two_queued).1
claim_next_task-Claimed_example =
    claim_next_task-Claimed "worker-1" 9 two_queued "task-2" claims_urgent

claim_next_task-exclusive_example :
    (claim_next_task "worker-2" 10 (claim_next_task "worker-1" 9 two_queued).1).0
    ≢ ok (some "task-2")
claim_next_task-exclusive_example =
    claim_next_task-exclusive "worker-1" "worker-2" 9 10 two_queued "task-2" claims_urgent
