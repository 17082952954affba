-- ===== src/Db/Idempotency/Tests.antt =====
-- The theorems on the life of a key, at one key.
use agent_control_center_cor.Base.{
  ℕ, String, Option, none, some, true, false, ok, err, List, [], ◌≡◌, ◌≢◌, refl, ◌==◌,
  if◌then◌else◌,
}
use agent_control_center_cor.Db.State.{Db, IdempotencyRow}
use agent_control_center_cor.Db.Action.{◌>>=◌}
use agent_control_center_cor.Db.Samples.{sample_db}
use agent_control_center_cor.Db.Idempotency.{
  IdempotencyClaim, new, pending, conflict, replay, claim_idempotency_key, complete_idempotency_key,
  claimed_key, completed_key, normalize_idempotency_value,
}
use agent_control_center_cor.Db.Idempotency.Lifecycle.{
  LeavesKey, claim_idempotency_key-once, complete_idempotency_key-replay,
}

-- no other process
abbrev alone : List IdempotencyRow → List IdempotencyRow
alone keys = keys

alone-LeavesKey : LeavesKey "key-1" alone
alone-LeavesKey keys = refl

abbrev no_keys : Db
no_keys = sample_db [] [] []

abbrev claimed : Db
claimed = (claim_idempotency_key alone "key-1" "hash-1" 3 no_keys).1

claims : claim_idempotency_key alone "key-1" "hash-1" 3 no_keys ≡ (ok (new 3), claimed)
unfolding claim_idempotency_key ◌>>=◌ normalize_idempotency_value
    agent_control_center_cor.Base.Text.trim agent_control_center_cor.Base.Text.length
    agent_control_center_cor.Db.Idempotency.insert_key agent_control_center_cor.Base.any
claims = refl

key_ok : normalize_idempotency_value "key-1" ≡ ok "key-1"
unfolding normalize_idempotency_value agent_control_center_cor.Base.Text.trim
    agent_control_center_cor.Base.Text.length
key_ok = refl

hash_ok : normalize_idempotency_value "hash-1" ≡ ok "hash-1"
unfolding normalize_idempotency_value agent_control_center_cor.Base.Text.trim
    agent_control_center_cor.Base.Text.length
hash_ok = refl

claim_idempotency_key-once_example :
    (claim_idempotency_key alone "key-1" "hash-1" 4 claimed).0
    ≡ ok (if "hash-1" == "hash-1" then pending 3 3 else conflict)
claim_idempotency_key-once_example =
    claim_idempotency_key-once alone alone "key-1" "hash-1" "key-1" "hash-1" 3 3 no_keys claimed
      claims key_ok hash_ok alone-LeavesKey "hash-1" "hash-1" 4 hash_ok

abbrev stored_row : IdempotencyRow
stored_row = completed_key 201 "{}" 5 (claimed_key "key-1" "hash-1" 3)

abbrev stored : Db
stored = (complete_idempotency_key "key-1" "hash-1" 201 "{}" 5 claimed).1

completes : complete_idempotency_key "key-1" "hash-1" 201 "{}" 5 claimed ≡ (ok stored_row, stored)
unfolding complete_idempotency_key ◌>>=◌ normalize_idempotency_value
    agent_control_center_cor.Base.Text.trim agent_control_center_cor.Base.Text.length
    agent_control_center_cor.Db.Idempotency.update_keys agent_control_center_cor.Base.first_where
    agent_control_center_cor.Base.update_where claim_idempotency_key
    agent_control_center_cor.Db.Idempotency.insert_key agent_control_center_cor.Base.any
completes = refl

complete_idempotency_key-replay_example :
    ((later : ℕ)
      → (claim_idempotency_key alone "key-1" "hash-1" later stored).0 ≡ ok (replay 201 "{}" 5))
    × ((other_input other : String) (later : ℕ)
        → normalize_idempotency_value other_input ≡ ok other
        → other ≢ "hash-1"
        → (claim_idempotency_key alone "key-1" other_input later stored).0 ≡ ok conflict)
complete_idempotency_key-replay_example =
    complete_idempotency_key-replay alone "key-1" "hash-1" "key-1" "hash-1" 201 "{}" 5 claimed
      stored_row stored completes key_ok hash_ok alone-LeavesKey
