-- ===== src/Db/Idempotency/Legal.antt =====
-- The methods of src/db.ts on idempotency keys write neither tasks nor runs.
use agent_control_center_cor.Base.{ℕ, String, refl, arith, Bool, List, Option, none, some}
use agent_control_center_cor.Db.State.{IdempotencyRow}
use agent_control_center_cor.Db.Action.{Action}
use agent_control_center_cor.Db.Legal.{Quiet, quiet_rules}
use agent_control_center_cor.Db.Idempotency.{
  IdempotencyClaim, insert_key, claim_found, claim_round, meanwhile, claim_idempotency_key,
  update_keys, complete_idempotency_key, delete_keys, release_idempotency_key,
}

Quiet-insert_key : (row : IdempotencyRow) → Quiet (insert_key row)
unfolding insert_key
Quiet-insert_key row = record { tasks = λ db. ground arith; runs = λ db. ground arith }

Quiet-update_keys :
    (p : IdempotencyRow → Bool) (f : IdempotencyRow → IdempotencyRow) → Quiet (update_keys p f)
unfolding update_keys
Quiet-update_keys p f = record { tasks = λ db. refl; runs = λ db. refl }

Quiet-delete_keys : (p : IdempotencyRow → Bool) → Quiet (delete_keys p)
unfolding delete_keys
Quiet-delete_keys p = record { tasks = λ db. refl; runs = λ db. refl }

Quiet-meanwhile : (between : List IdempotencyRow → List IdempotencyRow) → Quiet (meanwhile between)
unfolding meanwhile
Quiet-meanwhile between = record { tasks = λ db. refl; runs = λ db. refl }

Quiet-claim_found :
    (again : Action IdempotencyClaim) (request_hash : String) (found : Option IdempotencyRow)
    → Quiet again
    → Quiet (claim_found again request_hash found)
Quiet-claim_found again request_hash none q = q
Quiet-claim_found again request_hash (some row) q = search quiet_rules

ruleset key_rules = (
  quiet_rules, Quiet-insert_key, Quiet-update_keys, Quiet-delete_keys, Quiet-meanwhile,
  Quiet-claim_found,
)

Quiet-claim_round :
    (between : List IdempotencyRow → List IdempotencyRow) (key request_hash : String)
    (created_at : ℕ) (again : Action IdempotencyClaim)
    → Quiet again
    → Quiet (claim_round between key request_hash created_at again)
unfolding claim_round
Quiet-claim_round between key request_hash created_at again q = search key_rules depth 10

pub Quiet-claim_idempotency_key :
    (between : List IdempotencyRow → List IdempotencyRow) (key request_hash : String)
    (created_at : ℕ)
    → Quiet (claim_idempotency_key between key request_hash created_at)
unfolding claim_idempotency_key
Quiet-claim_idempotency_key between key request_hash created_at =
    search (key_rules, Quiet-claim_round) depth 10

pub Quiet-complete_idempotency_key :
    (key request_hash : String) (status : ℕ) (body : String) (updated_at : ℕ)
    → Quiet (complete_idempotency_key key request_hash status body updated_at)
unfolding complete_idempotency_key
Quiet-complete_idempotency_key key request_hash status body updated_at = search key_rules depth 14

pub Quiet-release_idempotency_key :
    (key request_hash : String) → Quiet (release_idempotency_key key request_hash)
unfolding release_idempotency_key
Quiet-release_idempotency_key key request_hash = search key_rules depth 10
