-- ===== src/Db/Idempotency.antt =====
-- src/db.ts: claimIdempotencyKey, completeIdempotencyKey, releaseIdempotencyKey.
pub mod Lifecycle
pub mod Legal
mod Tests
use agent_control_center_cor.Base.{
  ℕ, zero, suc, String, Bool, true, false, not, ◌&&◌, Option, none, some, List, [], ◌∷◌, ◌++◌,
  Result, ok, err, ltb, leb, eqb, ◌==◌, if◌then◌else◌, any, first_where, update_where, delete_where,
  count_where,
}
use agent_control_center_cor.Base.Text.{trim, length}
use agent_control_center_cor.Db.State.{
  Db, DbError, IdempotencyRow, IdempotencyState, key_required, key_too_long, key_no_response,
  key_disappeared, key_not_claimed, key_conflict, key_unverified, key_has_other_response,
  bad_response_status,
}
use agent_control_center_cor.Db.Action.{
  Action, ◌>>=◌, ◌>>◌, pure, throw, lift, gets, required, check,
}

unfoldable pub normalize_idempotency_value : String → Result DbError String
normalize_idempotency_value value =
    let normalized = trim value in
    if normalized == ""
    then err key_required
    else if ltb 512 (length normalized)
    then err key_too_long
    else ok normalized

-- The body of a replayed response is the JSON text that was stored.
pub data IdempotencyClaim : Type 0 where
  new : ℕ → IdempotencyClaim
  pending : ℕ → ℕ → IdempotencyClaim
  conflict : IdempotencyClaim
  replay : ℕ → String → ℕ → IdempotencyClaim

abbrev pub find_key : String → Db → Option IdempotencyRow
find_key key db = first_where (λ (r : IdempotencyRow). r.key == key) db.keys

abbrev pub claimed_key : String → String → ℕ → IdempotencyRow
claimed_key key request_hash created_at = record {
  key = key;
  request_hash = request_hash;
  state = IdempotencyState.pending;
  response_status = none;
  response_body = none;
  created_at = created_at;
  updated_at = created_at;
}

-- INSERT … ON CONFLICT(key) DO NOTHING, and its `changes`
unfoldable pub insert_key : IdempotencyRow → Action ℕ
insert_key row db =
    if any (λ (r : IdempotencyRow). r.key == row.key) db.keys
    then (ok 0, db)
    else (ok 1, record db { keys = db.keys ++ row ∷ [] })

-- The answer for a row with the same key; `none` of a completed row cannot be replayed.
answer_completed : String → ℕ → Option ℕ → Option String → Result DbError IdempotencyClaim
answer_completed key updated_at (some status) (some body) = ok (replay status body updated_at)
answer_completed key updated_at _ _ = err (key_no_response key)

answer_state : IdempotencyState → IdempotencyRow → Result DbError IdempotencyClaim
unfolding answer_completed
answer_state IdempotencyState.pending row = ok (pending row.created_at row.updated_at)
answer_state IdempotencyState.completed row =
    answer_completed row.key row.updated_at row.response_status row.response_body

pub answer_claim : String → IdempotencyRow → Result DbError IdempotencyClaim
unfolding answer_state
answer_claim request_hash row =
    if row.request_hash == request_hash then answer_state row.state row else ok conflict

-- One round of the loop: an INSERT, and where it did nothing a SELECT. Each is a statement of its
-- own, and another process may release the key in between: `between` is what it does to
-- the table.
abbrev pub claim_found :
    Action IdempotencyClaim → String → Option IdempotencyRow → Action IdempotencyClaim
claim_found again request_hash none = again
claim_found again request_hash (some row) = lift (answer_claim request_hash row)

meanwhile : (List IdempotencyRow → List IdempotencyRow) → Action (Unit {0})
meanwhile f db = (ok tt, record db { keys = f db.keys })

claim_round :
    (List IdempotencyRow → List IdempotencyRow)
    → String
    → String
    → ℕ
    → Action IdempotencyClaim
    → Action IdempotencyClaim
claim_round between key request_hash created_at again = do
  changes ← insert_key (claimed_key key request_hash created_at)
  if eqb changes 1
      then pure (new created_at)
      else (do meanwhile between; found ← gets (find_key key); claim_found again request_hash found)

-- `claimIdempotencyKey`: `attempt < 2`. `between` acts in each round between INSERT and SELECT.
pub claim_idempotency_key :
    (List IdempotencyRow → List IdempotencyRow) → String → String → ℕ → Action IdempotencyClaim
unfolding claim_round
claim_idempotency_key between key_input request_hash_input created_at = do
  key ← lift (normalize_idempotency_value key_input)
  request_hash ← lift (normalize_idempotency_value request_hash_input)
  claim_round between key request_hash created_at
      (claim_round between key request_hash created_at (throw (key_disappeared key)))

abbrev pub is_completed : IdempotencyState → Bool
is_completed IdempotencyState.completed = true
is_completed IdempotencyState.pending = false

abbrev pub is_pending_claim : String → String → IdempotencyRow → Bool
is_pending_claim key request_hash r =
    r.key == key && r.request_hash == request_hash && not (is_completed r.state)

abbrev pub has_status : ℕ → Option ℕ → Bool
has_status status none = false
has_status status (some s) = eqb s status

abbrev pub has_body : String → Option String → Bool
has_body body none = false
has_body body (some b) = b == body

unfoldable pub update_keys : (IdempotencyRow → Bool) → (IdempotencyRow → IdempotencyRow) → Action ℕ
update_keys p f db = (ok (count_where p db.keys), record db { keys = update_where p f db.keys })

abbrev pub completed_key : ℕ → String → ℕ → IdempotencyRow → IdempotencyRow
completed_key status body updated_at r = record r {
  state = IdempotencyState.completed;
  response_status = some status;
  response_body = some body;
  updated_at = updated_at;
}

-- `completeIdempotencyKey`; `body` is the JSON text of the response.
pub complete_idempotency_key : String → String → ℕ → String → ℕ → Action IdempotencyRow
complete_idempotency_key key_input request_hash_input status body updated_at = do
  key ← lift (normalize_idempotency_value key_input)
  request_hash ← lift (normalize_idempotency_value request_hash_input)
  check (leb 100 status && leb status 599) bad_response_status
  changes ← update_keys (is_pending_claim key request_hash) (completed_key status body updated_at)
  found ← gets (find_key key)
  current ← required found (key_not_claimed key)
  check (current.request_hash == request_hash) (key_conflict key)
  check
      (is_completed current.state
        && has_status status current.response_status
        && has_body body current.response_body)
      (if eqb changes 1 then key_unverified key else key_has_other_response key)
  pure current

unfoldable pub delete_keys : (IdempotencyRow → Bool) → Action ℕ
delete_keys p db = (ok (count_where p db.keys), record db { keys = delete_where p db.keys })

pub release_idempotency_key : String → String → Action Bool
release_idempotency_key key_input request_hash_input = do
  key ← lift (normalize_idempotency_value key_input)
  request_hash ← lift (normalize_idempotency_value request_hash_input)
  changes ← delete_keys (is_pending_claim key request_hash)
  pure (eqb changes 1)
