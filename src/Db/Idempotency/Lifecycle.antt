-- ===== src/Db/Idempotency/Lifecycle.antt =====
-- The life of an idempotency key: claimed once, then pending, then replayed or released.
use agent_control_center_cor.Base.{
  ℕ, String, Bool, true, ◌&&◌, arith, Option, none, some, List, Result, ok, ◌≡◌, ◌≢◌, eq_iff,
  eq_refl, refl, sym, ap, ◌∙◌, if◌then◌else◌, any, first_where, ◌==◌, Bool-cases, Option-cases, inl,
  inr,
}
use agent_control_center_cor.Base.Lookup.{first_where-append, any-first_where, ap2}
use agent_control_center_cor.Db.State.{Db, DbError, IdempotencyRow, key_disappeared}
use agent_control_center_cor.Db.Action.{Action, ◌>>=◌, throw}
use agent_control_center_cor.Db.Action.Returns.{
  check-ok, required-ok, lift-ok, bind-ok, pure-ok, gets-ok,
}
use agent_control_center_cor.Db.Idempotency.{
  IdempotencyClaim, new, pending, conflict, replay, normalize_idempotency_value, find_key,
  claimed_key, insert_key, answer_claim, claim_round, meanwhile, claim_idempotency_key,
  complete_idempotency_key, answer_state, answer_completed, is_completed, has_status, has_body,
}

-- What other processes do to the table leaves the row of `key` alone.
abbrev pub LeavesKey : String → (List IdempotencyRow → List IdempotencyRow) → Type 0
LeavesKey key between =
    (keys : List IdempotencyRow)
    → first_where (λ (r : IdempotencyRow). r.key == key) (between keys)
      ≡ first_where (λ (r : IdempotencyRow). r.key == key) keys

module _ (between : List IdempotencyRow → List IdempotencyRow)
    (key_input hash_input key hash : String) (now : ℕ) (db : Db) where
  -- A claim of a key that is there is answered from its row.
  claim_present :
      (row : IdempotencyRow)
      → normalize_idempotency_value key_input ≡ ok key
      → normalize_idempotency_value hash_input ≡ ok hash
      → LeavesKey key between
      → find_key key db ≡ some row
      → (claim_idempotency_key between key_input hash_input now db).0 ≡ answer_claim hash row
  unfolding claim_idempotency_key claim_round meanwhile insert_key ◌>>=◌
  claim_present row key_ok hash_ok leaves found =
      rw (key_ok, hash_ok, any-first_where _ db.keys row found, if◌then◌else◌, leaves, found) refl

answer_claim-conflict :
    (hash : String) (row : IdempotencyRow)
    → row.request_hash ≢ hash
    → answer_claim hash row ≡ ok conflict
unfolding answer_claim
answer_claim-conflict hash row other = ground (arith, eq_iff row.request_hash hash)

answer_completed-replay :
    (key body : String) (status updated_at : ℕ) (stored_status : Option ℕ)
    (stored_body : Option String)
    → (has_status status stored_status && has_body body stored_body) ≡ true
    → answer_completed key updated_at stored_status stored_body ≡ ok (replay status body updated_at)
unfolding answer_completed
answer_completed-replay key body status updated_at (some s) (some b) h =
    ground (arith, eq_iff b body)
answer_completed-replay key body status updated_at none stored_body h = cc
answer_completed-replay key body status updated_at (some s) none h = ground arith

answer_claim-replay :
    (hash : String) (status : ℕ) (body : String) (row : IdempotencyRow)
    → (row.request_hash == hash) ≡ true
    → (is_completed row.state
        && has_status status row.response_status
        && has_body body row.response_body)
      ≡ true
    → answer_claim hash row ≡ ok (replay status body row.updated_at)
unfolding answer_claim answer_state answer_completed
answer_claim-replay hash status body row same stored = ground (
  arith,
  answer_completed-replay row.key body status row.updated_at row.response_status row.response_body,
)

abbrev is_stored : ℕ → String → IdempotencyRow → Bool
is_stored status body row =
    is_completed row.state
    && has_status status row.response_status
    && has_body body row.response_body

complete_idempotency_key-stored :
    (key_input hash_input key hash : String) (status : ℕ) (body : String) (now : ℕ) (db after : Db)
    (row : IdempotencyRow)
    → complete_idempotency_key key_input hash_input status body now db ≡ (ok row, after)
    → normalize_idempotency_value key_input ≡ ok key
    → normalize_idempotency_value hash_input ≡ ok hash
    → (find_key key after ≡ some row)
      × (((row.request_hash == hash) ≡ true) × (is_stored status body row ≡ true))
unfolding complete_idempotency_key
complete_idempotency_key-stored key_input hash_input key hash status body now db after row h key_ok
      hash_ok =
    let (key', (key_ok', h1)) = lift-ok _ _ h in
    let (hash', (hash_ok', h2)) = lift-ok _ _ h1 in
    let (in_range, h3) = check-ok _ _ _ h2 in
    let (changes, (db', (written, h4))) = bind-ok _ _ h3 in
    let (current, (found, h5)) = required-ok _ _ _ (gets-ok _ _ h4) in
    let (same, h6) = check-ok _ _ _ h5 in
    let (stored, h7) = check-ok _ _ _ h6 in
    let (its_row, last) = pure-ok _ h7 in
    let same_key : key' ≡ key = ground arith in
    let same_hash : hash' ≡ hash = ground arith in
    (
      ap2 find_key (sym same_key) (sym last) ∙ found ∙ ap some its_row,
      (
        ap2 (λ (r : IdempotencyRow) (t : String). r.request_hash == t) (sym its_row) (sym same_hash)
            ∙ same,
        ap (is_stored status body) (sym its_row) ∙ stored,
      ),
    )

module _ (between : List IdempotencyRow → List IdempotencyRow)
    (key_input hash_input key hash : String) (status : ℕ) (body : String) (now : ℕ) (db : Db)
    (row : IdempotencyRow) (after : Db) where
  -- Once a response is stored, a claim of the key with the same request is answered
  -- with that response, and a claim with another request is a conflict, as long as other processes
  -- leave the key's row alone.
  pub complete_idempotency_key-replay :
      complete_idempotency_key key_input hash_input status body now db ≡ (ok row, after)
      → normalize_idempotency_value key_input ≡ ok key
      → normalize_idempotency_value hash_input ≡ ok hash
      → LeavesKey key between
      → ((later : ℕ)
          → (claim_idempotency_key between key_input hash_input later after).0
            ≡ ok (replay status body row.updated_at))
        × ((other_input other : String) (later : ℕ)
            → normalize_idempotency_value other_input ≡ ok other
            → other ≢ hash
            → (claim_idempotency_key between key_input other_input later after).0 ≡ ok conflict)
  complete_idempotency_key-replay h key_ok hash_ok leaves =
      let (present, (same, stored)) =
        complete_idempotency_key-stored key_input hash_input key hash status body now db after row h
          key_ok hash_ok in
      (
        (λ later.
            claim_present between key_input hash_input key hash later after row key_ok hash_ok
              leaves present
            ∙ answer_claim-replay hash status body row same stored),
        (λ other_input other later other_ok differs.
            claim_present between key_input other_input key other later after row key_ok other_ok
              leaves present
            ∙ answer_claim-conflict other row (ground (arith, eq_iff row.request_hash hash))),
      )

answer_claim-not_new :
    (hash : String) (row : IdempotencyRow) (at : ℕ) → answer_claim hash row ≢ ok (new at)
unfolding answer_claim answer_state answer_completed
answer_claim-not_new hash row at h = ground arith

module _ (between : List IdempotencyRow → List IdempotencyRow) (key hash : String) (now at : ℕ)
    (after : Db) where
  -- `again` is what the round does where the row is gone by the time that it is read.
  claim_round-new :
      (again : Action IdempotencyClaim) (db : Db)
      → ((db' : Db)
          → again db' ≡ (ok (new at), after)
          → find_key key after ≡ some (claimed_key key hash now))
      → claim_round between key hash now again db ≡ (ok (new at), after)
      → find_key key after ≡ some (claimed_key key hash now)
  unfolding claim_round meanwhile insert_key ◌>>=◌
  claim_round-new again db otherwise h =
      elim (Bool-cases (any (λ (r : IdempotencyRow). r.key == key) db.keys)) [
        | inl taken ↦ elim (Option-cases (find_key key (record db { keys = between db.keys }))) [
          | inl gone ↦
              otherwise (record db { keys = between db.keys })
                (rw (taken, if◌then◌else◌, gone) at h)
          | inr (row, found) ↦
              let answered = (rw (taken, if◌then◌else◌, found) at h) in
              absurd (
                answer_claim-not_new hash row at
                  (ap (λ (r : Result DbError IdempotencyClaim × Db). r.0) answered))
        ]
        | inr absent ↦
            (let written = (rw (absent, if◌then◌else◌) at h) in
              ap (λ (r : Result DbError IdempotencyClaim × Db). find_key key r.1) (sym written)
              ∙ first_where-append (λ (r : IdempotencyRow). r.key == key) db.keys
                  (claimed_key key hash now) absent (eq_refl key))
      ]

claim_new :
    (between : List IdempotencyRow → List IdempotencyRow) (key_input hash_input key hash : String)
    (now at : ℕ) (db after : Db)
    → claim_idempotency_key between key_input hash_input now db ≡ (ok (new at), after)
    → normalize_idempotency_value key_input ≡ ok key
    → normalize_idempotency_value hash_input ≡ ok hash
    → find_key key after ≡ some (claimed_key key hash now)
unfolding claim_idempotency_key claim_round ◌>>=◌
claim_new between key_input hash_input key hash now at db after h key_ok hash_ok =
    let again = claim_round between key hash now (throw (key_disappeared key)) in
    claim_round-new between key hash now at after again db
      (λ db' h'.
        claim_round-new between key hash now at after (throw (key_disappeared key)) db'
          (λ db'' thrown. cc) h')
      (rw (key_ok, hash_ok) at h)

-- After a claim that answers `new`, a second claim of the key does not: with the
-- same request it answers that the first is pending, with another that there is a conflict, as long
-- as other processes leave the key's row alone.
pub claim_idempotency_key-once :
    (between between' : List IdempotencyRow → List IdempotencyRow)
    (key_input hash_input key hash : String) (now at : ℕ) (db after : Db)
    → claim_idempotency_key between key_input hash_input now db ≡ (ok (new at), after)
    → normalize_idempotency_value key_input ≡ ok key
    → normalize_idempotency_value hash_input ≡ ok hash
    → LeavesKey key between'
    → (other_input other : String) (later : ℕ) → normalize_idempotency_value other_input ≡ ok other
    → (claim_idempotency_key between' key_input other_input later after).0
      ≡ ok (if hash == other then pending now now else conflict)
unfolding answer_claim answer_state
claim_idempotency_key-once between between' key_input hash_input key hash now at db after h key_ok
      hash_ok leaves other_input other later other_ok =
    claim_present between' key_input other_input key other later after (claimed_key key hash now)
      key_ok other_ok leaves
      (claim_new between key_input hash_input key hash now at db after h key_ok hash_ok)
    ∙ elim (Bool-cases (hash == other)) [
      | inl same ↦ rw (same, if◌then◌else◌) refl
      | inr differs ↦ rw (differs, if◌then◌else◌) refl
    ]
