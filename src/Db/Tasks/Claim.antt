-- ===== src/Db/Tasks/Claim.antt =====
-- What `claimNextTask` claims.
use agent_control_center_cor.Base.{
  ℕ, String, Bool, true, false, ◌&&◌, ◌||◌, ltb, eqb, arith, Option, none, some, List, [], ◌∷◌, ok,
  ◌≡◌, ◌≢◌, eq_iff, refl, subst, All, update_where, count_where, select_where, ◌==◌,
}
use agent_control_center_cor.Base.Order.{
  IsWeakOrder, IsRow, All-IsRow, IsRow-select_where, All-select_where, order_first_lem,
}
use agent_control_center_cor.Protocol.{TaskStatus}
use agent_control_center_cor.Db.State.{Db, TaskRow}
use agent_control_center_cor.Db.Action.{transaction, ◌>>=◌, restore}
use agent_control_center_cor.Db.Insert.{insert_event}
use agent_control_center_cor.Db.Tasks.{
  claims_before, is_queued, claim_candidate, claimed_row, claim_found, claim_next_task,
  priority_rank,
}

rank_before-asym :
    (p a q b : ℕ)
    → (ltb p q || (eqb p q && ltb a b)) ≡ true
    → (ltb q p || (eqb q p && ltb b a)) ≡ false
rank_before-asym p a q b h = ground arith

rank_before-step :
    (p a q b r c : ℕ)
    → (ltb p q || (eqb p q && ltb a b)) ≡ false
    → (ltb q r || (eqb q r && ltb b c)) ≡ false
    → (ltb p r || (eqb p r && ltb a c)) ≡ false
rank_before-step p a q b r c h k = ground arith

claims_before-IsWeakOrder : IsWeakOrder claims_before
unfolding claims_before
claims_before-IsWeakOrder = record {
  asym = λ t u.
      rank_before-asym (priority_rank t.priority) t.created_at (priority_rank u.priority)
        u.created_at;
  step = λ t u v.
      rank_before-step (priority_rank t.priority) t.created_at (priority_rank u.priority)
        u.created_at (priority_rank v.priority) v.created_at;
}

claim_candidate_lem :
    (db : Db) (t : TaskRow)
    → claim_candidate db ≡ some t
    → IsRow t db.tasks
      × ((t.status ≡ TaskStatus.queued)
          × All (λ u. is_queued u ≡ true → claims_before u t ≡ false) db.tasks)
unfolding claim_candidate
claim_candidate_lem db t h =
    let (row, least) =
      order_first_lem claims_before-IsWeakOrder (select_where is_queued db.tasks) t h in
    let (here, queued) = IsRow-select_where is_queued t db.tasks row in
    (
      here,
      (ground arith, All-select_where (λ u. claims_before u t ≡ false) is_queued db.tasks least),
    )

-- the rows that the UPDATE of the claim meets
abbrev pub is_claimable : String → TaskRow → Bool
is_claimable id t = t.id == id && is_queued t

module _ (worker_id : String) (claimed_at : ℕ) where
  claim_found_lem :
      (o : Option TaskRow) (db : Db) (id : String)
      → (restore db (claim_found worker_id claimed_at o db)).0 ≡ ok (some id)
      → (t : TaskRow) × ((o ≡ some t)
          × ((t.id ≡ id)
              × ((count_where (is_claimable id) db.tasks ≡ 1)
                  × ((restore db (claim_found worker_id claimed_at o db)).1.tasks
                      ≡ update_where
                          (is_claimable id)
                          (claimed_row worker_id claimed_at)
                          db.tasks))))
  unfolding ◌>>=◌ insert_event
  claim_found_lem none db id h = cc
  claim_found_lem (some t) db id h = (t, (refl, ground arith))

-- A claim of `id` on a database: the row that it chose, and the tasks that it leaves.
pub record Claimed (worker_id : String) (claimed_at : ℕ) (before : Db) (id : String) (after : Db)
    : Type 0 where
  pub task : TaskRow
  pub row : IsRow task before.tasks
  pub its_id : task.id ≡ id
  pub queued : task.status ≡ TaskStatus.queued
  pub first : All (λ u. is_queued u ≡ true → claims_before u task ≡ false) before.tasks
  pub alone : count_where (is_claimable id) before.tasks ≡ 1
  pub written :
      after.tasks ≡ update_where (is_claimable id) (claimed_row worker_id claimed_at) before.tasks

module _ (worker_id : String) (claimed_at : ℕ) (db : Db) (id : String) where
  -- A claim that returns a task took a queued one that no queued task comes before by priority and
  -- then by age, and it writes the claim on that one row and changes no other task.
  pub claim_next_task-Claimed :
      (claim_next_task worker_id claimed_at db).0 ≡ ok (some id)
      → Claimed worker_id claimed_at db id (claim_next_task worker_id claimed_at db).1
  unfolding claim_next_task transaction ◌>>=◌
  claim_next_task-Claimed h =
      let (task, (chosen, (its_id, (alone, written)))) =
        claim_found_lem worker_id claimed_at (claim_candidate db) db id h in
      let (row, (queued, first)) = claim_candidate_lem db task chosen in
      record {
        task = task;
        row = row;
        its_id = its_id;
        queued = queued;
        first = first;
        alone = alone;
        written = written;
      }

  not_queued :
      (xs : List TaskRow)
      → All
          (λ u. u.id ≡ id → u.status ≡ TaskStatus.queued → ⊥)
          (update_where (is_claimable id) (claimed_row worker_id claimed_at) xs)
  unfolding update_where
  not_queued [] = tt
  not_queued (x ∷ xs) = (ground (arith, eq_iff x.id id), not_queued xs)

-- A claim right after another, of whichever worker, does not return the same task.
pub claim_next_task-exclusive :
    (worker worker' : String) (claimed_at claimed_at' : ℕ) (db : Db) (id : String)
    → (claim_next_task worker claimed_at db).0 ≡ ok (some id)
    → (claim_next_task worker' claimed_at' (claim_next_task worker claimed_at db).1).0
      ≢ ok (some id)
claim_next_task-exclusive worker worker' claimed_at claimed_at' db id h k =
    let first = claim_next_task-Claimed worker claimed_at db id h in
    let second =
      claim_next_task-Claimed worker' claimed_at' (claim_next_task worker claimed_at db).1 id k in
    All-IsRow (λ u. u.id ≡ id → u.status ≡ TaskStatus.queued → ⊥) second.task _
      (not_queued worker claimed_at db id db.tasks)
      (subst (IsRow second.task) first.written second.row) second.its_id second.queued
