-- ===== src/Db/Reviews/Decisions.antt =====
-- What a decision on a review leaves: the task has moved on, and nobody decides it again.
use agent_control_center_cor.Base.{
  ℕ, String, true, false, ◌&&◌, arith, Option, none, some, List, ok, err, ◌≡◌, ◌⊎◌, inl, inr, refl,
  sym, ap, ◌∙◌, subst, eq_iff, update_where, count_where, first_where, ◌==◌, get_or,
}
use agent_control_center_cor.Base.Text.{trim}
use agent_control_center_cor.Base.Lookup.{
  set_if, first_where-update_where, first_where-meets, count_where-first_where,
}
use agent_control_center_cor.Base.Order.{IsRow, IsRow-first_where, IsRow-update_where}
use agent_control_center_cor.Db.Legal.{Evolves, Evolves-update_where}
use agent_control_center_cor.Protocol.{TaskStatus, same_task_status}
use agent_control_center_cor.Db.State.{Db, TaskRow, ReviewRow, ReviewStatus, task_not_waiting}
use agent_control_center_cor.Db.Action.{transaction, ◌>>=◌, required, check}
use agent_control_center_cor.Db.Action.Returns.{
  transaction-ok, check-ok, required-ok, gets-ok, required-returns, update_tasks-ok,
  update_reviews-ok,
}
use agent_control_center_cor.Db.Tasks.{find_task}
use agent_control_center_cor.Db.Reviews.{
  Expected, is_current, is_pending, select_review, find_review, approve_task_review,
  request_task_rework, released, has_status, clean_note,
}

-- An UPDATE of the task with `task_id` while it has one status leaves it with the other.
pub find_task-released :
    (task_id : String) (from to : TaskStatus) (update : String) (updated_at : ℕ)
    (tasks : List TaskRow) (task : TaskRow)
    → first_where (λ (t : TaskRow). t.id == task_id) tasks ≡ some task
    → task.status ≡ from
    → first_where
        (λ (t : TaskRow). t.id == task_id)
        (update_where (has_status task_id from) (released to update updated_at) tasks)
      ≡ some (released to update updated_at task)
find_task-released task_id from to update updated_at tasks task found same =
    first_where-update_where (λ (t : TaskRow). t.id == task_id) (has_status task_id from)
      (released to update updated_at) tasks (λ t. refl)
    ∙ ap (set_if (has_status task_id from) (released to update updated_at)) found
    ∙ ap some
        (ground (arith, first_where-meets (λ (t : TaskRow). t.id == task_id) tasks task found))

-- What an approval writes to the review that it decides
abbrev approval : Option String → ℕ → ReviewRow → ReviewRow
approval note updated_at r = record r {
  status = ReviewStatus.approved;
  note = clean_note note;
  updated_at = updated_at;
}

module _ (task_id : String) (note : Option String) (expected : Option Expected) (updated_at : ℕ)
    (db : Db) where
  pub record Approved (row : ReviewRow) (after : Db) : Type 0 where
    pub task : TaskRow
    pub found : find_task task_id db ≡ some task
    pub waiting : task.status ≡ TaskStatus.needs_review
    pub review : ReviewRow
    pub selected : select_review task_id expected db ≡ some review
    pub undecided : review.status ≡ ReviewStatus.pending
    pub current : is_current expected review ≡ true
    pub returned : find_review review.id after ≡ some row
    pub reviews :
        after.reviews
        ≡ update_where
            (λ (r : ReviewRow).
              r.id == review.id
              && r.task_id == task_id
              && is_pending r.status
              && is_current expected r)
            (approval note updated_at)
            db.reviews
    pub one :
        count_where
          (λ (r : ReviewRow).
            r.id == review.id
            && r.task_id == task_id
            && is_pending r.status
            && is_current expected r)
          db.reviews
        ≡ 1
    pub tasks :
        after.tasks
        ≡ update_where
            (has_status task_id TaskStatus.needs_review)
            (released TaskStatus.done
              (get_or (clean_note note) "Approved by human reviewer.")
              updated_at)
            db.tasks

  approve_task_review-Approved :
      (row : ReviewRow) (after : Db)
      → approve_task_review task_id note expected updated_at db ≡ (ok row, after)
      → Approved row after
  unfolding approve_task_review
  approve_task_review-Approved row after h =
      let (task, (found, h1)) = required-ok _ _ _ (gets-ok _ _ (transaction-ok _ h)) in
      let (waiting, h2) = check-ok _ _ _ h1 in
      let (review, (selected, h3)) = required-ok _ _ _ (gets-ok _ _ h2) in
      let (live, h4) = check-ok _ _ _ h3 in
      let (one, h5) = check-ok _ _ _ (update_reviews-ok _ _ _ _ h4) in
      let (moved, h6) = check-ok _ _ _ (update_tasks-ok _ _ _ _ h5) in
      let (its_row, last) = required-returns _ _ (gets-ok _ _ h6) in
      record {
        task = task;
        found = found;
        waiting = ground arith;
        review = review;
        selected = selected;
        undecided = ground arith;
        current = ground arith;
        returned = subst (λ d. find_review review.id d ≡ some row) last its_row;
        reviews = ap (λ (d : Db). d.reviews) (sym last);
        one = ground arith;
        tasks = ap (λ (d : Db). d.tasks) (sym last);
      }

pub approve_not_waiting :
    (task_id : String) (note : Option String) (expected : Option Expected) (updated_at : ℕ)
    (db : Db) (task : TaskRow)
    → find_task task_id db ≡ some task
    → same_task_status task.status TaskStatus.needs_review ≡ false
    → (approve_task_review task_id note expected updated_at db).0 ≡ err (task_not_waiting task_id)
unfolding approve_task_review transaction ◌>>=◌
approve_not_waiting task_id reason expected updated_at db task found elsewhere =
    rw (found, required, elsewhere, check) refl

pub rework_not_waiting :
    (task_id note : String) (expected : Option Expected) (message_id : String) (updated_at : ℕ)
    (db : Db) (task : TaskRow)
    → (trim note == "") ≡ false
    → find_task task_id db ≡ some task
    → same_task_status task.status TaskStatus.needs_review ≡ false
    → (request_task_rework task_id note expected message_id updated_at db).0
      ≡ err (task_not_waiting task_id)
unfolding request_task_rework transaction ◌>>=◌
rework_not_waiting task_id note expected message_id updated_at db task said found elsewhere =
    rw (said, found, required, elsewhere, check) refl

-- Of a review: it stays as it was, or it is the pending one of the task, and is approved.
abbrev pub Decides : String → ReviewRow → Option String → ℕ → ReviewRow → ReviewRow → Type 0
Decides task_id review note updated_at r s =
    (s ≡ r)
    ⊎ ((r.id ≡ review.id)
        × (r.task_id ≡ task_id)
        × (r.status ≡ ReviewStatus.pending)
        × (s.id ≡ r.id)
        × (s.status ≡ ReviewStatus.approved)
        × (s.note ≡ clean_note note)
        × (s.updated_at ≡ updated_at))

module _ (task_id : String) (note : Option String) (expected : Option Expected) (updated_at : ℕ)
    (db : Db) (row : ReviewRow) (after : Db) where
  -- The review that was selected, what became of the reviews and of the task, and who can approve later
  pub record IsFinal : Type 0 where
    pub review : ReviewRow
    pub selected : select_review task_id expected db ≡ some review
    pub undecided : review.status ≡ ReviewStatus.pending
    pub current : is_current expected review ≡ true
    pub returned : find_review review.id after ≡ some row
    pub reviews : Evolves (Decides task_id review note updated_at) (λ r. ⊥) db.reviews after.reviews
    pub decided : ReviewRow
    pub is_there : IsRow decided after.reviews
    pub same_review : decided.id ≡ review.id
    pub approved : decided.status ≡ ReviewStatus.approved
    pub task : TaskRow
    pub found : find_task task_id after ≡ some task
    pub done : task.status ≡ TaskStatus.done
    pub released : (task.claimed_by ≡ none) × (task.claimed_at ≡ none)
    pub once :
        (later : Db) (note' : Option String) (expected' : Option Expected) (updated_at' : ℕ)
        → find_task task_id later ≡ some task
        → (approve_task_review task_id note' expected' updated_at' later).0
          ≡ err (task_not_waiting task_id)

  -- An approval that returns found a review that is pending and, where the reviewer names the
  -- version that they saw, still that version. It returns the row that has its id then, and leaves a
  -- review with that id approved; each review is as it was, or was the pending one of the task with that id and is
  -- approved with the cleaned note; the task is done and released; and an approval of the
  -- task is refused in every database that has its row still so.
  pub approve_task_review-final :
      approve_task_review task_id note expected updated_at db ≡ (ok row, after) → IsFinal
  approve_task_review-final h =
      let a = approve_task_review-Approved task_id note expected updated_at db row after h in
      let chosen = λ (r : ReviewRow).
        r.id == a.review.id
        && r.task_id == task_id
        && is_pending r.status
        && is_current expected r in
      let (x, at_x) = count_where-first_where chosen db.reviews a.one in
      let met = first_where-meets chosen db.reviews x at_x in
      record {
        review = a.review;
        selected = a.selected;
        undecided = a.undecided;
        current = a.current;
        returned = a.returned;
        reviews =
            subst (Evolves (Decides task_id a.review note updated_at) (λ r. ⊥) db.reviews)
              (sym a.reviews)
              (Evolves-update_where (Decides task_id a.review note updated_at) (λ r. ⊥)
                (λ r. inl refl) chosen (approval note updated_at) db.reviews
                λ r k. inr (
                  (eq_iff r.id a.review.id).0 (ground arith),
                  (eq_iff r.task_id task_id).0 (ground arith),
                  ground arith,
                  refl,
                  refl,
                  refl,
                  refl,
                ));
        decided = approval note updated_at x;
        is_there = subst (IsRow (approval note updated_at x)) (sym a.reviews) (
            IsRow-update_where chosen (approval note updated_at) x db.reviews
              (IsRow-first_where chosen db.reviews x at_x) met);
        same_review = (eq_iff x.id a.review.id).0 (ground arith);
        approved = refl;
        task = released TaskStatus.done _ updated_at a.task;
        found =
            ap (first_where (λ (t : TaskRow). t.id == task_id)) a.tasks
            ∙ find_task-released task_id TaskStatus.needs_review TaskStatus.done _ updated_at
                db.tasks a.task a.found a.waiting;
        done = refl;
        released = (refl, refl);
        once = λ later note' expected' updated_at' same.
            approve_not_waiting task_id note' expected' updated_at' later _ same refl;
      }
