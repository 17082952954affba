-- ===== src/Accp/Cursor.antt =====
-- src/accp/envelope.ts: decideCursorAction, which batches of events the receiver takes.
use agent_control_center_cor.Base.{
  ℕ, ◌+◌, ◌-◌, ◌≤◌, ◌<◌, ltb, leb, eqb, arith, Result, ok, err, ◌≡◌, if◌then◌else◌, ◌↔◌,
}
use agent_control_center_cor.Accp.Dedup.{RangeError, inverted_range}

pub data CursorDecision : Type 0 where
  accept : CursorDecision
  duplicate : ℕ → CursorDecision
  overlap : ℕ → CursorDecision
  gap : ℕ → ℕ → CursorDecision

-- The cursors are not negative (`CursorSchema`), and where the last line is reached the batch
-- starts at 2 or above, so `- 1` does not stop at 0.
unfoldable pub decide_cursor_action : ℕ → ℕ → ℕ → Result RangeError CursorDecision
decide_cursor_action acked first last =
    if ltb last first
    then err inverted_range
    else if leb last acked
    then ok (duplicate acked)
    else if leb first acked
    then ok (overlap (acked + 1))
    else if eqb first (acked + 1)
    then ok accept
    else ok (gap (acked + 1) (first - 1))

-- Whether a receiver that has everything up to `acked` applies the event at `cursor` of a batch.
abbrev pub Applies : CursorDecision → ℕ → Type 0
Applies accept cursor = Unit
Applies (duplicate at) cursor = ⊥
Applies (overlap from) cursor = from ≤ cursor
Applies (gap from to) cursor = ⊥

-- Whether a cursor is one that the decision calls missing.
abbrev pub Misses : CursorDecision → ℕ → Type 0
Misses (gap from to) cursor = (from ≤ cursor) × (cursor ≤ to)
Misses _ cursor = ⊥

-- Of a batch that is not inverted, the receiver applies an event exactly if it is new and nothing
-- is missing before the batch, and what it calls missing are exactly the cursors
-- between what it has and the batch.
pub decide_cursor_action_lem :
    (acked first last cursor : ℕ) (decision : CursorDecision)
    → decide_cursor_action acked first last ≡ ok decision
    → first ≤ cursor
    → cursor ≤ last
    → (Applies decision cursor ↔ ((acked < cursor) × (first ≤ acked + 1)))
      × ((other : ℕ)
          → Misses decision other ↔ (((acked < other) × (other < first)) × (acked < first)))
unfolding decide_cursor_action
decide_cursor_action_lem acked first last cursor accept h from to = (
  ((λ a. ground arith), (λ n. ground arith)),
  λ other. ((λ m. ground arith), (λ n. ground arith)),
)
decide_cursor_action_lem acked first last cursor (duplicate at) h from to = (
  ((λ a. ground arith), (λ n. ground arith)),
  λ other. ((λ m. ground arith), (λ n. ground arith)),
)
decide_cursor_action_lem acked first last cursor (overlap at) h from to = (
  ((λ a. ground arith), (λ n. ground arith)),
  λ other. ((λ m. ground arith), (λ n. ground arith)),
)
decide_cursor_action_lem acked first last cursor (gap at until) h from to = (
  ((λ a. ground arith), (λ n. ground arith)),
  λ other. ((λ m. ground arith), (λ n. ground arith)),
)
