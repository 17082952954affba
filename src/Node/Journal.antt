-- ===== src/Node/Journal.antt =====
-- src/node/state-store.ts: the interface NodeStateStore as calls and what they answer, and
-- InMemoryNodeStateStore behind it.
use agent_control_center_cor.Base.{ℕ, String, Option, none, some, List, [], ◌∷◌, Result, ok, err}
use agent_control_center_cor.Node.Store.{
  NodeEvent, TruncationReason, Truncation, OfferAnswer, Store, StoreError, set_node_cursor,
  set_acked_cursor, append_event, append_event_and_advance_cursor, events_after, prune_up_to,
  delete_event_at, save_offer_answer, get_answer, as_truncation_reason, append_truncation,
}

-- The methods. The map of `loadOfferAnswers` is read by its keys.
pub data Call : Type 0 where
  load_cursors : Call
  set_node : ℕ → Call
  set_acked : ℕ → Call
  append : NodeEvent → Call
  append_and_advance : NodeEvent → Call
  after_cursor : ℕ → Call
  prune : ℕ → Call
  delete : ℕ → Call
  save_answer : String → OfferAnswer → Call
  load_answer : String → Call
  truncate : ℕ → ℕ → String → Call
  load_truncations : Call

-- What a method returns, or that it throws.
pub data Answer : Type 0 where
  done : Answer
  thrown : Answer
  got_cursors : ℕ → ℕ → Answer
  got_events : List NodeEvent → Answer
  got_answer : Option OfferAnswer → Answer
  got_truncations : List Truncation → Answer

abbrev pub returned : Store → Result StoreError Store → Answer × Store
returned before (ok after) = (done, after)
returned before (err e) = (thrown, before)

abbrev pub truncated : ℕ → ℕ → Store → Option TruncationReason → Answer × Store
truncated from to store none = (thrown, store)
truncated from to store (some reason) =
    (done, append_truncation (record { from_cursor = from; to_cursor = to; reason = reason }) store)

unfoldable pub perform : Call → Store → Answer × Store
perform load_cursors store = (got_cursors store.node_cursor store.acked_cursor, store)
perform (set_node n) store = (done, set_node_cursor n store)
perform (set_acked n) store = (done, set_acked_cursor n store)
perform (append event) store = (done, append_event event store)
perform (append_and_advance event) store =
    returned store (append_event_and_advance_cursor event store)
perform (after_cursor n) store = (got_events (events_after n store), store)
perform (prune n) store = (done, prune_up_to n store)
perform (delete n) store = (done, delete_event_at n store)
perform (save_answer key given) store = (done, save_offer_answer key given store)
perform (load_answer key) store = (got_answer (get_answer key store.offer_answers), store)
perform (truncate from to reason) store = truncated from to store (as_truncation_reason reason)
perform load_truncations store = (got_truncations store.truncations, store)

-- What a sequence of calls answers, one call after the other
abbrev pub answers_of : {S : Type 0} → (Call → S → Answer × S) → List Call → S → List Answer
answers_of run [] state = []
answers_of run (call ∷ calls) state = (run call state).0 ∷ answers_of run calls (run call state).1
