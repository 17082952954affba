-- ===== src/Node/Store.antt =====
-- src/node/state-store.ts: InMemoryNodeStateStore, the journal of a node.
use agent_control_center_cor.Base.{
  ℕ, ◌+◌, String, not, Option, none, some, List, [], ◌∷◌, ◌++◌, Result, ok, err, ltb, eqb, ◌==◌,
  any, if◌then◌else◌, select_where, delete_where, order_by,
}
use agent_control_center_cor.Json.{Json}

-- A time is the text of its instant; `payload` is the field `data`.
pub record NodeEvent : Type 0 where
  pub cursor : ℕ
  pub event_id : String
  pub kind : String
  pub occurred_at : String
  pub payload : Json
  pub run_id : Option String
  pub task_id : Option String

pub data TruncationReason : Type 0 where
  buffer_bytes buffer_age : TruncationReason

pub record Truncation : Type 0 where
  pub from_cursor : ℕ
  pub to_cursor : ℕ
  pub reason : TruncationReason

-- The type and the payload of an answer to a work offer.
pub record OfferAnswer : Type 0 where
  pub type : String
  pub payload : Json

pub record Store : Type 0 where
  pub node_cursor : ℕ
  pub acked_cursor : ℕ
  pub events : List NodeEvent
  pub offer_answers : List (String × OfferAnswer)
  pub truncations : List Truncation

pub data StoreError : Type 0 where
  unexpected_cursor : ℕ → ℕ → StoreError
  duplicate_cursor : ℕ → StoreError

abbrev pub empty_store : Store
empty_store = record {
  node_cursor = 0;
  acked_cursor = 0;
  events = [];
  offer_answers = [];
  truncations = [];
}

unfoldable pub set_acked_cursor : ℕ → Store → Store
set_acked_cursor n store = record store { acked_cursor = n }

unfoldable pub set_node_cursor : ℕ → Store → Store
set_node_cursor n store = record store { node_cursor = n }

unfoldable pub append_event : NodeEvent → Store → Store
append_event event store = record store { events = store.events ++ event ∷ [] }

unfoldable pub append_event_and_advance_cursor : NodeEvent → Store → Result StoreError Store
append_event_and_advance_cursor event store =
    if not (eqb event.cursor (store.node_cursor + 1))
    then err (unexpected_cursor (store.node_cursor + 1) event.cursor)
    else if any (λ (e : NodeEvent). eqb e.cursor event.cursor) store.events
    then err (duplicate_cursor event.cursor)
    else ok (record store { events = store.events ++ event ∷ []; node_cursor = event.cursor })

-- The events above `cursor`, in ascending order.
abbrev pub events_above : ℕ → List NodeEvent → List NodeEvent
events_above cursor events =
    order_by (λ (a b : NodeEvent). ltb a.cursor b.cursor)
      (select_where (λ (e : NodeEvent). ltb cursor e.cursor) events)

unfoldable pub events_after : ℕ → Store → List NodeEvent
events_after cursor store = events_above cursor store.events

unfoldable pub prune_up_to : ℕ → Store → Store
prune_up_to cursor store = record store {
  events = select_where (λ (e : NodeEvent). ltb cursor e.cursor) store.events;
}

unfoldable pub delete_event_at : ℕ → Store → Store
delete_event_at cursor store = record store {
  events = delete_where (λ (e : NodeEvent). eqb e.cursor cursor) store.events;
}

-- `Map.set`: a key that is there keeps its place.
abbrev pub set_answer :
    String → OfferAnswer → List (String × OfferAnswer) → List (String × OfferAnswer)
set_answer key answer [] = (key, answer) ∷ []
set_answer key answer (entry ∷ entries) =
    let rest = set_answer key answer entries in
    if entry.0 == key then (key, answer) ∷ entries else entry ∷ rest

unfoldable pub save_offer_answer : String → OfferAnswer → Store → Store
save_offer_answer key answer store = record store {
  offer_answers = set_answer key answer store.offer_answers;
}

-- `Map.get`
abbrev pub get_answer : String → List (String × OfferAnswer) → Option OfferAnswer
get_answer key [] = none
get_answer key (entry ∷ entries) = if entry.0 == key then some entry.1 else get_answer key entries

unfoldable pub as_truncation_reason : String → Option TruncationReason
as_truncation_reason reason =
    if reason == "BUFFER_BYTES"
    then some TruncationReason.buffer_bytes
    else if reason == "BUFFER_AGE"
    then some TruncationReason.buffer_age
    else none

unfoldable pub append_truncation : Truncation → Store → Store
append_truncation t store = record store { truncations = store.truncations ++ t ∷ [] }
