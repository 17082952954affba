-- ===== src/Node/Sqlite.antt =====
-- src/node/state-store.ts: SqliteNodeStateStore, the journal of a node in one database file.
pub mod Rows
pub mod Represents
pub mod Refines
pub mod Tests
use agent_control_center_cor.Base.{
  ℕ, ◌+◌, String, Bool, not, Option, none, some, List, [], ◌∷◌, ◌++◌, ltb, leb, eqb, ◌==◌, any,
  if◌then◌else◌, select_where, delete_where, order_by, get_or, Result, ok, err,
}
use agent_control_center_cor.Json.{Json}
use agent_control_center_cor.Node.Store.{
  NodeEvent, TruncationReason, Truncation, OfferAnswer, as_truncation_reason,
}
use agent_control_center_cor.Node.Journal.{
  Call, load_cursors, set_node, set_acked, append, append_and_advance, after_cursor, prune, delete,
  save_answer, load_answer, truncate, load_truncations, Answer, done, thrown, got_cursors,
  got_events, got_answer, got_truncations,
}

pub record TruncationRow : Type 0 where
  pub from_cursor : ℕ
  pub to_cursor : ℕ
  pub reason : String

-- The tables of SCHEMA_DDL, in the order of their inserts.
pub record Tables : Type 0 where
  pub node_events : List (ℕ × String)
  pub node_cursors : List (String × ℕ)
  pub offer_answers : List (String × (String × String))
  pub truncations : List TruncationRow

-- JSON.stringify and JSON.parse, and for events NodeEventSchema.parse after JSON.parse
pub record Codec : Type 0 where
  pub encode_event : NodeEvent → String
  pub decode_event : String → Option NodeEvent
  pub stringify : Json → String
  pub parse : String → Option Json

abbrev pub empty_tables : Tables
empty_tables = record { node_events = []; node_cursors = []; offer_answers = []; truncations = [] }

-- `#migrate`, by PRAGMA user_version: the version and the tables that the file has then, or that its
-- version is not supported. CREATE TABLE IF NOT EXISTS keeps the rows of a table that is there.
unfoldable pub migrate : ℕ → Tables → Option (ℕ × Tables)
migrate version tables =
    if eqb version 0 then some (1, tables) else if eqb version 1 then some (1, tables) else none

module _ {A : Type 0} where
  -- SELECT … WHERE key = ?
  abbrev pub row_of : String → List (String × A) → Option A
  row_of key [] = none
  row_of key (row ∷ rows) = if row.0 == key then some row.1 else row_of key rows

  -- INSERT … ON CONFLICT DO UPDATE
  unfoldable pub upsert : String → A → List (String × A) → List (String × A)
  upsert key value [] = (key, value) ∷ []
  upsert key value (row ∷ rows) =
      let rest = upsert key value rows in if row.0 == key then (key, value) ∷ rows else row ∷ rest

unfoldable pub cursor_value : String → Tables → ℕ
cursor_value key tables = get_or (row_of key tables.node_cursors) 0

unfoldable pub set_cursor : String → ℕ → Tables → Tables
set_cursor key n tables = record tables { node_cursors = upsert key n tables.node_cursors }

-- `#insertEvent`: the cursor is the primary key.
unfoldable pub insert_event : Codec → NodeEvent → Tables → Option Tables
insert_event codec event tables =
    if any (λ (row : ℕ × String). eqb row.0 event.cursor) tables.node_events
    then none
    else some (record tables {
      node_events = tables.node_events ++ (event.cursor, codec.encode_event event) ∷ [];
    })

abbrev pub advanced : ℕ → Tables → Option Tables → Answer × Tables
advanced cursor before none = (thrown, before)
advanced cursor before (some tables) = (done, set_cursor "node_cursor" cursor tables)

abbrev pub inserted : Tables → Option Tables → Answer × Tables
inserted before none = (thrown, before)
inserted before (some tables) = (done, tables)

unfoldable pub append_and_advance_rows : Codec → NodeEvent → Tables → Answer × Tables
append_and_advance_rows codec event tables =
    if not (eqb event.cursor (cursor_value "node_cursor" tables + 1))
    then (thrown, tables)
    else advanced event.cursor tables (insert_event codec event tables)

abbrev pub also : {A : Type 0} → Option A → Option (List A) → Option (List A)
also (some x) (some xs) = some (x ∷ xs)
also _ _ = none

-- the rows through `map`, whose function throws on the first row that it does not decode
unfoldable pub decode_all : {A B : Type 0} → (A → Option B) → List A → Option (List B)
decode_all decode [] = some []
decode_all decode (row ∷ rows) = also (decode row) (decode_all decode rows)

unfoldable pub select_events_after : ℕ → Tables → List (ℕ × String)
select_events_after cursor tables =
    order_by (λ (a b : ℕ × String). ltb a.0 b.0)
      (select_where (λ (row : ℕ × String). ltb cursor row.0) tables.node_events)

abbrev pub answer_events : Option (List NodeEvent) → Answer
answer_events none = thrown
answer_events (some found) = got_events found

abbrev pub with_payload : String → Option Json → Option OfferAnswer
with_payload type none = none
with_payload type (some payload) = some (record { type = type; payload = payload })

-- An answer that does not parse makes the whole of `loadOfferAnswers` throw.
unfoldable pub decode_answer : Codec → String × (String × String) → Option (String × OfferAnswer)
decode_answer codec row = elim (with_payload row.1.0 (codec.parse row.1.1)) [
  | none ↦ none
  | some given ↦ some (row.0, given)
]

abbrev pub answer_for : String → Option (List (String × OfferAnswer)) → Answer
answer_for key none = thrown
answer_for key (some answers) = got_answer (row_of key answers)

unfoldable pub decode_truncation : TruncationRow → Option Truncation
decode_truncation row = elim (as_truncation_reason row.reason) [
  | none ↦ none
  | some reason ↦
      some (record { from_cursor = row.from_cursor; to_cursor = row.to_cursor; reason = reason })
]

abbrev pub answer_truncations : Option (List Truncation) → Answer
answer_truncations none = thrown
answer_truncations (some found) = got_truncations found

unfoldable pub insert_truncation :
    ℕ → ℕ → String → Tables → Option TruncationReason → Answer × Tables
insert_truncation from to reason tables none = (thrown, tables)
insert_truncation from to reason tables (some _) = (
  done,
  record tables {
    truncations =
        tables.truncations ++ record { from_cursor = from; to_cursor = to; reason = reason } ∷ [];
  },
)

unfoldable pub perform_rows : Codec → Call → Tables → Answer × Tables
perform_rows codec load_cursors tables =
    (got_cursors (cursor_value "node_cursor" tables) (cursor_value "acked_cursor" tables), tables)
perform_rows codec (set_node n) tables = (done, set_cursor "node_cursor" n tables)
perform_rows codec (set_acked n) tables = (done, set_cursor "acked_cursor" n tables)
perform_rows codec (append event) tables = inserted tables (insert_event codec event tables)
perform_rows codec (append_and_advance event) tables = append_and_advance_rows codec event tables
perform_rows codec (after_cursor n) tables = (
  answer_events (decode_all (λ row. codec.decode_event row.1) (select_events_after n tables)),
  tables,
)
perform_rows codec (prune n) tables = (
  done,
  record tables {
    node_events = delete_where (λ (row : ℕ × String). leb row.0 n) tables.node_events;
  },
)
perform_rows codec (delete n) tables = (
  done,
  record tables {
    node_events = delete_where (λ (row : ℕ × String). eqb row.0 n) tables.node_events;
  },
)
perform_rows codec (save_answer key given) tables = (
  done,
  record tables {
    offer_answers = upsert key (given.type, codec.stringify given.payload) tables.offer_answers;
  },
)
perform_rows codec (load_answer key) tables =
    (answer_for key (decode_all (decode_answer codec) tables.offer_answers), tables)
perform_rows codec (truncate from to reason) tables =
    insert_truncation from to reason tables (as_truncation_reason reason)
perform_rows codec load_truncations tables =
    (answer_truncations (decode_all decode_truncation tables.truncations), tables)
