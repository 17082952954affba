-- ===== src/Node/Sqlite/Represents.antt =====
-- The journal of a node and the tables that hold it: what each write keeps.
use mathlib.Core.List.{map-append}
use agent_control_center_cor.Base.{
  ℕ, String, false, some, List, [], ◌∷◌, ◌++◌, map, ltb, leb, eqb, ◌==◌, any, select_where,
  delete_where, order_by, get_or, All, All-append, arith, ◌≡◌, refl, sym, ap, ◌∙◌, if_lem,
}
use agent_control_center_cor.Base.Order.{All-weaken}
use agent_control_center_cor.Node.Store.{
  NodeEvent, Truncation, OfferAnswer, Store, set_answer, events_above, set_node_cursor,
  set_acked_cursor, append_event, events_after, prune_up_to, delete_event_at, save_offer_answer,
  append_truncation,
}
use agent_control_center_cor.Node.Sqlite.Rows.{
  map-select_where, map-delete_where, map-any, map-order_by, All-selected, All-left, All-order_by,
  decode_all-map, delete_where-leb, row_of-upsert, row_of-upsert_other, decode_all-append,
}
use agent_control_center_cor.Node.Sqlite.{
  TruncationRow, Tables, Codec, upsert, cursor_value, set_cursor, decode_all, select_events_after,
  decode_answer, decode_truncation,
}

-- What the journal relies on of JSON and of the event schema: the events that the schema admits and
-- the payloads that are JSON values come back as they were written.
pub record CodecLaws (codec : Codec) : Type 1 where
  pub IsEvent : NodeEvent → Type 0
  pub IsAnswer : OfferAnswer → Type 0
  pub decodes_event :
      (e : NodeEvent) → IsEvent e → codec.decode_event (codec.encode_event e) ≡ some e
  pub parses_payload :
      (a : OfferAnswer) → IsAnswer a → codec.parse (codec.stringify a.payload) ≡ some a.payload

module _ (codec : Codec) (laws : CodecLaws codec) where
  abbrev pub event_row : NodeEvent → ℕ × String
  event_row e = (e.cursor, codec.encode_event e)

  abbrev pub answer_row : String × OfferAnswer → String × (String × String)
  answer_row entry = (entry.0, (entry.1.type, codec.stringify entry.1.payload))

  -- The tables hold the journal, encoded.
  pub record Represents (tables : Tables) (store : Store) : Type 0 where
    pub node_cursor : cursor_value "node_cursor" tables ≡ store.node_cursor
    pub acked_cursor : cursor_value "acked_cursor" tables ≡ store.acked_cursor
    pub events : tables.node_events ≡ map event_row store.events
    pub are_events : All laws.IsEvent store.events
    pub answers : tables.offer_answers ≡ map answer_row store.offer_answers
    pub are_answers : All (λ entry. laws.IsAnswer entry.1) store.offer_answers
    pub truncations : decode_all decode_truncation tables.truncations ≡ some store.truncations

  pub cursors-Represents :
      (key other : String) (n : ℕ) (tables : Tables)
      → (key == other) ≡ false
      → (cursor_value key (set_cursor key n tables) ≡ n)
        × (cursor_value other (set_cursor key n tables) ≡ cursor_value other tables)
  unfolding set_cursor cursor_value
  cursors-Represents key other n tables ne = (
    ap (λ o. get_or o 0) (row_of-upsert key n tables.node_cursors),
    ap (λ o. get_or o 0) (row_of-upsert_other other key n tables.node_cursors ne),
  )

  pub set_node_cursor-Represents :
      (n : ℕ) (tables : Tables) (store : Store)
      → Represents tables store
      → Represents (set_cursor "node_cursor" n tables) (set_node_cursor n store)
  unfolding set_cursor set_node_cursor
  set_node_cursor-Represents n tables store h =
      let (mine, other) = cursors-Represents "node_cursor" "acked_cursor" n tables refl in
      record {
        node_cursor = mine;
        acked_cursor = other ∙ h.acked_cursor;
        events = h.events;
        are_events = h.are_events;
        answers = h.answers;
        are_answers = h.are_answers;
        truncations = h.truncations;
      }

  pub set_acked_cursor-Represents :
      (n : ℕ) (tables : Tables) (store : Store)
      → Represents tables store
      → Represents (set_cursor "acked_cursor" n tables) (set_acked_cursor n store)
  unfolding set_cursor set_acked_cursor
  set_acked_cursor-Represents n tables store h =
      let (mine, other) = cursors-Represents "acked_cursor" "node_cursor" n tables refl in
      record {
        node_cursor = other ∙ h.node_cursor;
        acked_cursor = mine;
        events = h.events;
        are_events = h.are_events;
        answers = h.answers;
        are_answers = h.are_answers;
        truncations = h.truncations;
      }

  -- a change of the events only
  events-Represents :
      (rows : List (ℕ × String)) (events : List NodeEvent) (tables : Tables) (store : Store)
      → Represents tables store
      → rows ≡ map event_row events
      → All laws.IsEvent events
      → Represents (record tables { node_events = rows }) (record store { events = events })
  unfolding cursor_value
  events-Represents rows events tables store h same are_events = record {
    node_cursor = h.node_cursor;
    acked_cursor = h.acked_cursor;
    events = same;
    are_events = are_events;
    answers = h.answers;
    are_answers = h.are_answers;
    truncations = h.truncations;
  }

  pub fresh_row :
      (event : NodeEvent) (tables : Tables) (store : Store)
      → Represents tables store
      → any (λ (row : ℕ × String). eqb row.0 event.cursor) tables.node_events
        ≡ any (λ (e : NodeEvent). eqb e.cursor event.cursor) store.events
  fresh_row event tables store h =
      ap (any (λ (row : ℕ × String). eqb row.0 event.cursor)) h.events
      ∙ map-any event_row (λ row. eqb row.0 event.cursor) store.events

  added_event :
      (event : NodeEvent) (tables : Tables) (store : Store)
      → Represents tables store
      → tables.node_events ++ event_row event ∷ [] ≡ map event_row (store.events ++ event ∷ [])
  added_event event tables store h =
      ap (λ rows. rows ++ event_row event ∷ []) h.events
      ∙ sym (map-append event_row store.events (event ∷ []))

  pub append_event-Represents :
      (event : NodeEvent) (tables : Tables) (store : Store)
      → Represents tables store
      → laws.IsEvent event
      → Represents
          (record tables { node_events = tables.node_events ++ event_row event ∷ [] })
          (append_event event store)
  unfolding append_event
  append_event-Represents event tables store h is_event =
      events-Represents (tables.node_events ++ event_row event ∷ []) (store.events ++ event ∷ [])
        tables store h (added_event event tables store h)
        (All-append laws.IsEvent store.events (event ∷ []) h.are_events (is_event, tt))

  pub prune_up_to-Represents :
      (n : ℕ) (tables : Tables) (store : Store)
      → Represents tables store
      → Represents
          (record tables {
            node_events = delete_where (λ (row : ℕ × String). leb row.0 n) tables.node_events;
          })
          (prune_up_to n store)
  unfolding prune_up_to
  prune_up_to-Represents n tables store h =
      events-Represents (delete_where (λ (row : ℕ × String). leb row.0 n) tables.node_events)
        (select_where (λ (e : NodeEvent). ltb n e.cursor) store.events) tables store h
        (delete_where-leb (λ (row : ℕ × String). row.0) n tables.node_events
          ∙ (ap (select_where (λ (row : ℕ × String). ltb n row.0)) h.events
              ∙ map-select_where event_row (λ row. ltb n row.0) store.events))
        (All-selected laws.IsEvent (λ (e : NodeEvent). ltb n e.cursor) store.events h.are_events)

  pub delete_event_at-Represents :
      (n : ℕ) (tables : Tables) (store : Store)
      → Represents tables store
      → Represents
          (record tables {
            node_events = delete_where (λ (row : ℕ × String). eqb row.0 n) tables.node_events;
          })
          (delete_event_at n store)
  unfolding delete_event_at
  delete_event_at-Represents n tables store h =
      events-Represents (delete_where (λ (row : ℕ × String). eqb row.0 n) tables.node_events)
        (delete_where (λ (e : NodeEvent). eqb e.cursor n) store.events) tables store h
        (ap (delete_where (λ (row : ℕ × String). eqb row.0 n)) h.events
          ∙ map-delete_where event_row (λ row. eqb row.0 n) store.events)
        (All-left laws.IsEvent (λ (e : NodeEvent). eqb e.cursor n) store.events h.are_events)

  pub select_events_after-decodes :
      (n : ℕ) (tables : Tables) (store : Store)
      → Represents tables store
      → decode_all (λ row. codec.decode_event row.1) (select_events_after n tables)
        ≡ some (events_after n store)
  unfolding select_events_after events_after
  select_events_after-decodes n tables store h =
      let above = λ (e : NodeEvent). ltb n e.cursor in
      let selected =
        ap (select_where (λ (row : ℕ × String). ltb n row.0)) h.events
        ∙ map-select_where event_row (λ row. ltb n row.0) store.events in
      let ordered =
        ap (order_by (λ (a b : ℕ × String). ltb a.0 b.0)) selected
        ∙ map-order_by event_row (λ a b. ltb a.0 b.0) (select_where above store.events) in
      let are_events =
        All-order_by laws.IsEvent (λ a b. ltb a.cursor b.cursor) (select_where above store.events)
          (All-selected laws.IsEvent above store.events h.are_events) in
      ap (decode_all (λ row. codec.decode_event row.1)) ordered
      ∙ decode_all-map (λ row. codec.decode_event row.1) event_row (events_above n store.events)
          (All-weaken laws.IsEvent (λ e. codec.decode_event (codec.encode_event e) ≡ some e)
            (events_above n store.events) laws.decodes_event are_events)

  pub save_offer_answer-Represents :
      (key : String) (given : OfferAnswer) (tables : Tables) (store : Store)
      → Represents tables store
      → laws.IsAnswer given
      → Represents
          (record tables {
            offer_answers =
                upsert key (given.type, codec.stringify given.payload) tables.offer_answers;
          })
          (save_offer_answer key given store)
  unfolding save_offer_answer cursor_value upsert
  save_offer_answer-Represents key given tables store h is_answer = record {
    node_cursor = h.node_cursor;
    acked_cursor = h.acked_cursor;
    events = h.events;
    are_events = h.are_events;
    answers =
        ap (upsert key (given.type, codec.stringify given.payload)) h.answers
        ∙ upsert-map store.offer_answers;
    are_answers = All-set_answer store.offer_answers h.are_answers;
    truncations = h.truncations;
  }
    where
      upsert-map :
          (entries : List (String × OfferAnswer))
          → upsert key (given.type, codec.stringify given.payload) (map answer_row entries)
            ≡ map answer_row (set_answer key given entries)
      upsert-map [] = refl
      upsert-map (entry ∷ entries) = ground (arith, upsert-map entries)

      All-set_answer :
          (entries : List (String × OfferAnswer))
          → All (λ entry. laws.IsAnswer entry.1) entries
          → All (λ entry. laws.IsAnswer entry.1) (set_answer key given entries)
      All-set_answer [] k = (is_answer, tt)
      All-set_answer (entry ∷ entries) k =
          if_lem (All (λ entry. laws.IsAnswer entry.1)) (entry.0 == key) _ _
            (λ found. (is_answer, k.1)) (λ missed. (k.0, All-set_answer entries k.1))

  pub offer_answers-decode :
      (key : String) (tables : Tables) (store : Store)
      → Represents tables store
      → decode_all (decode_answer codec) tables.offer_answers ≡ some store.offer_answers
  unfolding decode_answer
  offer_answers-decode key tables store h =
      ap (decode_all (decode_answer codec)) h.answers
      ∙ decode_all-map (decode_answer codec) answer_row store.offer_answers (
          All-weaken (λ entry. laws.IsAnswer entry.1)
            (λ entry. decode_answer codec (answer_row entry) ≡ some entry) store.offer_answers
            (λ entry is_answer. rw (decode_answer, laws.parses_payload entry.1 is_answer) refl)
            h.are_answers)

  pub append_truncation-Represents :
      (row : TruncationRow) (t : Truncation) (tables : Tables) (store : Store)
      → Represents tables store
      → decode_truncation row ≡ some t
      → Represents
          (record tables { truncations = tables.truncations ++ row ∷ [] })
          (append_truncation t store)
  unfolding append_truncation cursor_value
  append_truncation-Represents row t tables store h decodes = record {
    node_cursor = h.node_cursor;
    acked_cursor = h.acked_cursor;
    events = h.events;
    are_events = h.are_events;
    answers = h.answers;
    are_answers = h.are_answers;
    truncations =
        decode_all-append decode_truncation tables.truncations row store.truncations t h.truncations
          decodes;
  }
