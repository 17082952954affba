-- ===== src/Node/Sqlite/Refines.antt =====
-- The database file and the journal in memory answer every sequence of calls alike.
use agent_control_center_cor.Base.{
  ℕ, ◌+◌, String, false, some, List, [], ◌∷◌, ◌++◌, eqb, ◌==◌, any, if◌then◌else◌, ◌≡◌, refl, ap,
  ◌∙◌, Bool-cases, Option-cases, inl, inr,
}
use agent_control_center_cor.Base.Lookup.{ap2}
use agent_control_center_cor.Node.Store.{
  NodeEvent, OfferAnswer, Store, empty_store, as_truncation_reason, get_answer, set_node_cursor,
  append_event, append_event_and_advance_cursor,
}
use agent_control_center_cor.Node.Journal.{
  Call, load_cursors, set_node, set_acked, append, append_and_advance, after_cursor, prune, delete,
  save_answer, load_answer, truncate, load_truncations, Answer, thrown, got_cursors, got_answer,
  perform, answers_of,
}
use agent_control_center_cor.Node.Sqlite.Represents.{
  CodecLaws, Represents, event_row, set_node_cursor-Represents, set_acked_cursor-Represents,
  fresh_row, append_event-Represents, prune_up_to-Represents, delete_event_at-Represents,
  select_events_after-decodes, save_offer_answer-Represents, offer_answers-decode,
  append_truncation-Represents,
}
use agent_control_center_cor.Node.Sqlite.{
  Tables, empty_tables, answer_events, answer_for, answer_truncations, Codec, row_of, cursor_value,
  insert_event, append_and_advance_rows, decode_all, decode_truncation, insert_truncation,
  perform_rows,
}

module _ (codec : Codec) (laws : CodecLaws codec) where
  -- What the interface asks of a caller: events and payloads that JSON and the schema keep, and
  -- cursors that are unique.
  abbrev pub Admits : Call → Store → Type 0
  Admits (append event) store =
      laws.IsEvent event × (any (λ (e : NodeEvent). eqb e.cursor event.cursor) store.events ≡ false)
  Admits (append_and_advance event) store = laws.IsEvent event
  Admits (save_answer key given) store = laws.IsAnswer given
  Admits _ store = Unit

  -- The answers agree, and the tables hold the journal after the call.
  pub record Agrees (rows : Answer × Tables) (memory : Answer × Store) : Type 0 where
    pub same_answer : rows.0 ≡ memory.0
    pub holds : Represents codec laws rows.1 memory.1

  row_of-get_answer :
      (key : String) (entries : List (String × OfferAnswer))
      → row_of key entries ≡ get_answer key entries
  row_of-get_answer key [] = refl
  row_of-get_answer key (entry ∷ entries) =
      ap (λ rest. if entry.0 == key then some entry.1 else rest) (row_of-get_answer key entries)

  append-Agrees :
      (event : NodeEvent) (tables : Tables) (store : Store)
      → Represents codec laws tables store
      → laws.IsEvent event
      → any (λ (e : NodeEvent). eqb e.cursor event.cursor) store.events ≡ false
      → Agrees (perform_rows codec (append event) tables) (perform (append event) store)
  unfolding perform perform_rows insert_event
  append-Agrees event tables store h is_event fresh =
      let free = fresh_row codec laws event tables store h ∙ fresh in
      rw free (record {
        same_answer = refl;
        holds = append_event-Represents codec laws event tables store h is_event;
      })

  refused-Agrees :
      (tables : Tables) (store : Store)
      → Represents codec laws tables store
      → Agrees (thrown, tables) (thrown, store)
  refused-Agrees tables store h = record { same_answer = refl; holds = h }

  append_and_advance-Agrees :
      (event : NodeEvent) (tables : Tables) (store : Store)
      → Represents codec laws tables store
      → laws.IsEvent event
      → Agrees
          (perform_rows codec (append_and_advance event) tables)
          (perform (append_and_advance event) store)
  unfolding perform perform_rows append_and_advance_rows append_event_and_advance_cursor
      insert_event append_event set_node_cursor
  append_and_advance-Agrees event tables store h is_event =
      elim (Bool-cases (eqb event.cursor (store.node_cursor + 1))) [
        | inr unexpected ↦ rw (h.node_cursor, unexpected) (refused-Agrees tables store h)
        | inl expected ↦
            elim (Bool-cases (any (λ (e : NodeEvent). eqb e.cursor event.cursor) store.events)) [
              | inl duplicate ↦
                  let taken = fresh_row codec laws event tables store h ∙ duplicate in
                  rw (h.node_cursor, expected, duplicate, taken) (refused-Agrees tables store h)
              | inr fresh ↦
                  let free = fresh_row codec laws event tables store h ∙ fresh in
                  let added = append_event-Represents codec laws event tables store h is_event in
                  rw (h.node_cursor, expected, fresh, free)
                    (record {
                      same_answer = refl;
                      holds =
                          set_node_cursor-Represents codec laws event.cursor
                            (record tables {
                              node_events = tables.node_events ++ event_row codec laws event ∷ [];
                            })
                            (append_event event store) added;
                    })
            ]
      ]

  truncate-Agrees :
      (from to : ℕ) (reason : String) (tables : Tables) (store : Store)
      → Represents codec laws tables store
      → Agrees
          (perform_rows codec (truncate from to reason) tables)
          (perform (truncate from to reason) store)
  unfolding perform perform_rows insert_truncation decode_truncation
  truncate-Agrees from to reason tables store h =
      elim (Option-cases (as_truncation_reason reason)) [
        | inl unknown ↦ rw unknown (refused-Agrees tables store h)
        | inr (known, is_known) ↦
            let decodes : decode_truncation
                  (record { from_cursor = from; to_cursor = to; reason = reason })
                ≡ some (record { from_cursor = from; to_cursor = to; reason = known }) =
              rw (decode_truncation, is_known) refl in
            rw is_known (record {
              same_answer = refl;
              holds = append_truncation-Represents codec laws _ _ tables store h decodes;
            })
      ]

  pub perform-Agrees :
      (call : Call) (tables : Tables) (store : Store)
      → Represents codec laws tables store
      → Admits call store
      → Agrees (perform_rows codec call tables) (perform call store)
  unfolding perform perform_rows
  perform-Agrees load_cursors tables store h k = record {
    same_answer = ap2 (λ n a. got_cursors n a) h.node_cursor h.acked_cursor;
    holds = h;
  }
  perform-Agrees (set_node n) tables store h k = record {
    same_answer = refl;
    holds = set_node_cursor-Represents codec laws n tables store h;
  }
  perform-Agrees (set_acked n) tables store h k = record {
    same_answer = refl;
    holds = set_acked_cursor-Represents codec laws n tables store h;
  }
  perform-Agrees (append event) tables store h k = append-Agrees event tables store h k.0 k.1
  perform-Agrees (append_and_advance event) tables store h k =
      append_and_advance-Agrees event tables store h k
  perform-Agrees (after_cursor n) tables store h k = record {
    same_answer =
        ap (λ found. answer_events found) (select_events_after-decodes codec laws n tables store h);
    holds = h;
  }
  perform-Agrees (prune n) tables store h k = record {
    same_answer = refl;
    holds = prune_up_to-Represents codec laws n tables store h;
  }
  perform-Agrees (delete n) tables store h k = record {
    same_answer = refl;
    holds = delete_event_at-Represents codec laws n tables store h;
  }
  perform-Agrees (save_answer key given) tables store h k = record {
    same_answer = refl;
    holds = save_offer_answer-Represents codec laws key given tables store h k;
  }
  perform-Agrees (load_answer key) tables store h k = record {
    same_answer =
        ap (λ found. answer_for key found) (offer_answers-decode codec laws key tables store h)
        ∙ ap (λ found. got_answer found) (row_of-get_answer key store.offer_answers);
    holds = h;
  }
  perform-Agrees (truncate from to reason) tables store h k =
      truncate-Agrees from to reason tables store h
  perform-Agrees load_truncations tables store h k = record {
    same_answer = ap (λ found. answer_truncations found) h.truncations;
    holds = h;
  }

  abbrev pub AdmitsAll : List Call → Store → Type 0
  AdmitsAll [] store = Unit
  AdmitsAll (call ∷ calls) store = Admits call store × AdmitsAll calls (perform call store).1

  performed_all :
      (calls : List Call) (tables : Tables) (store : Store)
      → Represents codec laws tables store
      → AdmitsAll calls store
      → answers_of (perform_rows codec) calls tables ≡ answers_of perform calls store
  performed_all [] tables store h k = refl
  performed_all (call ∷ calls) tables store h k =
      let one = perform-Agrees call tables store h k.0 in
      ap2 (λ a rest. a ∷ rest) one.same_answer
        (performed_all calls (perform_rows codec call tables).1 (perform call store).1 one.holds
          k.1)

  empty-Represents : Represents codec laws empty_tables empty_store
  unfolding cursor_value decode_all
  empty-Represents = record {
    node_cursor = refl;
    acked_cursor = refl;
    events = refl;
    are_events = tt;
    answers = refl;
    are_answers = tt;
    truncations = refl;
  }

-- From a new file on, the journal in SQLite returns to every sequence of calls what the journal in
-- memory returns, and throws where that throws, as long as the callers append events and
-- answers that survive JSON and the event schema, and `appendEvent` gets unused cursors.
pub answers_of-refines :
    (codec : Codec) (laws : CodecLaws codec) (calls : List Call)
    → AdmitsAll codec laws calls empty_store
    → answers_of (perform_rows codec) calls empty_tables ≡ answers_of perform calls empty_store
answers_of-refines codec laws calls admitted =
    performed_all codec laws calls empty_tables empty_store (empty-Represents codec laws) admitted
