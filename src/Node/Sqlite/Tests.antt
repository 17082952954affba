-- ===== src/Node/Sqlite/Tests.antt =====
-- A journal in memory and in a file, side by side.
use agent_control_center_cor.Base.{
  ℕ, String, Bool, true, false, Option, none, some, List, [], ◌∷◌, ◌==◌, if◌then◌else◌, ◌≡◌, refl,
  sym, ap, ◌∙◌, ◌⊎◌, inl, inr,
}
use agent_control_center_cor.Json.{null}
use agent_control_center_cor.Node.Store.{
  NodeEvent, OfferAnswer, Truncation, TruncationReason, empty_store,
}
use agent_control_center_cor.Node.Journal.{
  Call, load_cursors, set_acked, append_and_advance, append, after_cursor, prune, save_answer,
  load_answer, truncate, load_truncations, done, thrown, got_cursors, got_events, perform,
  answers_of,
}
use agent_control_center_cor.Node.Sqlite.{Codec, Tables, empty_tables, migrate, perform_rows}
use agent_control_center_cor.Node.Sqlite.Represents.{CodecLaws}
use agent_control_center_cor.Node.Sqlite.Refines.{AdmitsAll, answers_of-refines}

abbrev event : ℕ → String → NodeEvent
event cursor id = record {
  cursor = cursor;
  event_id = id;
  kind = "run.progress";
  occurred_at = "2026-01-01T00:00:00Z";
  payload = null;
  run_id = none;
  task_id = none;
}

abbrev accepted : OfferAnswer
accepted = record { type = "work.accept"; payload = null }

-- two events and one payload, under made-up texts
abbrev small : Codec
small = record {
  encode_event = λ e. e.event_id;
  decode_event = λ text.
      if text == "one"
      then some (event 1 "one")
      else if text == "two"
      then some (event 2 "two")
      else none;
  stringify = λ payload. "null";
  parse = λ text. if text == "null" then some null else none;
}

abbrev small-CodecLaws : CodecLaws small
small-CodecLaws = record {
  IsEvent = λ e. (e ≡ event 1 "one") ⊎ (e ≡ event 2 "two");
  IsAnswer = λ a. a ≡ accepted;
  decodes_event = λ e h. elim h [
    | inl one ↦ ap (λ x. small.decode_event (small.encode_event x)) one ∙ ap some (sym one)
    | inr two ↦ ap (λ x. small.decode_event (small.encode_event x)) two ∙ ap some (sym two)
  ];
  parses_payload = λ a h. ap some (sym (ap (λ x. x.payload) h));
}

abbrev calls : List Call
calls =
    append_and_advance (event 1 "one")
    ∷ append_and_advance (event 2 "two")
    ∷ append_and_advance (event 2 "two")
    ∷ after_cursor 0
    ∷ set_acked 1
    ∷ prune 1
    ∷ after_cursor 0
    ∷ load_cursors
    ∷ save_answer "offer" accepted
    ∷ load_answer "offer"
    ∷ truncate 1 1 "BUFFER_AGE"
    ∷ truncate 1 1 "DISK"
    ∷ load_truncations
    ∷ []

calls_in_file :
    answers_of
      (perform_rows small)
      (append_and_advance (event 1 "one")
        ∷ append_and_advance (event 2 "two")
        ∷ append_and_advance (event 2 "two")
        ∷ append (event 2 "two")
        ∷ set_acked 1
        ∷ prune 1
        ∷ after_cursor 0
        ∷ load_cursors
        ∷ truncate 1 1 "DISK"
        ∷ [])
      empty_tables
    ≡ done
      ∷ done
      ∷ thrown
      ∷ thrown
      ∷ done
      ∷ done
      ∷ got_events (event 2 "two" ∷ [])
      ∷ got_cursors 2 1
      ∷ thrown
      ∷ []
unfolding perform_rows agent_control_center_cor.Node.Sqlite.append_and_advance_rows
    agent_control_center_cor.Node.Sqlite.insert_event
    agent_control_center_cor.Node.Sqlite.decode_all
    agent_control_center_cor.Node.Sqlite.cursor_value
    agent_control_center_cor.Node.Sqlite.insert_truncation agent_control_center_cor.Base.any
    agent_control_center_cor.Node.Sqlite.set_cursor agent_control_center_cor.Node.Sqlite.upsert
    agent_control_center_cor.Node.Sqlite.select_events_after
    agent_control_center_cor.Node.Store.as_truncation_reason agent_control_center_cor.Base.order_by
    agent_control_center_cor.Base.select_where agent_control_center_cor.Base.delete_where
    agent_control_center_cor.Base.insert_before
calls_in_file = refl

-- in memory `appendEvent` takes a cursor twice, which the file refuses
append_twice :
    answers_of perform (append (event 1 "one") ∷ append (event 1 "one") ∷ []) empty_store
    ≡ done ∷ done ∷ []
unfolding perform
append_twice = refl

migrate_unknown : migrate 2 empty_tables ≡ none
unfolding migrate
migrate_unknown = refl

calls-AdmitsAll : AdmitsAll small small-CodecLaws calls empty_store
calls-AdmitsAll = (
  inl refl,
  (inr refl, (inr refl, (tt, (tt, (tt, (tt, (tt, (refl, (tt, (tt, (tt, (tt, tt)))))))))))),
)

answers_of-refines_example :
    answers_of (perform_rows small) calls empty_tables ≡ answers_of perform calls empty_store
answers_of-refines_example = answers_of-refines small small-CodecLaws calls calls-AdmitsAll
