-- ===== src/Node/Session/Events.antt =====
-- What a local event changes.
use agent_control_center_cor.Base.{
  ℕ, suc, zero, ◌+◌, String, Option, none, some, List, [], ◌∷◌, Result, ok, err, ltb, arith, if_lem,
  length, ◌≡◌, refl, sym, ◌∙◌,
}
use agent_control_center_cor.Json.{Json}
use agent_control_center_cor.Node.Store.{
  NodeEvent, Store, StoreError, append_event_and_advance_cursor, delete_event_at, append_truncation,
  events_after,
}
use agent_control_center_cor.Node.Buffer.{
  find_victim, drop_victim, drop_events, truncate_ranges, contiguous_ranges, enforce_buffer_bounds,
}
use agent_control_center_cor.Node.Session.{Config, Session, new_event, with_event, emit_event}

-- The overflow policy touches the events and the truncations only.
pub record SameCursors (s t : Store) : Type 0 where
  pub node_cursor : t.node_cursor ≡ s.node_cursor
  pub acked_cursor : t.acked_cursor ≡ s.acked_cursor
  pub offer_answers : t.offer_answers ≡ s.offer_answers

drop_victim-SameCursors :
    (again : Store → List ℕ × Store) (o : Option NodeEvent) (store : Store)
    → ((s : Store) → SameCursors s (again s).1)
    → SameCursors store (drop_victim again o store).1
unfolding delete_event_at
drop_victim-SameCursors again none store h = record {
  node_cursor = refl;
  acked_cursor = refl;
  offer_answers = refl;
}
drop_victim-SameCursors again (some victim) store h =
    let k = h (delete_event_at victim.cursor store) in
    record {
      node_cursor = k.node_cursor;
      acked_cursor = k.acked_cursor;
      offer_answers = k.offer_answers;
    }

drop_events-SameCursors :
    (fuel max acked : ℕ) (store : Store) → SameCursors store (drop_events fuel max acked store).1
unfolding drop_events
drop_events-SameCursors zero max acked store = record {
  node_cursor = refl;
  acked_cursor = refl;
  offer_answers = refl;
}
drop_events-SameCursors (suc fuel) max acked store =
    if_lem (λ (r : List ℕ × Store). SameCursors store r.1)
      (ltb max (length (events_after acked store)))
      (drop_victim (λ s. drop_events fuel max acked s) (find_victim (events_after acked store))
        store)
      ([], store)
      (λ over.
        drop_victim-SameCursors (λ s. drop_events fuel max acked s)
          (find_victim (events_after acked store)) store
          (λ s. drop_events-SameCursors fuel max acked s))
      (λ within. record { node_cursor = refl; acked_cursor = refl; offer_answers = refl })

truncate_ranges-SameCursors :
    (ranges : List (ℕ × ℕ)) (store : Store) → SameCursors store (truncate_ranges ranges store)
unfolding append_truncation
truncate_ranges-SameCursors [] store = record {
  node_cursor = refl;
  acked_cursor = refl;
  offer_answers = refl;
}
truncate_ranges-SameCursors (range ∷ ranges) store =
    let k = truncate_ranges-SameCursors ranges (append_truncation _ store) in
    record {
      node_cursor = k.node_cursor;
      acked_cursor = k.acked_cursor;
      offer_answers = k.offer_answers;
    }

enforce_buffer_bounds-SameCursors :
    (max acked : ℕ) (store : Store) → SameCursors store (enforce_buffer_bounds max acked store)
unfolding enforce_buffer_bounds
enforce_buffer_bounds-SameCursors max acked store =
    let h = drop_events-SameCursors (suc (length (events_after acked store))) max acked store in
    let k =
      truncate_ranges-SameCursors
        (contiguous_ranges
          (drop_events (suc (length (events_after acked store))) max acked store).0)
        (drop_events (suc (length (events_after acked store))) max acked store).1 in
    record {
      node_cursor = k.node_cursor ∙ h.node_cursor;
      acked_cursor = k.acked_cursor ∙ h.acked_cursor;
      offer_answers = k.offer_answers ∙ h.offer_answers;
    }

append-cursors :
    (event : NodeEvent) (store after : Store)
    → append_event_and_advance_cursor event store ≡ ok after
    → (after.node_cursor ≡ event.cursor)
      × ((after.acked_cursor ≡ store.acked_cursor) × (after.offer_answers ≡ store.offer_answers))
unfolding append_event_and_advance_cursor
append-cursors event store after h = ground arith

-- A session whose cursors and answers are those of its journal.
abbrev pub AgreesWithJournal : {K : Type 0} → Session K → Type 0
AgreesWithJournal s =
    (s.node_cursor ≡ s.store.node_cursor)
    × ((s.acked_cursor ≡ s.store.acked_cursor) × (s.offer_answers ≡ s.store.offer_answers))

-- An event that is written gets the next cursor; where cursors and answers agreed with the journal
-- before, they agree after it and after the overflow policy.
pub emit_event-AgreesWithJournal :
    {K : Type 0} (config : Config K) (kind : String) (payload : Json)
    (run_id task_id : Option String) (now : ℕ) (s : Session K) (event : NodeEvent)
    → AgreesWithJournal s
    → (emit_event config kind payload run_id task_id now s).0 ≡ ok event
    → (event.cursor ≡ s.node_cursor + 1)
      × (((emit_event config kind payload run_id task_id now s).1.node_cursor ≡ event.cursor)
          × AgreesWithJournal (emit_event config kind payload run_id task_id now s).1)
unfolding emit_event
emit_event-AgreesWithJournal config kind payload run_id task_id now s event agrees h =
    written
      (append_event_and_advance_cursor (new_event config kind payload run_id task_id now s) s.store)
      refl h
  where
    made : NodeEvent
    made = new_event config kind payload run_id task_id now s

    written :
        (r : Result StoreError Store)
        → append_event_and_advance_cursor made s.store ≡ r
        → (with_event config made s r).0 ≡ ok event
        → (event.cursor ≡ s.node_cursor + 1)
          × (((with_event config made s r).1.node_cursor ≡ event.cursor)
              × AgreesWithJournal (with_event config made s r).1)
    written (err e) same h = cc
    written (ok store) same h =
        let cursors = append-cursors made s.store store same in
        let k = enforce_buffer_bounds-SameCursors config.max_buffered_events s.acked_cursor store in
        (
          ground arith,
          (
            ground arith,
            (
              sym (k.node_cursor ∙ cursors.0),
              (
                agrees.1.0 ∙ sym (k.acked_cursor ∙ cursors.1.0),
                agrees.1.1 ∙ sym (k.offer_answers ∙ cursors.1.1),
              ),
            ),
          ),
        )
