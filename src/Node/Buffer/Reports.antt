-- ===== src/Node/Buffer/Reports.antt =====
-- src/node/session.ts: what #enforceBufferBounds tells of the events that it drops.
use agent_control_center_cor.Base.{
  ℕ, suc, zero, Bool, false, Option, none, some, List, [], ◌∷◌, ◌++◌, ltb, eqb, arith, length, map,
  delete_where, ◌≡◌, ◌↔◌, inl, inr, refl, sym, ap, subst, ◌∙◌, if_lem, Bool-cases,
}
use mathlib.Core.List.{append_assoc, append-nil}
use agent_control_center_cor.Base.Order.{IsRow}
use agent_control_center_cor.Node.Store.{
  NodeEvent, Store, Truncation, TruncationReason, events_after, delete_event_at, append_truncation,
}
use agent_control_center_cor.Node.Buffer.{
  find_victim, drop_victim, drop_events, truncate_ranges, contiguous_ranges, enforce_buffer_bounds,
}
use agent_control_center_cor.Node.Buffer.Protected.{
  IsRow-delete_where, victim_lem, events-truncate_ranges,
}
use agent_control_center_cor.Node.Buffer.Ranges.{IsCovered, contiguous_ranges_lem}

-- an event of the journal has the cursor
abbrev pub HasCursor : ℕ → Store → Type 0
HasCursor c store = (e : NodeEvent) × (IsRow e store.events × (e.cursor ≡ c))

IsRow-kept :
    {A : Type 0} (p : A → Bool) (x : A) (xs : List A) → IsRow x (delete_where p xs) → p x ≡ false
unfolding delete_where
IsRow-kept p x [] row = absurd row
IsRow-kept p x (y ∷ ys) row =
    if_lem (λ zs. IsRow x zs → p x ≡ false) (p y) (delete_where p ys) (y ∷ delete_where p ys)
      (λ met later. IsRow-kept p x ys later)
      (λ other k. elim k [
        | inl same ↦ subst (λ z. p z ≡ false) same other
        | inr later ↦ IsRow-kept p x ys later
      ])
      row

-- the events that a deletion leaves: those with other cursors
deleted_lem :
    (c cursor : ℕ) (store : Store)
    → (HasCursor c (delete_event_at cursor store) → HasCursor c store × (eqb c cursor ≡ false))
      × (HasCursor c store → eqb c cursor ≡ false → HasCursor c (delete_event_at cursor store))
unfolding delete_event_at
deleted_lem c cursor store = (
  (λ (e, (row, same)). (
    (e, ((IsRow-delete_where _ e store.events).0 row, same)),
    subst (λ n. eqb n cursor ≡ false) same (IsRow-kept _ e store.events row),
  )),
  (λ (e, (row, same)) other.
      (e, ((IsRow-delete_where _ e store.events).1 row (ground arith), same))),
)

-- What is dropped, and what is left of the journal.
record Drops (before : Store) (r : List ℕ × Store) : Type 0 where
  exact : (c : ℕ) → IsRow c r.0 ↔ (HasCursor c before × (HasCursor c r.1 → ⊥))
  smaller : (c : ℕ) → HasCursor c r.1 → HasCursor c before
  truncations : r.1.truncations ≡ before.truncations

Drops-nothing : (store : Store) → Drops store ([], store)
Drops-nothing store = record {
  exact = λ c. ((λ row. absurd row), (λ (here, gone). absurd (gone here)));
  smaller = λ c here. here;
  truncations = refl;
}

Drops-victim :
    (acked : ℕ) (store : Store) (victim : NodeEvent) (r : List ℕ × Store)
    → find_victim (events_after acked store) ≡ some victim
    → Drops (delete_event_at victim.cursor store) r
    → Drops store (victim.cursor ∷ r.0, r.1)
unfolding delete_event_at
Drops-victim acked store victim r e d =
    let (here, rest) = victim_lem acked store victim e in
    record {
      exact = λ c. (
        (λ row. elim row [
          | inl same ↦ (
            (victim, (here, same)),
            λ left.
                let (old, other) = (deleted_lem c victim.cursor store).0 (d.smaller c left) in
                absurd (clash c same other),
          )
          | inr later ↦
              let (old, gone) = (d.exact c).0 later in
              (((deleted_lem c victim.cursor store).0 old).0, gone)
        ]),
        (λ (old, gone). elim (Bool-cases (eqb c victim.cursor)) [
          | inl same ↦ inl (ground arith)
          | inr other ↦ inr ((d.exact c).1 ((deleted_lem c victim.cursor store).1 old other, gone))
        ]),
      );
      smaller = λ c left. ((deleted_lem c victim.cursor store).0 (d.smaller c left)).0;
      truncations = d.truncations;
    }
  where
    clash : (c : ℕ) → victim.cursor ≡ c → eqb c victim.cursor ≡ false → ⊥
    clash c same other = ground arith

drop_events-Drops :
    (fuel max acked : ℕ) (store : Store) → Drops store (drop_events fuel max acked store)
unfolding drop_events
drop_events-Drops zero max acked store = Drops-nothing store
drop_events-Drops (suc fuel) max acked store =
    if_lem (Drops store) (ltb max (length (events_after acked store)))
      (drop_victim (λ s. drop_events fuel max acked s) (find_victim (events_after acked store))
        store)
      ([], store)
      (λ over.
        dropped (drop_events-Drops fuel max acked) (find_victim (events_after acked store)) refl)
      (λ within. Drops-nothing store)
  where
    dropped :
        ((s : Store) → Drops s (drop_events fuel max acked s))
        → (o : Option NodeEvent) → find_victim (events_after acked store) ≡ o
        → Drops store (drop_victim (λ s. drop_events fuel max acked s) o store)
    dropped again none e = Drops-nothing store
    dropped again (some victim) e =
        Drops-victim acked store victim _ e (again (delete_event_at victim.cursor store))

abbrev pub truncation_of : ℕ × ℕ → Truncation
truncation_of range = record {
  from_cursor = range.0;
  to_cursor = range.1;
  reason = TruncationReason.buffer_bytes;
}

truncations-truncate_ranges :
    (ranges : List (ℕ × ℕ)) (store : Store)
    → (truncate_ranges ranges store).truncations ≡ store.truncations ++ map truncation_of ranges
unfolding append_truncation
truncations-truncate_ranges [] store = sym (append-nil store.truncations)
truncations-truncate_ranges (range ∷ ranges) store =
    truncations-truncate_ranges ranges (append_truncation (truncation_of range) store)
    ∙ append_assoc store.truncations (truncation_of range ∷ []) (map truncation_of ranges)

-- The journal after the policy reports the ranges, and they cover what is gone.
pub record Reports (before after : Store) : Type 0 where
  pub ranges : List (ℕ × ℕ)
  pub reported : after.truncations ≡ before.truncations ++ map truncation_of ranges
  pub exact : (c : ℕ) → IsCovered c ranges ↔ (HasCursor c before × (HasCursor c after → ⊥))

-- The policy adds truncation records to the journal, for the reason of a full buffer, whose ranges cover
-- exactly the cursors of the events that it dropped: those that had an event before and
-- have none after.
pub enforce_buffer_bounds-Reports :
    (max acked : ℕ) (store : Store) → Reports store (enforce_buffer_bounds max acked store)
unfolding enforce_buffer_bounds
enforce_buffer_bounds-Reports max acked store =
    let r = drop_events (suc (length (events_after acked store))) max acked store in
    let d = drop_events-Drops (suc (length (events_after acked store))) max acked store in
    let kept = events-truncate_ranges (contiguous_ranges r.0) r.1 in
    record {
      ranges = contiguous_ranges r.0;
      reported =
          truncations-truncate_ranges (contiguous_ranges r.0) r.1
          ∙ ap (λ ts. ts ++ map truncation_of (contiguous_ranges r.0)) d.truncations;
      exact = λ c.
          let (to, from) = contiguous_ranges_lem r.0 c in
          let (gone, dropped) = d.exact c in
          (
            (λ covered.
                let (old, lost) = gone (to covered) in
                (old, λ (e, (row, same)). lost (e, (subst (IsRow e) kept row, same)))),
            (λ (old, lost). from (
                dropped
                  (old, λ (e, (row, same)). lost (e, (subst (IsRow e) (sym kept) row, same))))),
          );
    }
