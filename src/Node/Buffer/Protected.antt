-- ===== src/Node/Buffer/Protected.antt =====
-- What the overflow policy keeps.
use agent_control_center_cor.Base.{
  ℕ, suc, zero, ◌≤◌, ◌<◌, Bool, true, false, not, Option, none, some, List, [], ◌∷◌, ltb, eqb,
  arith, length, order_by, insert_before, delete_where, select_where, ◌≡◌, ◌⊎◌, inl, inr, refl, sym,
  ap, subst, ◌∙◌, if_lem, Bool-cases,
}
use agent_control_center_cor.Base.Order.{
  IsRow, IsRow-select_where, IsRow-first_where, IsRow-order_by,
}
use agent_control_center_cor.Base.Lookup.{first_where-meets}
use agent_control_center_cor.Node.Store.{
  NodeEvent, Store, events_after, events_above, delete_event_at, append_truncation,
}
use agent_control_center_cor.Node.Buffer.{
  is_protected, find_victim, drop_victim, drop_events, truncate_ranges, contiguous_ranges,
  enforce_buffer_bounds,
}

module _ {A : Type 0} where
  length-insert_before :
      (before : A → A → Bool) (x : A) (xs : List A)
      → length (insert_before before x xs) ≡ suc (length xs)
  unfolding insert_before
  length-insert_before before x [] = refl
  length-insert_before before x (y ∷ ys) = ground (arith, length-insert_before before x ys)

  length-order_by : (before : A → A → Bool) (xs : List A) → length (order_by before xs) ≡ length xs
  unfolding order_by
  length-order_by before [] = refl
  length-order_by before (x ∷ xs) =
      ground (arith, length-insert_before before x (order_by before xs), length-order_by before xs)

  -- a DELETE of rows leaves the others, and nothing else
  pub IsRow-delete_where :
      (p : A → Bool) (x : A) (xs : List A)
      → (IsRow x (delete_where p xs) → IsRow x xs)
        × (IsRow x xs → p x ≡ false → IsRow x (delete_where p xs))
  unfolding delete_where
  IsRow-delete_where p x [] = ((λ k. k), (λ k h. k))
  IsRow-delete_where p x (y ∷ ys) =
      let (to, from) = IsRow-delete_where p x ys in
      if_lem (λ zs. (IsRow x zs → IsRow x (y ∷ ys)) × (IsRow x (y ∷ ys) → p x ≡ false → IsRow x zs))
        (p y) (delete_where p ys) (y ∷ delete_where p ys)
        (λ met. (
          (λ k. inr (to k)),
          (λ k h. elim k [ inl same ↦ absurd (clash y met same h) | inr later ↦ from later h ]),
        ))
        (λ not_met. (
          (λ k. elim k [ inl same ↦ inl same | inr later ↦ inr (to later) ]),
          (λ k h. elim k [ inl same ↦ inl same | inr later ↦ inr (from later h) ]),
        ))
    where
      clash : (y : A) → p y ≡ true → y ≡ x → p x ≡ false → ⊥
      clash y met same h = cc

  shorter :
      (p q : A → Bool) (xs : List A)
      → length (select_where p (delete_where q xs)) ≤ length (select_where p xs)
  unfolding select_where delete_where
  shorter p q [] = ground arith
  shorter p q (x ∷ xs) = ground (arith, shorter p q xs)

  strictly_shorter :
      (p q : A → Bool) (x : A) (xs : List A)
      → IsRow x xs
      → p x ≡ true
      → q x ≡ true
      → length (select_where p (delete_where q xs)) < length (select_where p xs)
  unfolding select_where delete_where
  strictly_shorter p q x [] h k l = absurd h
  strictly_shorter p q x (y ∷ ys) (inl same) k l = ground (arith, shorter p q ys)
  strictly_shorter p q x (y ∷ ys) (inr later) k l =
      ground (arith, strictly_shorter p q x ys later k l)

-- The victim is an event of the journal above the acknowledged cursor, and it is not protected.
pub victim_lem :
    (acked : ℕ) (store : Store) (victim : NodeEvent)
    → find_victim (events_after acked store) ≡ some victim
    → IsRow victim store.events × ((ltb acked victim.cursor ≡ true) × (is_protected victim ≡ false))
unfolding events_after
victim_lem acked store victim h =
    let row = IsRow-order_by _ victim _ (IsRow-first_where _ _ victim h) in
    let (here, above) = IsRow-select_where _ victim store.events row in
    (
      here,
      (
        above,
        ground (arith, first_where-meets (λ (e : NodeEvent). not (is_protected e)) _ victim h),
      ),
    )

deleted-shorter :
    (acked : ℕ) (store : Store) (victim : NodeEvent)
    → find_victim (events_after acked store) ≡ some victim
    → length (events_after acked (delete_event_at victim.cursor store))
      < length (events_after acked store)
unfolding events_after delete_event_at
deleted-shorter acked store victim h =
    let (here, (above, open_victim)) = victim_lem acked store victim h in
    ground (
      arith,
      length-order_by (λ (a b : NodeEvent). ltb a.cursor b.cursor)
          (select_where (λ (e : NodeEvent). ltb acked e.cursor) store.events),
      length-order_by (λ (a b : NodeEvent). ltb a.cursor b.cursor)
          (select_where (λ (e : NodeEvent). ltb acked e.cursor)
            (delete_where (λ (e : NodeEvent). eqb e.cursor victim.cursor) store.events)),
      strictly_shorter (λ (e : NodeEvent). ltb acked e.cursor)
          (λ (e : NodeEvent). eqb e.cursor victim.cursor) victim store.events here above
          (ground arith),
    )

-- The buffer is within its bound, or everything in it is protected.
abbrev pub IsSettled : ℕ → ℕ → Store → Type 0
IsSettled max acked store =
    (length (events_after acked store) ≤ max) ⊎ (find_victim (events_after acked store) ≡ none)

drop_events-IsSettled :
    (fuel max acked : ℕ) (store : Store)
    → length (events_after acked store) < fuel
    → IsSettled max acked (drop_events fuel max acked store).1
unfolding drop_events
drop_events-IsSettled zero max acked store h = ground arith
drop_events-IsSettled (suc fuel) max acked store h =
    if_lem (λ (r : List ℕ × Store). IsSettled max acked r.1)
      (ltb max (length (events_after acked store)))
      (drop_victim (λ s. drop_events fuel max acked s) (find_victim (events_after acked store))
        store)
      ([], store)
      (λ over.
        dropped (λ s k. drop_events-IsSettled fuel max acked s k)
          (find_victim (events_after acked store)) refl)
      (λ within. inl (ground arith))
  where
    dropped :
        ((s : Store)
          → length (events_after acked s) < fuel
          → IsSettled max acked (drop_events fuel max acked s).1)
        → (o : Option NodeEvent) → find_victim (events_after acked store) ≡ o
        → IsSettled max acked (drop_victim (λ s. drop_events fuel max acked s) o store).1
    dropped again none e = inr e
    dropped again (some victim) e =
        again (delete_event_at victim.cursor store)
          (ground (arith, deleted-shorter acked store victim e))

-- No two events of the journal have one cursor.
abbrev pub HasCursors : List NodeEvent → Type 0
HasCursors events =
    (a b : NodeEvent) → IsRow a events → IsRow b events → a.cursor ≡ b.cursor → a ≡ b

-- Two events that only a clash of their cursors would tell apart.
other_cursor :
    (acked : ℕ) (store : Store) (victim event : NodeEvent)
    → HasCursors store.events
    → find_victim (events_after acked store) ≡ some victim
    → is_protected event ≡ true
    → IsRow event store.events
    → eqb event.cursor victim.cursor ≡ false
other_cursor acked store victim event unique e protected row =
    let (here, (above, open_victim)) = victim_lem acked store victim e in
    elim (Bool-cases (eqb event.cursor victim.cursor)) [
      | inl same ↦
          let one : event ≡ victim = unique event victim row here (ground arith) in
          absurd (clash (sym protected ∙ ap is_protected one ∙ open_victim))
      | inr differs ↦ differs
    ]
  where
    clash : true ≡ false → ⊥
    clash h = cc

drop_events-protected :
    (fuel max acked : ℕ) (store : Store) (event : NodeEvent)
    → HasCursors store.events
    → is_protected event ≡ true
    → IsRow event store.events
    → IsRow event (drop_events fuel max acked store).1.events
unfolding drop_events delete_event_at
drop_events-protected zero max acked store event unique protected row = row
drop_events-protected (suc fuel) max acked store event unique protected row =
    if_lem (λ (r : List ℕ × Store). IsRow event r.1.events)
      (ltb max (length (events_after acked store)))
      (drop_victim (λ s. drop_events fuel max acked s) (find_victim (events_after acked store))
        store)
      ([], store)
      (λ over.
        dropped (λ s u r. drop_events-protected fuel max acked s event u protected r)
          (find_victim (events_after acked store)) refl)
      (λ within. row)
  where
    deleted :
        (victim : NodeEvent)
        → find_victim (events_after acked store) ≡ some victim
        → HasCursors (delete_event_at victim.cursor store).events
          × IsRow event (delete_event_at victim.cursor store).events
    deleted victim e =
        let rows = λ (x : NodeEvent).
          IsRow-delete_where (λ (e : NodeEvent). eqb e.cursor victim.cursor) x store.events in
        (
          (λ a b m n. unique a b ((rows a).0 m) ((rows b).0 n)),
          (rows event).1 row (other_cursor acked store victim event unique e protected row),
        )

    dropped :
        ((s : Store)
          → HasCursors s.events
          → IsRow event s.events
          → IsRow event (drop_events fuel max acked s).1.events)
        → (o : Option NodeEvent) → find_victim (events_after acked store) ≡ o
        → IsRow event (drop_victim (λ s. drop_events fuel max acked s) o store).1.events
    dropped again none e = row
    dropped again (some victim) e =
        let (u, r) = deleted victim e in again (delete_event_at victim.cursor store) u r

pub events-truncate_ranges :
    (ranges : List (ℕ × ℕ)) (store : Store) → (truncate_ranges ranges store).events ≡ store.events
unfolding append_truncation
events-truncate_ranges [] store = refl
events-truncate_ranges (range ∷ ranges) store = events-truncate_ranges ranges _

-- Where no two events have one cursor, the policy ends with at most `max` events above the
-- acknowledged cursor, or with protected ones only, and it keeps every protected event.
pub enforce_buffer_bounds-protected :
    (max acked : ℕ) (store : Store)
    → HasCursors store.events
    → IsSettled max acked (enforce_buffer_bounds max acked store)
      × ((event : NodeEvent)
          → is_protected event ≡ true
          → IsRow event store.events
          → IsRow event (enforce_buffer_bounds max acked store).events)
unfolding enforce_buffer_bounds events_after
enforce_buffer_bounds-protected max acked store unique =
    let fuel = suc (length (events_after acked store)) in
    let kept =
      events-truncate_ranges (contiguous_ranges (drop_events fuel max acked store).0)
        (drop_events fuel max acked store).1 in
    (
      subst
          (λ (events : List NodeEvent).
            (length (events_above acked events) ≤ max)
            ⊎ (find_victim (events_above acked events) ≡ none))
          (sym kept) (drop_events-IsSettled fuel max acked store (ground arith)),
      (λ event protected row.
          subst (IsRow event) (sym kept)
            (drop_events-protected fuel max acked store event unique protected row)),
    )
