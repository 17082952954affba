-- ===== src/Node/Buffer.antt =====
-- src/node/session.ts: #enforceBufferBounds and contiguousRanges.
pub mod Protected
pub mod Ranges
pub mod Reports
use agent_control_center_cor.Base.{
  ℕ, suc, zero, ◌+◌, String, Bool, true, false, not, ◌||◌, Option, none, some, List, [], ◌∷◌, ◌++◌,
  ltb, leb, eqb, ◌==◌, any, if◌then◌else◌, first_where, length, order_by,
}
use agent_control_center_cor.Base.Text.{starts_with}
use agent_control_center_cor.Node.Store.{
  NodeEvent, Truncation, TruncationReason, Store, events_after, delete_event_at, append_truncation,
}

-- PROTECTED_KIND_PREFIXES.some((p) => e.kind.startsWith(p))
unfoldable pub is_protected : NodeEvent → Bool
is_protected e =
    starts_with "run.completion" e.kind
    || starts_with "effect." e.kind
    || starts_with "verification." e.kind

-- One step of the loop that builds the ranges: `ranges.at(-1)` grows or a new range starts.
abbrev pub add_cursor : ℕ → List (ℕ × ℕ) → List (ℕ × ℕ)
add_cursor cursor [] = (cursor, cursor) ∷ []
add_cursor cursor (range ∷ []) =
    if eqb cursor (range.1 + 1) then (range.0, cursor) ∷ [] else range ∷ (cursor, cursor) ∷ []
add_cursor cursor (range ∷ next ∷ ranges) = range ∷ add_cursor cursor (next ∷ ranges)

unfoldable pub add_cursors : List ℕ → List (ℕ × ℕ) → List (ℕ × ℕ)
add_cursors [] ranges = ranges
add_cursors (cursor ∷ cursors) ranges = add_cursors cursors (add_cursor cursor ranges)

-- `new Set(cursors)`: each value at its first place
abbrev pub distinct_from : List ℕ → List ℕ → List ℕ
distinct_from seen [] = []
distinct_from seen (x ∷ xs) =
    let fresh = x ∷ distinct_from (x ∷ seen) xs in
    let rest = distinct_from seen xs in if any (eqb x) seen then rest else fresh

unfoldable pub contiguous_ranges : List ℕ → List (ℕ × ℕ)
unfolding add_cursors
contiguous_ranges cursors = add_cursors (order_by ltb (distinct_from [] cursors)) []

-- The first event that may go, of those that are not acknowledged.
abbrev pub find_victim : List NodeEvent → Option NodeEvent
find_victim unacked = first_where (λ e. not (is_protected e)) unacked

-- One round of the loop: the victim goes, and `again` is the rest of the loop.
abbrev pub drop_victim : (Store → List ℕ × Store) → Option NodeEvent → Store → List ℕ × Store
drop_victim again none store = ([], store)
drop_victim again (some victim) store =
    let (dropped, after) = again (delete_event_at victim.cursor store) in
    (victim.cursor ∷ dropped, after)

-- `while (unacked.length > max)`. Each round deletes an event, so `suc (length unacked)` rounds
-- are enough fuel.
unfoldable pub drop_events : ℕ → ℕ → ℕ → Store → List ℕ × Store
drop_events zero max acked store = ([], store)
drop_events (suc fuel) max acked store =
    let unacked = events_after acked store in
    let rest = drop_victim (λ s. drop_events fuel max acked s) (find_victim unacked) store in
    if ltb max (length unacked) then rest else ([], store)

abbrev pub truncate_ranges : List (ℕ × ℕ) → Store → Store
truncate_ranges [] store = store
truncate_ranges (range ∷ ranges) store = truncate_ranges ranges (
    append_truncation
      (record {
        from_cursor = range.0;
        to_cursor = range.1;
        reason = TruncationReason.buffer_bytes;
      })
      store)

-- `#enforceBufferBounds`, of the store and the cursor that is acknowledged
unfoldable pub enforce_buffer_bounds : ℕ → ℕ → Store → Store
unfolding drop_events contiguous_ranges
enforce_buffer_bounds max acked store =
    let (dropped, after) = drop_events (suc (length (events_after acked store))) max acked store in
    truncate_ranges (contiguous_ranges dropped) after
