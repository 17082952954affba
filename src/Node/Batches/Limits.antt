-- ===== src/Node/Batches/Limits.antt =====
-- What `flush` puts into its batches.
use agent_control_center_cor.Base.{
  ℕ, suc, zero, ◌+◌, ◌≤◌, true, List, [], ◌∷◌, ◌++◌, leb, arith, length, All, All-append, ◌≡◌,
  if_lem,
}
use agent_control_center_cor.Node.Store.{NodeEvent}
use agent_control_center_cor.Node.Batches.{
  last_event, follows, add_event, add_events, contiguous_event_runs, take_events, skip_events,
  batches_of, all_batches, sent_batches, batches_to_send,
}

-- Each event follows on the one before it.
abbrev pub IsContiguous : List NodeEvent → Type 0
IsContiguous [] = Unit
IsContiguous (e ∷ []) = Unit
IsContiguous (e ∷ f ∷ run) = (f.cursor ≡ e.cursor + 1) × IsContiguous (f ∷ run)

IsContiguous-append :
    (event : NodeEvent) (run : List NodeEvent)
    → IsContiguous run
    → follows event (last_event run) ≡ true
    → IsContiguous (run ++ event ∷ [])
IsContiguous-append event [] h k = tt
IsContiguous-append event (e ∷ []) h k = (ground arith, tt)
IsContiguous-append event (e ∷ f ∷ run) h k = (h.0, IsContiguous-append event (f ∷ run) h.1 k)

add_event-IsContiguous :
    (event : NodeEvent) (runs : List (List NodeEvent))
    → All IsContiguous runs
    → All IsContiguous (add_event event runs)
add_event-IsContiguous event [] h = (tt, tt)
add_event-IsContiguous event (run ∷ []) h =
    if_lem (All IsContiguous) (follows event (last_event run)) ((run ++ event ∷ []) ∷ [])
      (run ∷ (event ∷ []) ∷ []) (λ k. (IsContiguous-append event run h.0 k, tt))
      (λ k. (h.0, (tt, tt)))
add_event-IsContiguous event (run ∷ next ∷ runs) h =
    (h.0, add_event-IsContiguous event (next ∷ runs) h.1)

add_events-IsContiguous :
    (events : List NodeEvent) (runs : List (List NodeEvent))
    → All IsContiguous runs
    → All IsContiguous (add_events events runs)
unfolding add_events
add_events-IsContiguous [] runs h = h
add_events-IsContiguous (e ∷ events) runs h =
    add_events-IsContiguous events (add_event e runs) (add_event-IsContiguous e runs h)

take_events-IsContiguous :
    (n : ℕ) (run : List NodeEvent) → IsContiguous run → IsContiguous (take_events n run)
unfolding take_events
take_events-IsContiguous zero run h = tt
take_events-IsContiguous (suc n) [] h = tt
take_events-IsContiguous (suc zero) (e ∷ run) h = tt
take_events-IsContiguous (suc (suc n)) (e ∷ []) h = tt
take_events-IsContiguous (suc (suc n)) (e ∷ f ∷ run) h =
    (h.0, take_events-IsContiguous (suc n) (f ∷ run) h.1)

skip_events-IsContiguous :
    (n : ℕ) (run : List NodeEvent) → IsContiguous run → IsContiguous (skip_events n run)
unfolding skip_events
skip_events-IsContiguous zero run h = h
skip_events-IsContiguous (suc n) [] h = tt
skip_events-IsContiguous (suc n) (e ∷ []) h = skip_events-IsContiguous n [] tt
skip_events-IsContiguous (suc n) (e ∷ f ∷ run) h = skip_events-IsContiguous n (f ∷ run) h.1

length-take_events : (n : ℕ) (run : List NodeEvent) → length (take_events n run) ≤ n
unfolding take_events
length-take_events zero run = ground arith
length-take_events (suc n) [] = ground arith
length-take_events (suc n) (e ∷ run) = ground (arith, length-take_events n run)

-- A batch that the node may send: not more events than the cloud takes, one after the other.
pub record IsBatch (size : ℕ) (batch : List NodeEvent) : Type 0 where
  pub bounded : length batch ≤ size
  pub contiguous : IsContiguous batch

batches_of-IsBatch :
    (fuel size : ℕ) (run : List NodeEvent)
    → IsContiguous run
    → All (IsBatch size) (batches_of fuel size run)
unfolding batches_of
batches_of-IsBatch zero size run h = tt
batches_of-IsBatch (suc fuel) size [] h = tt
batches_of-IsBatch (suc fuel) size (e ∷ run) h = (
  record {
    bounded = length-take_events size (e ∷ run);
    contiguous = take_events-IsContiguous size (e ∷ run) h;
  },
  batches_of-IsBatch fuel size (skip_events size (e ∷ run))
      (skip_events-IsContiguous size (e ∷ run) h),
)

all_batches-IsBatch :
    (size : ℕ) (runs : List (List NodeEvent))
    → All IsContiguous runs
    → All (IsBatch size) (all_batches size runs)
unfolding all_batches
all_batches-IsBatch size [] h = tt
all_batches-IsBatch size (run ∷ runs) h =
    All-append (IsBatch size) (batches_of (length run) size run) (all_batches size runs)
      (batches_of-IsBatch (length run) size run h.0) (all_batches-IsBatch size runs h.1)

sent_batches-IsBatch :
    (size limit sent : ℕ) (batches : List (List NodeEvent))
    → All (IsBatch size) batches
    → All (IsBatch size) (sent_batches limit sent batches)
unfolding sent_batches
sent_batches-IsBatch size limit sent [] h = tt
sent_batches-IsBatch size limit sent (b ∷ batches) h = (
  h.0,
  if_lem (All (IsBatch size)) (leb limit (suc sent)) [] (sent_batches limit (suc sent) batches)
      (λ k. tt) (λ k. sent_batches-IsBatch size limit (suc sent) batches h.1),
)

sent_batches-bounded :
    (limit sent : ℕ) (batches : List (List NodeEvent))
    → suc sent ≤ limit
    → sent + length (sent_batches limit sent batches) ≤ limit
unfolding sent_batches
sent_batches-bounded limit sent [] h = ground arith
sent_batches-bounded limit sent (b ∷ batches) h =
    ground (arith, sent_batches-bounded limit (suc sent) batches)

-- Under the limits of the cloud, both positive, one flush makes at most `limit` batches, each of at
-- most `size` events with consecutive cursors.
pub batches_to_send-IsBatch :
    (size limit : ℕ) (pending : List NodeEvent)
    → 1 ≤ limit
    → (length (batches_to_send size limit pending) ≤ limit)
      × All (IsBatch size) (batches_to_send size limit pending)
unfolding batches_to_send contiguous_event_runs
batches_to_send-IsBatch size limit pending positive = (
  ground (arith, sent_batches-bounded limit 0 (all_batches size (contiguous_event_runs pending))),
  sent_batches-IsBatch size limit 0 _
      (all_batches-IsBatch size _ (add_events-IsContiguous pending [] tt)),
)
