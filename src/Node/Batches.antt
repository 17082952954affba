-- ===== src/Node/Batches.antt =====
-- src/node/session.ts: contiguousEventRuns, and how `flush` cuts the runs into batches.
pub mod Limits
use agent_control_center_cor.Base.{
  ℕ, suc, zero, ◌+◌, ◌-◌, Bool, false, Option, none, some, List, [], ◌∷◌, ◌++◌, leb, eqb,
  if◌then◌else◌, length,
}
use agent_control_center_cor.Node.Store.{NodeEvent}

-- `run.at(-1)`
abbrev pub last_event : List NodeEvent → Option NodeEvent
last_event [] = none
last_event (e ∷ []) = some e
last_event (e ∷ f ∷ run) = last_event (f ∷ run)

abbrev pub follows : NodeEvent → Option NodeEvent → Bool
follows event none = false
follows event (some previous) = eqb event.cursor (previous.cursor + 1)

-- One step of `contiguousEventRuns`: the last run grows or a new run starts.
abbrev pub add_event : NodeEvent → List (List NodeEvent) → List (List NodeEvent)
add_event event [] = (event ∷ []) ∷ []
add_event event (run ∷ []) =
    if follows event (last_event run) then (run ++ event ∷ []) ∷ [] else run ∷ (event ∷ []) ∷ []
add_event event (run ∷ next ∷ runs) = run ∷ add_event event (next ∷ runs)

unfoldable pub add_events : List NodeEvent → List (List NodeEvent) → List (List NodeEvent)
add_events [] runs = runs
add_events (event ∷ events) runs = add_events events (add_event event runs)

unfoldable pub contiguous_event_runs : List NodeEvent → List (List NodeEvent)
unfolding add_events
contiguous_event_runs events = add_events events []

unfoldable pub take_events : ℕ → List NodeEvent → List NodeEvent
take_events zero events = []
take_events (suc n) [] = []
take_events (suc n) (e ∷ events) = e ∷ take_events n events

unfoldable pub skip_events : ℕ → List NodeEvent → List NodeEvent
skip_events zero events = events
skip_events (suc n) [] = []
skip_events (suc n) (e ∷ events) = skip_events n events

-- `for (let i = 0; i < run.length; i += size)` with `run.slice(i, i + size)`. The schema of
-- `node.welcome` asks for a positive size, so the length of the run is enough fuel.
unfoldable pub batches_of : ℕ → ℕ → List NodeEvent → List (List NodeEvent)
unfolding take_events skip_events
batches_of zero size run = []
batches_of (suc fuel) size [] = []
batches_of (suc fuel) size (e ∷ run) =
    take_events size (e ∷ run) ∷ batches_of fuel size (skip_events size (e ∷ run))

-- The batches of all runs, one after the other, as the two loops of `flush` go through them.
unfoldable pub all_batches : ℕ → List (List NodeEvent) → List (List NodeEvent)
unfolding batches_of
all_batches size [] = []
all_batches size (run ∷ runs) = batches_of (length run) size run ++ all_batches size runs

-- `if (out.length >= maxUnackedBatches) return out`, after each batch: `sent` batches are out.
unfoldable pub sent_batches : ℕ → ℕ → List (List NodeEvent) → List (List NodeEvent)
sent_batches limit sent [] = []
sent_batches limit sent (batch ∷ batches) =
    let rest = sent_batches limit (suc sent) batches in
    batch ∷ (if leb limit (suc sent) then [] else rest)

unfoldable pub batches_to_send : ℕ → ℕ → List NodeEvent → List (List NodeEvent)
unfolding contiguous_event_runs all_batches sent_batches
batches_to_send size limit pending =
    sent_batches limit 0 (all_batches size (contiguous_event_runs pending))
