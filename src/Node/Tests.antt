-- ===== src/Node/Tests.antt =====
-- The theorems on the federation, at small sessions.
use agent_control_center_cor.Base.{
  ℕ, ◌+◌, ◌≤◌, ◌<◌, String, Bool, Option, none, some, true, false, Result, ok, err, List, [], ◌∷◌,
  All, ◌≡◌, ◌↔◌, refl, arith, length, eqb, ◌==◌, inl, inr,
}
use agent_control_center_cor.Base.Order.{IsRow}
use agent_control_center_cor.Base.Decimal.{decimal}
use agent_control_center_cor.Json.{Json, null, str}
use agent_control_center_cor.Accp.Dedup.{check_message}
use agent_control_center_cor.Accp.Dedup.Bounded.{check_message-bounded}
use agent_control_center_cor.Accp.Cursor.{
  overlap, Applies, Misses, decide_cursor_action, decide_cursor_action_lem,
}
use agent_control_center_cor.Accp.Seal.{
  Envelope, Checks, VerifyFailure, VerifyFailureCode, verify_sealed_envelope,
}
use agent_control_center_cor.Accp.Seal.Genuine.{IsGenuine, verify_sealed_envelope-IsGenuine}
use agent_control_center_cor.Kernel.{
  WorkOffer, accept, SimulatedKernel, simulated_kernel, decide_offer, has,
}
use agent_control_center_cor.Kernel.Capacity.{decide_offer-accept}
use agent_control_center_cor.Node.Store.{NodeEvent, Store, empty_store}
use agent_control_center_cor.Node.Buffer.{is_protected, enforce_buffer_bounds}
use agent_control_center_cor.Node.Buffer.Protected.{
  HasCursors, IsSettled, enforce_buffer_bounds-protected,
}
use agent_control_center_cor.Node.Buffer.Reports.{Reports, enforce_buffer_bounds-Reports}
use agent_control_center_cor.Node.Batches.{batches_to_send}
use agent_control_center_cor.Node.Batches.Limits.{IsBatch, batches_to_send-IsBatch}
use agent_control_center_cor.Node.Session.Events.{AgreesWithJournal, emit_event-AgreesWithJournal}
use agent_control_center_cor.Node.Session.{emit_event, Payload, message_ack, Config, Session}
use agent_control_center_cor.Node.Receive.{receive, receive_offer}
use agent_control_center_cor.Node.Receive.Inbound.{
  IsUntouched, Advances, receive-forged, receive-Advances,
}
use agent_control_center_cor.Node.Receive.Offers.{bodies, receive_offer-once}

check_message-bounded_example :
    (length (check_message "c" (record { seen = "a" ∷ "b" ∷ []; capacity = 2 })).1.seen ≤ 2)
    × ((check_message "c" (check_message "c" (record { seen = "a" ∷ "b" ∷ []; capacity = 2 })).1).0
        ≡ true)
check_message-bounded_example =
    check_message-bounded "c" (record { seen = "a" ∷ "b" ∷ []; capacity = 2 }) (ground arith)
      (ground arith)

overlaps : decide_cursor_action 4 3 6 ≡ ok (overlap 5)
unfolding decide_cursor_action
overlaps = refl

decide_cursor_action_lem_example :
    (Applies (overlap 5) 5 ↔ ((4 < 5) × (3 ≤ 4 + 1)))
    × ((other : ℕ) → Misses (overlap 5) other ↔ (((4 < other) × (other < 3)) × (4 < 3)))
decide_cursor_action_lem_example =
    decide_cursor_action_lem 4 3 6 5 (overlap 5) overlaps (ground arith) (ground arith)

-- An acknowledgement that is genuine to checks that take one sender's signature.
abbrev envelope : Envelope
envelope = record {
  protocol = "accp/1.0";
  type = "message.ack";
  message_id = "m-1";
  session_id = "";
  workspace_id = "w-1";
  sender_id = "cloud";
  idempotency_key = none;
  sent_at = "1000";
  expires_at = none;
  payload_digest = "digest";
  payload = null;
  signature = "signed";
}

abbrev sample_shape : Json → Option Envelope
sample_shape null = some envelope
sample_shape _ = none

abbrev checks : Checks Payload
checks = record {
  parse_envelope = sample_shape;
  is_message_type = λ type. true;
  signature_valid = λ key e. e.signature == "signed";
  digest_of = λ payload. "digest";
  parse_date = λ text. some 1000;
  parse_payload = λ type payload. ok (message_ack (some 1));
}

genuine : verify_sealed_envelope checks null "key" 2000 ≡ ok (envelope, message_ack (some 1))
unfolding verify_sealed_envelope agent_control_center_cor.Accp.Seal.is_within_clock_skew
    agent_control_center_cor.Accp.Seal.is_expired
genuine = refl

verify_sealed_envelope-IsGenuine_example :
    verify_sealed_envelope checks null "key" 2000 ≡ ok (envelope, message_ack (some 1))
    ↔ IsGenuine checks null "key" 2000 envelope (message_ack (some 1))
verify_sealed_envelope-IsGenuine_example =
    verify_sealed_envelope-IsGenuine checks null "key" 2000 envelope (message_ack (some 1))

abbrev offer : WorkOffer
offer = record {
  task_id = "t-1";
  run_id = "r-1";
  lease_id = "l-1";
  plan_digest = "d-1";
  required_capabilities = "worktree" ∷ [];
  required_secrets = [];
}

abbrev kernel : SimulatedKernel
kernel = record { decisions = []; secrets = []; capabilities = "worktree" ∷ []; available_runs = 1 }

accepts : decide_offer offer kernel ≡ (accept, record kernel { available_runs = 0 })
unfolding decide_offer agent_control_center_cor.Base.first_where agent_control_center_cor.Base.any
accepts = refl

decide_offer-accept_example :
    All (λ c. has ("worktree" ∷ []) c ≡ true) ("worktree" ∷ [])
    × (All (λ s. has [] s ≡ true) [] × (0 + 1 ≡ 1))
decide_offer-accept_example =
    decide_offer-accept offer kernel (record kernel { available_runs = 0 }) accepts

abbrev config : Config SimulatedKernel
config = record {
  kernel = simulated_kernel;
  checks = checks;
  cloud_key = "key";
  workspace_id = "w-1";
  max_buffered_events = 1;
  iso = decimal;
  uuid_v7 = λ now drawn. decimal drawn;
  to_text = λ value. "";
}

abbrev session : Session SimulatedKernel
session = record {
  kernel = kernel;
  store = empty_store;
  node_cursor = 0;
  acked_cursor = 0;
  offer_answers = [];
  session_id = "";
  epoch = none;
  out_seq = 0;
  welcome = none;
  dedup = record { seen = []; capacity = 10000 };
  connected = false;
  drawn = 0;
}

receive-Advances_example : Advances config session (receive config null 2000 session).1
receive-Advances_example = receive-Advances config null 2000 session

abbrev misshapen : VerifyFailure
misshapen = record { code = VerifyFailureCode.schema_violation; detail = some "envelope shape" }

refused : verify_sealed_envelope checks (str "x") "key" 2000 ≡ err misshapen
unfolding verify_sealed_envelope
refused = refl

receive-forged_example : IsUntouched session (receive config (str "x") 2000 session).1
receive-forged_example = receive-forged config (str "x") 2000 session misshapen refused

receive_offer-once_example :
    (bodies
        (receive_offer config offer "k" "m-2" 2
          (receive_offer config offer "k" "m-1" 1 session).1).0
      ≡ bodies (receive_offer config offer "k" "m-1" 1 session).0)
    × (((receive_offer config offer "k" "m-2" 2
            (receive_offer config offer "k" "m-1" 1 session).1).1.kernel
          ≡ (receive_offer config offer "k" "m-1" 1 session).1.kernel)
        × ((receive_offer config offer "k" "m-2" 2
              (receive_offer config offer "k" "m-1" 1 session).1).1.store
            ≡ (receive_offer config offer "k" "m-1" 1 session).1.store))
receive_offer-once_example =
    receive_offer-once config refl refl offer offer "k" "m-1" "m-2" 1 2 session

abbrev event : ℕ → String → NodeEvent
event cursor kind = record {
  cursor = cursor;
  event_id = "";
  kind = kind;
  occurred_at = "";
  payload = null;
  run_id = none;
  task_id = none;
}

abbrev journal : Store
journal = record empty_store {
  events = event 1 "run.completion" ∷ event 2 "run.output" ∷ [];
  node_cursor = 2;
}

journal-HasCursors : HasCursors journal.events
journal-HasCursors a b (inl e) (inl e') h = cc
journal-HasCursors a b (inl e) (inr (inl e')) h = ground arith
journal-HasCursors a b (inr (inl e)) (inl e') h = ground arith
journal-HasCursors a b (inr (inl e)) (inr (inl e')) h = cc
journal-HasCursors a b (inl e) (inr (inr m)) h = elim m [ ]
journal-HasCursors a b (inr (inl e)) (inr (inr m)) h = elim m [ ]
journal-HasCursors a b (inr (inr m)) n h = elim m [ ]

enforce_buffer_bounds-protected_example :
    IsSettled 1 0 (enforce_buffer_bounds 1 0 journal)
    × ((e : NodeEvent)
        → is_protected e ≡ true
        → IsRow e journal.events
        → IsRow e (enforce_buffer_bounds 1 0 journal).events)
enforce_buffer_bounds-protected_example =
    enforce_buffer_bounds-protected 1 0 journal journal-HasCursors

enforce_buffer_bounds-Reports_example : Reports journal (enforce_buffer_bounds 1 0 journal)
enforce_buffer_bounds-Reports_example = enforce_buffer_bounds-Reports 1 0 journal

batches_to_send-IsBatch_example :
    (length (batches_to_send 2 1 journal.events) ≤ 1)
    × All (IsBatch 2) (batches_to_send 2 1 journal.events)
batches_to_send-IsBatch_example = batches_to_send-IsBatch 2 1 journal.events (ground arith)

abbrev emitted : NodeEvent
emitted = record {
  cursor = 1;
  event_id = "0";
  kind = "run.output";
  occurred_at = decimal 5;
  payload = null;
  run_id = none;
  task_id = none;
}

emits : (emit_event config "run.output" null none none 5 session).0 ≡ ok emitted
unfolding emit_event agent_control_center_cor.Node.Store.append_event_and_advance_cursor
    agent_control_center_cor.Base.any decimal
emits = refl

emit_event-AgreesWithJournal_example :
    (1 ≡ 0 + 1)
    × (((emit_event config "run.output" null none none 5 session).1.node_cursor ≡ 1)
        × AgreesWithJournal (emit_event config "run.output" null none none 5 session).1)
emit_event-AgreesWithJournal_example =
    emit_event-AgreesWithJournal config "run.output" null none none 5 session emitted
      (refl, (refl, refl)) emits
