-- ===== src/Node/Session.antt =====
-- src/node/session.ts: NodeSession. A `Date` is its milliseconds; `iso` is `toISOString`, and
-- `uuid_v7` gives the random part of each id by the count of the ids that were drawn before.
pub mod Events
use agent_control_center_cor.Base.{
  ℕ, suc, ◌+◌, String, Bool, false, Option, none, List, [], Result, ok, err,
}
use agent_control_center_cor.Json.{Json}
use agent_control_center_cor.Accp.Dedup.{DedupIndex}
use agent_control_center_cor.Accp.Seal.{Checks, VerifyFailureCode}
use agent_control_center_cor.Kernel.{WorkOffer, KernelBridge}
use agent_control_center_cor.Node.Store.{
  NodeEvent, Truncation, OfferAnswer, Store, StoreError, append_event_and_advance_cursor,
}
use agent_control_center_cor.Node.Buffer.{enforce_buffer_bounds}

pub record Welcome : Type 0 where
  pub connection_epoch : ℕ
  pub node_cursor_ack : ℕ
  pub max_unacked_batches : ℕ
  pub max_events_per_batch : ℕ

-- The payloads of the messages whose content the session reads.
pub data Payload : Type 0 where
  node_welcome : Welcome → Payload
  message_ack : Option ℕ → Payload
  work_offer : WorkOffer → Payload
  review_decision : Json → Payload
  other_payload : Payload

pub record EventBatch : Type 0 where
  pub batch_id : String
  pub first_cursor : ℕ
  pub last_cursor : ℕ
  pub events : List NodeEvent
  pub truncated_pending_reconcile : Bool

pub record Nack : Type 0 where
  pub nack_for : String
  pub code : VerifyFailureCode
  pub retryable : Bool
  pub detail : Option String

pub data Body : Type 0 where
  node_hello : ℕ → Body
  run_event_batch : EventBatch → Body
  reconcile_summary : ℕ → List Truncation → Body
  ack_for : String → Body
  nack : Nack → Body
  offer_answer : OfferAnswer → Body

-- An envelope before it is sealed: digest and signature are computed from these fields.
pub record Outgoing : Type 0 where
  pub message_id : String
  pub session_id : String
  pub sequence : ℕ
  pub sent_at : String
  pub body : Body
  pub idempotency_key : Option String
  pub causation_id : Option String

-- What a session is built with; `to_text` is JavaScript's `String` of a value that is no string.
pub record Config (K : Type 0) : Type 0 where
  pub kernel : KernelBridge K
  pub checks : Checks Payload
  pub cloud_key : String
  pub workspace_id : String
  pub max_buffered_events : ℕ
  pub iso : ℕ → String
  pub uuid_v7 : ℕ → ℕ → String
  pub to_text : Json → String

pub record Session (K : Type 0) : Type 0 where
  pub kernel : K
  pub store : Store
  pub node_cursor : ℕ
  pub acked_cursor : ℕ
  pub offer_answers : List (String × OfferAnswer)
  pub session_id : String
  pub epoch : Option ℕ
  pub out_seq : ℕ
  pub welcome : Option Welcome
  pub dedup : DedupIndex
  pub connected : Bool
  pub drawn : ℕ

abbrev pub new_dedup : DedupIndex
new_dedup = record { seen = []; capacity = 10000 }

-- `new NodeSession(options)` over a store
unfoldable pub new_session : {K : Type 0} → K → Store → Session K
new_session kernel store = record {
  kernel = kernel;
  store = store;
  node_cursor = store.node_cursor;
  acked_cursor = store.acked_cursor;
  offer_answers = store.offer_answers;
  session_id = "";
  epoch = none;
  out_seq = 0;
  welcome = none;
  dedup = new_dedup;
  connected = false;
  drawn = 0;
}

module _ {K : Type 0} (config : Config K) where
  -- `#seal`
  unfoldable pub seal : Body → Option String → Option String → ℕ → Session K → Outgoing × Session K
  seal body idempotency_key causation_id now s = (
    record {
      message_id = config.uuid_v7 now s.drawn;
      session_id = s.session_id;
      sequence = s.out_seq + 1;
      sent_at = config.iso now;
      body = body;
      idempotency_key = idempotency_key;
      causation_id = causation_id;
    },
    record s { out_seq = s.out_seq + 1; drawn = suc s.drawn },
  )

  unfoldable pub start_handshake : ℕ → Session K → Outgoing × Session K
  unfolding seal
  start_handshake now s = seal (node_hello s.node_cursor) none none now (record s {
    session_id = config.uuid_v7 now s.drawn;
    epoch = none;
    out_seq = 0;
    welcome = none;
    connected = false;
    dedup = new_dedup;
    drawn = suc s.drawn;
  })

  unfoldable pub disconnect : Session K → Session K
  disconnect s = record s { connected = false; welcome = none; epoch = none }

  abbrev pub new_event : String → Json → Option String → Option String → ℕ → Session K → NodeEvent
  new_event kind payload run_id task_id now s = record {
    cursor = s.node_cursor + 1;
    event_id = config.uuid_v7 now s.drawn;
    kind = kind;
    occurred_at = config.iso now;
    payload = payload;
    run_id = run_id;
    task_id = task_id;
  }

  abbrev pub with_event :
      NodeEvent → Session K → Result StoreError Store → Result StoreError NodeEvent × Session K
  with_event event s (err e) = (err e, record s { drawn = suc s.drawn })
  with_event event s (ok store) = (
    ok event,
    record s {
      store = enforce_buffer_bounds config.max_buffered_events s.acked_cursor store;
      node_cursor = event.cursor;
      drawn = suc s.drawn;
    },
  )

  unfoldable pub emit_event :
      String
      → Json
      → Option String
      → Option String
      → ℕ
      → Session K
      → Result StoreError NodeEvent × Session K
  emit_event kind payload run_id task_id now s =
      let event = new_event kind payload run_id task_id now s in
      with_event event s (append_event_and_advance_cursor event s.store)
