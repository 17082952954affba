-- ===== src/Node/Receive.antt =====
-- src/node/session.ts: flush, reconcileSummary and receive.
pub mod Inbound
pub mod Offers
use agent_control_center_cor.Base.{
  ℕ, suc, ◌+◌, String, Bool, true, false, not, ◌&&◌, ◌||◌, Option, none, some, List, [], ◌∷◌, ◌++◌,
  Result, ok, err, ltb, eqb, max, ◌==◌, if◌then◌else◌, get_or, length,
}
use agent_control_center_cor.Json.{Json, Fields, str, obj, field, end, get_field}
use agent_control_center_cor.Accp.Dedup.{DedupIndex, check_message}
use agent_control_center_cor.Accp.Seal.{
  Envelope, Checks, VerifyFailure, VerifyFailureCode, verify_sealed_envelope,
}
use agent_control_center_cor.Kernel.{
  WorkOffer, OfferDecision, DeclineReason, accept, decline, KernelBridge,
}
use agent_control_center_cor.Node.Store.{
  NodeEvent, OfferAnswer, events_after, prune_up_to, set_acked_cursor, save_offer_answer,
  set_answer, get_answer,
}
use agent_control_center_cor.Node.Batches.{batches_to_send, last_event}
use agent_control_center_cor.Node.Session.{
  Welcome, Payload, node_welcome, message_ack, work_offer, review_decision, other_payload,
  EventBatch, Nack, Body, run_event_batch, reconcile_summary, ack_for, nack, offer_answer, Outgoing,
  Config, Session, seal, disconnect,
}

-- The cursors of a batch that is not empty; `batches_of` makes no other.
abbrev pub first_cursor : List NodeEvent → ℕ
first_cursor [] = 0
first_cursor (e ∷ events) = e.cursor

abbrev pub cursor_of : Option NodeEvent → ℕ
cursor_of none = 0
cursor_of (some e) = e.cursor

abbrev pub is_truncated : {K : Type 0} → Session K → Bool
is_truncated s = ltb 0 (length s.store.truncations)

abbrev pub reason_name : DeclineReason → String
reason_name DeclineReason.repo_base_unavailable = "REPO_BASE_UNAVAILABLE"
reason_name DeclineReason.secret_missing = "SECRET_MISSING"
reason_name DeclineReason.capability_missing = "CAPABILITY_MISSING"
reason_name DeclineReason.policy_bundle_unsupported = "POLICY_BUNDLE_UNSUPPORTED"
reason_name DeclineReason.capacity = "CAPACITY"

abbrev detail_fields : Option String → Fields
detail_fields none = end
detail_fields (some detail) = field "detail" (str detail) end

-- The answer to an offer, with the time at which it is stored.
abbrev pub answer_of : WorkOffer → String → OfferDecision → OfferAnswer
answer_of offer at accept = record {
  type = "work.accepted";
  payload = obj (
      field "taskId" (str offer.task_id) (
        field "runId" (str offer.run_id) (
          field "leaseId" (str offer.lease_id) (
            field "persistedAt" (str at)
              (field "planRevisionDigest" (str offer.plan_digest) end)))));
}
answer_of offer at (decline reason detail) = record {
  type = "work.declined";
  payload = obj (
      field "taskId" (str offer.task_id) (
        field "runId" (str offer.run_id) (
          field "leaseId" (str offer.lease_id)
            (field "reason" (str (reason_name reason)) (detail_fields detail)))));
}

abbrev pub is_code : VerifyFailureCode → VerifyFailureCode → Bool
is_code VerifyFailureCode.expired VerifyFailureCode.expired = true
is_code VerifyFailureCode.signature_invalid VerifyFailureCode.signature_invalid = true
is_code _ _ = false

-- The message types that the node only acknowledges.
abbrev pub is_acknowledged : String → Bool
is_acknowledged type =
    type == "run.completion_accepted"
    || type == "lease.renewed"
    || type == "lease.revoked"
    || type == "run.cancel_requested"
    || type == "reconcile.request"

abbrev pub greeted : {K : Type 0} → Welcome → Session K → Session K
greeted welcome s = record s {
  welcome = some welcome;
  epoch = some welcome.connection_epoch;
  connected = true;
}

module _ {K : Type 0} (config : Config K) where
  unfoldable pub reply : Body → ℕ → Session K → List Outgoing × Session K
  unfolding seal
  reply body now s = let (out, s') = seal config body none none now s in (out ∷ [], s')

  -- `uuidV7` of the batch is drawn before the one of its envelope.
  unfoldable pub seal_batches : List (List NodeEvent) → ℕ → Session K → List Outgoing × Session K
  unfolding seal
  seal_batches [] now s = ([], s)
  seal_batches (events ∷ batches) now s =
      let batch : EventBatch = record {
        batch_id = config.uuid_v7 now s.drawn;
        first_cursor = first_cursor events;
        last_cursor = cursor_of (last_event events);
        events = events;
        truncated_pending_reconcile = is_truncated s;
      } in
      let (out, s') =
        seal config (run_event_batch batch) none none now (record s { drawn = suc s.drawn }) in
      let (outs, s'') = seal_batches batches now s' in (out ∷ outs, s'')

  abbrev pub flush_to : Option Welcome → ℕ → ℕ → Session K → List Outgoing × Session K
  flush_to none floor now s = ([], s)
  flush_to (some welcome) floor now s =
      seal_batches
        (batches_to_send welcome.max_events_per_batch welcome.max_unacked_batches
          (events_after floor s.store))
        now s

  unfoldable pub flush : ℕ → Option ℕ → Session K → List Outgoing × Session K
  unfolding seal_batches
  flush now from_cursor s =
      if not s.connected
      then ([], s)
      else flush_to s.welcome (get_or from_cursor s.acked_cursor) now s

  -- The summary is sealed after the batches and goes out before them.
  abbrev pub with_summary : ℕ → List Outgoing × Session K → List Outgoing × Session K
  with_summary now (replays, s) =
      let (summary, s') = reply (reconcile_summary s.node_cursor s.store.truncations) now s in
      if is_truncated s then (summary ++ replays, s') else (replays, s)

  abbrev pub is_older : ℕ → Option ℕ → Bool
  is_older epoch none = false
  is_older epoch (some current) = ltb epoch current

  unfoldable pub receive_welcome : Welcome → ℕ → Session K → List Outgoing × Session K
  unfolding flush reply disconnect
  receive_welcome welcome now s =
      if is_older welcome.connection_epoch s.epoch
      then ([], disconnect config s)
      else with_summary now (flush now (some welcome.node_cursor_ack) (greeted welcome s))

  unfoldable pub receive_ack : Option ℕ → Session K → List Outgoing × Session K
  receive_ack none s = ([], s)
  receive_ack (some cursor) s =
      let acked = max s.acked_cursor cursor in
      (
        [],
        record s {
          acked_cursor = acked;
          store = prune_up_to acked (set_acked_cursor acked s.store);
        },
      )

  abbrev pub seal_answer : OfferAnswer → String → String → ℕ → Session K → List Outgoing × Session K
  seal_answer answer idem message_id now s =
      let (out, s') = seal config (offer_answer answer) (some idem) (some message_id) now s in
      (out ∷ [], s')

  abbrev pub decide : WorkOffer → String → String → ℕ → Session K → List Outgoing × Session K
  decide offer idem message_id now s =
      let (decision, kernel) = config.kernel.decide_offer offer s.kernel in
      let answer = answer_of offer (config.iso now) decision in
      seal_answer answer idem message_id now (record s {
        kernel = kernel;
        offer_answers = set_answer idem answer s.offer_answers;
        store = save_offer_answer idem answer s.store;
      })

  abbrev pub answer_offer :
      Option OfferAnswer → WorkOffer → String → String → ℕ → Session K → List Outgoing × Session K
  answer_offer none offer idem message_id now s = decide offer idem message_id now s
  answer_offer (some answered) offer idem message_id now s =
      if config.checks.is_message_type answered.type
      then seal_answer answered idem message_id now s
      else decide offer idem message_id now s

  unfoldable pub receive_offer :
      WorkOffer → String → String → ℕ → Session K → List Outgoing × Session K
  unfolding seal
  receive_offer offer idem message_id now s =
      answer_offer (get_answer idem s.offer_answers) offer idem message_id now s

  -- The `switch`, on the payload that the check has parsed. `EnvelopeSchema` asks an offer for its
  -- idempotency key.
  unfoldable pub handle : Envelope → Payload → ℕ → Session K → List Outgoing × Session K
  unfolding receive_welcome receive_ack receive_offer reply
  handle envelope (node_welcome welcome) now s = receive_welcome welcome now s
  handle envelope (message_ack cursor) now s = receive_ack cursor s
  handle envelope (work_offer offer) now s =
      receive_offer offer (get_or envelope.idempotency_key "") envelope.message_id now s
  handle envelope (review_decision decision) now s =
      reply (ack_for envelope.message_id) now
        (record s { kernel = config.kernel.on_review_decision decision s.kernel })
  handle envelope other_payload now s =
      if is_acknowledged envelope.type
      then reply (ack_for envelope.message_id) now s
      else reply
          (nack (record {
            nack_for = envelope.message_id;
            code = VerifyFailureCode.unknown_type;
            retryable = false;
            detail = none;
          }))
          now s

  abbrev pub is_expected : Session K → Envelope → Bool
  is_expected s envelope =
      envelope.protocol == "accp/1.0"
      && envelope.sender_id == "cloud"
      && envelope.workspace_id == config.workspace_id
      && envelope.session_id == s.session_id

  abbrev pub text_of : Json → String
  text_of (str s) = s
  text_of value = config.to_text value

  -- `"messageId" in raw ? String(raw.messageId) : null`
  abbrev id_text : Option Json → Option String
  id_text none = none
  id_text (some value) = some (text_of value)

  abbrev pub message_id_of : Json → Option String
  message_id_of (obj fields) = id_text (get_field "messageId" fields)
  message_id_of _ = none

  abbrev pub refuse : Option String → VerifyFailure → ℕ → Session K → List Outgoing × Session K
  refuse none failure now s = ([], s)
  refuse (some id) failure now s =
      if is_code failure.code VerifyFailureCode.signature_invalid
      then ([], s)
      else reply
          (nack (record {
            nack_for = id;
            code = failure.code;
            retryable = is_code failure.code VerifyFailureCode.expired;
            detail = failure.detail;
          }))
          now s

  abbrev pub deduplicate : Envelope → Payload → ℕ → Session K → List Outgoing × Session K
  deduplicate envelope payload now s =
      let (duplicate, dedup) = check_message envelope.message_id s.dedup in
      if duplicate then ([], s) else handle envelope payload now (record s { dedup = dedup })

  abbrev pub receive_checked :
      Json → Result VerifyFailure (Envelope × Payload) → ℕ → Session K → List Outgoing × Session K
  receive_checked raw (err failure) now s = refuse (message_id_of raw) failure now s
  receive_checked raw (ok (envelope, payload)) now s =
      if not (is_expected s envelope)
      then reply
          (nack (record {
            nack_for = envelope.message_id;
            code = VerifyFailureCode.schema_violation;
            retryable = false;
            detail = some "unexpected protocol, sender, workspace, or node session";
          }))
          now s
      else deduplicate envelope payload now s

  unfoldable pub receive : Json → ℕ → Session K → List Outgoing × Session K
  unfolding reply check_message handle
  receive raw now s =
      receive_checked raw (verify_sealed_envelope config.checks raw config.cloud_key now) now s
