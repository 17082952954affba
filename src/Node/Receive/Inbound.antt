-- ===== src/Node/Receive/Inbound.antt =====
-- What an inbound message may change.
use agent_control_center_cor.Base.{
  ℕ, suc, ◌+◌, ◌≤◌, String, Bool, true, false, not, Option, none, some, List, [], ◌∷◌, ◌++◌, Result,
  ok, err, arith, if◌then◌else◌, get_or, ◌≡◌, refl, sym, ap, ◌∙◌, if_lem,
}
use agent_control_center_cor.Json.{Json}
use agent_control_center_cor.Accp.Dedup.{check_message}
use agent_control_center_cor.Accp.Seal.{Envelope, VerifyFailure, verify_sealed_envelope}
use agent_control_center_cor.Kernel.{WorkOffer}
use agent_control_center_cor.Node.Store.{
  NodeEvent, OfferAnswer, Store, prune_up_to, set_acked_cursor, save_offer_answer, set_answer,
  get_answer,
}
use agent_control_center_cor.Node.Session.{
  Welcome, Payload, node_welcome, message_ack, work_offer, review_decision, other_payload, Outgoing,
  Body, Config, Session, seal, disconnect, reconcile_summary,
}
use agent_control_center_cor.Node.Receive.{
  reply, seal_batches, flush_to, flush, receive_welcome, receive_ack, receive_offer, with_summary,
  seal_answer, greeted, is_older, is_truncated, answer_offer, decide, handle, is_expected,
  is_acknowledged, refuse, deduplicate, receive_checked, receive, message_id_of,
}

-- What a session keeps over reconnects and restarts, besides the id counters.
pub record IsUntouched {K : Type 0} (s s' : Session K) : Type 0 where
  pub kernel : s'.kernel ≡ s.kernel
  pub store : s'.store ≡ s.store
  pub node_cursor : s'.node_cursor ≡ s.node_cursor
  pub acked_cursor : s'.acked_cursor ≡ s.acked_cursor
  pub offer_answers : s'.offer_answers ≡ s.offer_answers

module _ {K : Type 0} (config : Config K) where
  reply-IsUntouched :
      (body : Body) (now : ℕ) (s : Session K) → IsUntouched s (reply config body now s).1
  unfolding reply
  reply-IsUntouched body now s = record {
    kernel = refl;
    store = refl;
    node_cursor = refl;
    acked_cursor = refl;
    offer_answers = refl;
  }

  refuse-IsUntouched :
      (id : Option String) (failure : VerifyFailure) (now : ℕ) (s : Session K)
      → IsUntouched s (refuse config id failure now s).1
  unfolding reply
  refuse-IsUntouched none failure now s = record {
    kernel = refl;
    store = refl;
    node_cursor = refl;
    acked_cursor = refl;
    offer_answers = refl;
  }
  refuse-IsUntouched (some id) failure now s =
      if_lem (λ (r : List Outgoing × Session K). IsUntouched s r.1) _ _ _
        (λ h. record {
          kernel = refl;
          store = refl;
          node_cursor = refl;
          acked_cursor = refl;
          offer_answers = refl;
        })
        (λ h. record {
          kernel = refl;
          store = refl;
          node_cursor = refl;
          acked_cursor = refl;
          offer_answers = refl;
        })

  seal_batches-IsUntouched :
      (batches : List (List NodeEvent)) (now : ℕ) (s : Session K)
      → IsUntouched s (seal_batches config batches now s).1
  unfolding seal_batches
  seal_batches-IsUntouched [] now s = record {
    kernel = refl;
    store = refl;
    node_cursor = refl;
    acked_cursor = refl;
    offer_answers = refl;
  }
  seal_batches-IsUntouched (batch ∷ batches) now s =
      let t = record s { drawn = suc (suc s.drawn); out_seq = s.out_seq + 1 } in
      let u = seal_batches-IsUntouched batches now t in
      record {
        kernel = u.kernel;
        store = u.store;
        node_cursor = u.node_cursor;
        acked_cursor = u.acked_cursor;
        offer_answers = u.offer_answers;
      }

  -- A message that fails the check changes neither the kernel, nor the journal, nor a cursor,
  -- nor an answer, whatever it claims to be.
  pub receive-forged :
      (raw : Json) (now : ℕ) (s : Session K) (failure : VerifyFailure)
      → verify_sealed_envelope config.checks raw config.cloud_key now ≡ err failure
      → IsUntouched s (receive config raw now s).1
  unfolding receive
  receive-forged raw now s failure h =
      rw (h) (refuse-IsUntouched (message_id_of config raw) failure now s)

  flush_to-IsUntouched :
      (o : Option Welcome) (floor now : ℕ) (s : Session K)
      → IsUntouched s (flush_to config o floor now s).1
  flush_to-IsUntouched none floor now s = record {
    kernel = refl;
    store = refl;
    node_cursor = refl;
    acked_cursor = refl;
    offer_answers = refl;
  }
  flush_to-IsUntouched (some w) floor now s = seal_batches-IsUntouched _ now s

  flush-IsUntouched :
      (now : ℕ) (from_cursor : Option ℕ) (s : Session K)
      → IsUntouched s (flush config now from_cursor s).1
  unfolding flush
  flush-IsUntouched now from_cursor s =
      if_lem (λ (r : List Outgoing × Session K). IsUntouched s r.1) _ _ _
        (λ h. record {
          kernel = refl;
          store = refl;
          node_cursor = refl;
          acked_cursor = refl;
          offer_answers = refl;
        })
        (λ h. flush_to-IsUntouched s.welcome (get_or from_cursor s.acked_cursor) now s)

  with_summary-IsUntouched :
      (s : Session K) (now : ℕ) (r : List Outgoing × Session K)
      → IsUntouched s r.1
      → IsUntouched s (with_summary config now r).1
  unfolding reply
  with_summary-IsUntouched s now (outs, t) u =
      if_lem (λ (r : List Outgoing × Session K). IsUntouched s r.1) (is_truncated t)
        (
          (reply config (reconcile_summary t.node_cursor t.store.truncations) now t).0 ++ outs,
          (reply config (reconcile_summary t.node_cursor t.store.truncations) now t).1,
        )
        (outs, t)
        (λ h. record {
          kernel = u.kernel;
          store = u.store;
          node_cursor = u.node_cursor;
          acked_cursor = u.acked_cursor;
          offer_answers = u.offer_answers;
        })
        (λ h. u)

  receive_welcome-IsUntouched :
      (welcome : Welcome) (now : ℕ) (s : Session K)
      → IsUntouched s (receive_welcome config welcome now s).1
  unfolding receive_welcome disconnect
  receive_welcome-IsUntouched welcome now s =
      let flushed = flush config now (some welcome.node_cursor_ack) (greeted welcome s) in
      let u = flush-IsUntouched now (some welcome.node_cursor_ack) (greeted welcome s) in
      if_lem (λ (r : List Outgoing × Session K). IsUntouched s r.1)
        (is_older config welcome.connection_epoch s.epoch) ([], disconnect config s)
        (with_summary config now flushed)
        (λ h. record {
          kernel = refl;
          store = refl;
          node_cursor = refl;
          acked_cursor = refl;
          offer_answers = refl;
        })
        (λ h. with_summary-IsUntouched s now flushed (record {
          kernel = u.kernel;
          store = u.store;
          node_cursor = u.node_cursor;
          acked_cursor = u.acked_cursor;
          offer_answers = u.offer_answers;
        }))

  -- the durable half of a session agrees with its journal
  abbrev pub IsSynced : Session K → Type 0
  IsSynced s =
      (s.node_cursor ≡ s.store.node_cursor)
      × ((s.acked_cursor ≡ s.store.acked_cursor) × (s.offer_answers ≡ s.store.offer_answers))

  pub record Advances (s s' : Session K) : Type 0 where
    pub node_cursor : s'.node_cursor ≡ s.node_cursor
    pub acked : s.acked_cursor ≤ s'.acked_cursor
    pub synced : IsSynced s → IsSynced s'

  untouched-Advances : (s s' : Session K) → IsUntouched s s' → Advances s s'
  untouched-Advances s s' u = record {
    node_cursor = u.node_cursor;
    acked = ground (arith, u.acked_cursor);
    synced = λ h. (
      u.node_cursor ∙ h.0 ∙ ap (λ (x : Store). x.node_cursor) (sym u.store),
      (
        u.acked_cursor ∙ h.1.0 ∙ ap (λ (x : Store). x.acked_cursor) (sym u.store),
        u.offer_answers ∙ h.1.1 ∙ ap (λ (x : Store). x.offer_answers) (sym u.store),
      ),
    );
  }

  reply-Advances : (body : Body) (now : ℕ) (s : Session K) → Advances s (reply config body now s).1
  reply-Advances body now s = untouched-Advances s _ (reply-IsUntouched body now s)

  replies-Advances :
      (b : Bool) (x y : Body) (now : ℕ) (s : Session K)
      → Advances s (if b then reply config x now s else reply config y now s).1
  replies-Advances true x y now s = reply-Advances x now s
  replies-Advances false x y now s = reply-Advances y now s

  guarded-Advances :
      (b : Bool) (body : Body) (now : ℕ) (s : Session K) (rest : List Outgoing × Session K)
      → Advances s rest.1
      → Advances s (if b then reply config body now s else rest).1
  guarded-Advances true body now s rest h = reply-Advances body now s
  guarded-Advances false body now s rest h = h

  decide-Advances :
      (offer : WorkOffer) (idem id : String) (now : ℕ) (s : Session K)
      → Advances s (decide config offer idem id now s).1
  unfolding seal save_offer_answer
  decide-Advances offer idem id now s = record {
    node_cursor = refl;
    acked = ground arith;
    synced = λ h. (h.0, (h.1.0, ap (set_answer idem _) h.1.1));
  }

  answer_offer-Advances :
      (o : Option OfferAnswer) (offer : WorkOffer) (idem id : String) (now : ℕ) (s : Session K)
      → Advances s (answer_offer config o offer idem id now s).1
  unfolding seal
  answer_offer-Advances none offer idem id now s = decide-Advances offer idem id now s
  answer_offer-Advances (some a) offer idem id now s =
      if_lem (λ (r : List Outgoing × Session K). Advances s r.1)
        (config.checks.is_message_type a.type) (seal_answer config a idem id now s)
        (decide config offer idem id now s)
        (λ h. record { node_cursor = refl; acked = ground arith; synced = λ k. k })
        (λ h. decide-Advances offer idem id now s)

  handle-Advances :
      (envelope : Envelope) (payload : Payload) (now : ℕ) (s : Session K)
      → Advances s (handle config envelope payload now s).1
  unfolding handle reply receive_ack receive_offer prune_up_to set_acked_cursor
  handle-Advances envelope (node_welcome welcome) now s =
      untouched-Advances s _ (receive_welcome-IsUntouched welcome now s)
  handle-Advances envelope (message_ack none) now s = record {
    node_cursor = refl;
    acked = ground arith;
    synced = λ k. k;
  }
  handle-Advances envelope (message_ack (some c)) now s = record {
    node_cursor = refl;
    acked = ground arith;
    synced = λ k. (k.0, (refl, k.1.1));
  }
  handle-Advances envelope (work_offer offer) now s =
      answer_offer-Advances (get_answer _ s.offer_answers) offer _ envelope.message_id now s
  handle-Advances envelope (review_decision decision) now s = record {
    node_cursor = refl;
    acked = ground arith;
    synced = λ k. k;
  }
  handle-Advances envelope other_payload now s =
      replies-Advances (is_acknowledged envelope.type) _ _ now s

  deduplicate-Advances :
      (envelope : Envelope) (payload : Payload) (now : ℕ) (s : Session K)
      → Advances s (deduplicate config envelope payload now s).1
  deduplicate-Advances envelope payload now s =
      let (duplicate, dedup) = check_message envelope.message_id s.dedup in
      let t = record s { dedup = dedup } in
      let a = handle-Advances envelope payload now t in
      if_lem (λ (r : List Outgoing × Session K). Advances s r.1) duplicate ([], s)
        (handle config envelope payload now t)
        (λ h. record { node_cursor = refl; acked = ground arith; synced = λ k. k })
        (λ h. record { node_cursor = a.node_cursor; acked = a.acked; synced = a.synced })

  checked-Advances :
      (raw : Json) (r : Result VerifyFailure (Envelope × Payload)) (now : ℕ) (s : Session K)
      → Advances s (receive_checked config raw r now s).1
  checked-Advances raw (err failure) now s =
      untouched-Advances s _ (refuse-IsUntouched (message_id_of config raw) failure now s)
  checked-Advances raw (ok (envelope, payload)) now s =
      guarded-Advances (not (is_expected config s envelope)) _ now s
        (deduplicate config envelope payload now s) (deduplicate-Advances envelope payload now s)

  -- Whatever comes in, the acknowledged cursor does not go back, the cursor of the node's own events
  -- stays, and cursors and offer answers keep agreeing with the journal that a restart reads.
  pub receive-Advances :
      (raw : Json) (now : ℕ) (s : Session K) → Advances s (receive config raw now s).1
  unfolding receive
  receive-Advances raw now s =
      checked-Advances raw (verify_sealed_envelope config.checks raw config.cloud_key now) now s
