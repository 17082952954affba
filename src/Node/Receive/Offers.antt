-- ===== src/Node/Receive/Offers.antt =====
-- An offer is decided once.
use agent_control_center_cor.Base.{
  ℕ, String, true, Option, none, some, List, [], ◌∷◌, arith, eq_refl, if◌then◌else◌, ◌≡◌, refl, sym,
  ◌∙◌, if_lem,
}
use agent_control_center_cor.Kernel.{WorkOffer, OfferDecision, accept, decline}
use agent_control_center_cor.Node.Store.{OfferAnswer, set_answer, get_answer}
use agent_control_center_cor.Node.Session.{Outgoing, Body, offer_answer, Config, Session, seal}
use agent_control_center_cor.Node.Receive.{
  receive_offer, answer_offer, decide, seal_answer, answer_of,
}

get_answer-set_answer :
    (key : String) (answer : OfferAnswer) (entries : List (String × OfferAnswer))
    → get_answer key (set_answer key answer entries) ≡ some answer
get_answer-set_answer key answer [] = ground (arith, eq_refl key)
get_answer-set_answer key answer (entry ∷ entries) =
    ground (arith, eq_refl key, get_answer-set_answer key answer entries)

abbrev pub bodies : List Outgoing → List Body
bodies [] = []
bodies (out ∷ outs) = out.body ∷ bodies outs

module _ {K : Type 0} (config : Config K) where
  -- After an offer is answered its key has an answer of a registered type, which went out.
  pub IsAnswered : String → List Body → Session K → Type 0
  IsAnswered idem sent s =
      (answer : OfferAnswer) × ((get_answer idem s.offer_answers ≡ some answer)
        × ((config.checks.is_message_type answer.type ≡ true) × (sent ≡ offer_answer answer ∷ [])))

  answer_of-registered :
      (offer : WorkOffer) (at : String) (decision : OfferDecision)
      → config.checks.is_message_type "work.accepted" ≡ true
      → config.checks.is_message_type "work.declined" ≡ true
      → config.checks.is_message_type (answer_of offer at decision).type ≡ true
  answer_of-registered offer at accept h k = h
  answer_of-registered offer at (decline reason detail) h k = k

  replayed :
      (offer : WorkOffer) (idem id : String) (now : ℕ) (s : Session K) (answer : OfferAnswer)
      → get_answer idem s.offer_answers ≡ some answer
      → config.checks.is_message_type answer.type ≡ true
      → (bodies (receive_offer config offer idem id now s).0 ≡ offer_answer answer ∷ [])
        × (((receive_offer config offer idem id now s).1.kernel ≡ s.kernel)
            × ((receive_offer config offer idem id now s).1.store ≡ s.store))
  unfolding receive_offer seal
  replayed offer idem id now s answer stored registered =
      rw (stored, registered, if◌then◌else◌) (refl, (refl, refl))

  module _ (accepted : config.checks.is_message_type "work.accepted" ≡ true)
      (declined : config.checks.is_message_type "work.declined" ≡ true) where
    decide-IsAnswered :
        (offer : WorkOffer) (idem id : String) (now : ℕ) (s : Session K)
        → IsAnswered idem
            (bodies (decide config offer idem id now s).0)
            (decide config offer idem id now s).1
    unfolding seal IsAnswered
    decide-IsAnswered offer idem id now s =
        let answer =
          answer_of offer (config.iso now) (config.kernel.decide_offer offer s.kernel).0 in
        (
          answer,
          (
            get_answer-set_answer idem answer s.offer_answers,
            (answer_of-registered offer (config.iso now) _ accepted declined, refl),
          ),
        )

    answer_offer-IsAnswered :
        (o : Option OfferAnswer) (offer : WorkOffer) (idem id : String) (now : ℕ) (s : Session K)
        → get_answer idem s.offer_answers ≡ o
        → IsAnswered idem
            (bodies (answer_offer config o offer idem id now s).0)
            (answer_offer config o offer idem id now s).1
    unfolding seal IsAnswered
    answer_offer-IsAnswered none offer idem id now s h = decide-IsAnswered offer idem id now s
    answer_offer-IsAnswered (some a) offer idem id now s h =
        if_lem (λ (r : List Outgoing × Session K). IsAnswered idem (bodies r.0) r.1)
          (config.checks.is_message_type a.type) (seal_answer config a idem id now s)
          (decide config offer idem id now s) (λ k. (a, (h, (k, refl))))
          (λ k. decide-IsAnswered offer idem id now s)

    -- Where the two answers are registered message types: an offer that comes again right after,
    -- as another message and with another content, gets the answer that its idempotency key got
    -- before; the kernel is not asked and the journal not written again.
    pub receive_offer-once :
        (offer offer' : WorkOffer) (idem id id' : String) (now now' : ℕ) (s : Session K)
        → (bodies
              (receive_offer config offer' idem id' now'
                (receive_offer config offer idem id now s).1).0
            ≡ bodies (receive_offer config offer idem id now s).0)
          × (((receive_offer config offer' idem id' now'
                  (receive_offer config offer idem id now s).1).1.kernel
                ≡ (receive_offer config offer idem id now s).1.kernel)
              × ((receive_offer config offer' idem id' now'
                    (receive_offer config offer idem id now s).1).1.store
                  ≡ (receive_offer config offer idem id now s).1.store))
    unfolding receive_offer seal IsAnswered
    receive_offer-once offer offer' idem id id' now now' s =
        let (answer, (stored, (registered, sent))) =
          answer_offer-IsAnswered (get_answer idem s.offer_answers) offer idem id now s refl in
        let (same, kept) =
          replayed offer' idem id' now' (receive_offer config offer idem id now s).1 answer stored
            registered in
        (same ∙ sym sent, kept)
