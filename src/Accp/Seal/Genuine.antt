-- ===== src/Accp/Seal/Genuine.antt =====
-- Which messages pass the check: those that are genuine and timely.
use agent_control_center_cor.Base.{
  ℕ, ◌+◌, ◌≤◌, String, Bool, true, false, not, Option, none, some, Result, ok, err, eq_iff, arith,
  ◌≡◌, ◌↔◌, refl, subst, ap, ◌∙◌, if◌then◌else◌,
}
use agent_control_center_cor.Json.{Json}
use agent_control_center_cor.Accp.Seal.{
  Envelope, Checks, VerifyFailure, is_within_clock_skew, is_expired, verify_sealed_envelope,
  verify_parsed, verify_shaped, with_payload, is_past,
}

-- An expiry that is given and is a date lies at most the tolerated skew before `now`.
abbrev pub IsAlive : (String → Option ℕ) → Option String → ℕ → Type 0
IsAlive parse_date expires_at now =
    (text : String) (at : ℕ)
    → expires_at ≡ some text
    → parse_date text ≡ some at
    → now ≤ at + 120000

-- An envelope that a receiver may process at `now`.
pub record IsGenuine {Payload : Type 0} (checks : Checks Payload) (raw : Json) (key : String)
    (now : ℕ) (envelope : Envelope) (payload : Payload) : Type 0 where
  pub shaped : checks.parse_envelope raw ≡ some envelope
  pub registered : checks.is_message_type envelope.type ≡ true
  pub signed : checks.signature_valid key envelope ≡ true
  pub digested : checks.digest_of envelope.payload ≡ envelope.payload_digest
  pub sent : ℕ
  pub sent_at : checks.parse_date envelope.sent_at ≡ some sent
  pub not_late : now ≤ sent + 120000
  pub not_early : sent ≤ now + 120000
  pub alive : IsAlive checks.parse_date envelope.expires_at now
  pub parsed : checks.parse_payload envelope.type envelope.payload ≡ ok payload

within :
    (sent : Option ℕ) (now : ℕ)
    → is_within_clock_skew sent now ≡ true
    → (at : ℕ) × ((sent ≡ some at) × ((now ≤ at + 120000) × (at ≤ now + 120000)))
unfolding is_within_clock_skew
within none now h = cc
within (some at) now h = (at, (refl, (ground arith, ground arith)))

not_expired :
    (parse_date : String → Option ℕ) (expires_at : Option String) (now : ℕ)
    → is_expired parse_date expires_at now ≡ false ↔ IsAlive parse_date expires_at now
unfolding is_expired
not_expired parse_date none now = ((λ h text at e k. cc), (λ h. refl))
not_expired parse_date (some text) now = (to, λ h. from (parse_date text) (λ at. h text at refl))
  where
    past : (o : Option ℕ) (at : ℕ) → is_past o now ≡ false → o ≡ some at → now ≤ at + 120000
    past none at h e = cc
    past (some found) at h e = ground arith

    to : is_past (parse_date text) now ≡ false → IsAlive parse_date (some text) now
    to h other at e k = past (parse_date text) at h (ground arith)

    from : (o : Option ℕ) → ((at : ℕ) → o ≡ some at → now ≤ at + 120000) → is_past o now ≡ false
    from none h = refl
    from (some at) h = ground (arith, h at refl)

timely_within :
    (sent : Option ℕ) (now at : ℕ)
    → sent ≡ some at
    → now ≤ at + 120000
    → at ≤ now + 120000
    → is_within_clock_skew sent now ≡ true
unfolding is_within_clock_skew
timely_within none now at e late early = cc
timely_within (some found) now at e late early = ground arith

with_payload-ok :
    {Payload : Type 0} (checks : Checks Payload) (envelope envelope' : Envelope)
    (r : Result String Payload) (payload : Payload)
    → with_payload checks envelope r ≡ ok (envelope', payload)
    → (r ≡ ok payload) × (envelope ≡ envelope')
with_payload-ok checks envelope envelope' (ok p) payload h = ground arith
with_payload-ok checks envelope envelope' (err m) payload h = cc

module _ {A : Type 0} (e : VerifyFailure) {a : A} where
  unless-ok :
      (b : Bool) (r : Result VerifyFailure A)
      → (if not b then err e else r) ≡ ok a
      → (b ≡ true) × (r ≡ ok a)
  unless-ok true r h = (refl, h)
  unless-ok false r h = cc

  when-ok :
      (b : Bool) (r : Result VerifyFailure A)
      → (if b then err e else r) ≡ ok a
      → (b ≡ false) × (r ≡ ok a)
  when-ok false r h = (refl, h)
  when-ok true r h = cc

verify_parsed-IsGenuine :
    {Payload : Type 0} (checks : Checks Payload) (raw : Json) (key : String) (now : ℕ)
    (parsed : Option Envelope) (envelope : Envelope) (payload : Payload)
    → checks.parse_envelope raw ≡ parsed
    → verify_parsed checks parsed key now ≡ ok (envelope, payload)
    → IsGenuine checks raw key now envelope payload
verify_parsed-IsGenuine checks raw key now none envelope payload shaped h = cc
verify_parsed-IsGenuine checks raw key now (some found) envelope payload shaped h =
    let (registered, h1) = unless-ok _ _ _ h in
    let (signed, h2) = unless-ok _ _ _ h1 in
    let (digested, h3) = unless-ok _ _ _ h2 in
    let (timely, h4) = unless-ok _ _ _ h3 in
    let (alive, h5) = when-ok _ _ _ h4 in
    let (parsed, same) = with_payload-ok checks found envelope _ payload h5 in
    let (sent, (sent_at, (late, early))) = within _ now timely in
    subst (λ x. IsGenuine checks raw key now x payload) same
      (record {
        shaped = shaped;
        registered = registered;
        signed = signed;
        digested = ground (arith, eq_iff (checks.digest_of found.payload) found.payload_digest);
        sent = sent;
        sent_at = sent_at;
        not_late = late;
        not_early = early;
        alive = (not_expired _ _ now).0 alive;
        parsed = parsed;
      })

IsGenuine-verify_shaped :
    {Payload : Type 0} (checks : Checks Payload) (raw : Json) (key : String) (now : ℕ)
    (envelope : Envelope) (payload : Payload)
    → IsGenuine checks raw key now envelope payload
    → verify_shaped checks envelope key now ≡ ok (envelope, payload)
IsGenuine-verify_shaped checks raw key now envelope payload g =
    let digested =
      (eq_iff (checks.digest_of envelope.payload) envelope.payload_digest).1 g.digested in
    let timely = timely_within _ now g.sent g.sent_at g.not_late g.not_early in
    let alive = (not_expired checks.parse_date envelope.expires_at now).1 g.alive in
    rw (g.registered, g.signed, digested, timely, alive, g.parsed) refl

-- The check lets an envelope and its payload through exactly when the envelope has the right shape and
-- a registered type, carries a valid signature and the digest of its payload, was sent within two
-- minutes of the receiver's clock, its expiry, if it has one that is a date, lies at most two
-- minutes back, and its payload parses by its type to that payload.
pub verify_sealed_envelope-IsGenuine :
    {Payload : Type 0} (checks : Checks Payload) (raw : Json) (key : String) (now : ℕ)
    (envelope : Envelope) (payload : Payload)
    → verify_sealed_envelope checks raw key now ≡ ok (envelope, payload)
      ↔ IsGenuine checks raw key now envelope payload
unfolding verify_sealed_envelope
verify_sealed_envelope-IsGenuine checks raw key now envelope payload = (
  verify_parsed-IsGenuine checks raw key now (checks.parse_envelope raw) envelope payload refl,
  λ g.
      ap (λ parsed. verify_parsed checks parsed key now) g.shaped
      ∙ IsGenuine-verify_shaped checks raw key now envelope payload g,
)
