-- ===== src/Accp/Seal.antt =====
-- src/accp/seal.ts: verifySealedEnvelope, with the clock rules of src/accp/envelope.ts.
pub mod Genuine
use agent_control_center_cor.Base.{
  ℕ, ◌+◌, ◌-◌, String, Bool, true, false, not, ◌&&◌, Option, none, some, Result, ok, err, ltb, leb,
  ◌==◌, if◌then◌else◌,
}
use agent_control_center_cor.Json.{Json}

-- The fields of an envelope that the code reads; a time is the text that was sent.
pub record Envelope : Type 0 where
  pub protocol : String
  pub type : String
  pub message_id : String
  pub session_id : String
  pub workspace_id : String
  pub sender_id : String
  pub idempotency_key : Option String
  pub sent_at : String
  pub expires_at : Option String
  pub payload_digest : String
  pub payload : Json
  pub signature : String

pub data VerifyFailureCode : Type 0 where
  schema_violation unknown_type signature_invalid clock_skew_exceeded expired : VerifyFailureCode

pub record VerifyFailure : Type 0 where
  pub code : VerifyFailureCode
  pub detail : Option String

-- What the check takes from zod, from node:crypto and from the runtime: the shape of an envelope
-- (`EnvelopeSchema.safeParse`), the registered message types and their payload schemas, an Ed25519
-- verification of the signing input, the payload's digest, and `Date.parse`, whose NaN is `none`.
pub record Checks (Payload : Type 0) : Type 0 where
  pub parse_envelope : Json → Option Envelope
  pub is_message_type : String → Bool
  pub signature_valid : String → Envelope → Bool
  pub digest_of : Json → String
  pub parse_date : String → Option ℕ
  pub parse_payload : String → Json → Result String Payload

abbrev pub clock_skew_tolerance : ℕ
clock_skew_tolerance = 120000

-- `Math.abs(receiverNowMs - sent) <= CLOCK_SKEW_TOLERANCE_MS`, which NaN is not
unfoldable pub is_within_clock_skew : Option ℕ → ℕ → Bool
is_within_clock_skew none now = false
is_within_clock_skew (some sent) now =
    leb (now - sent) clock_skew_tolerance && leb (sent - now) clock_skew_tolerance

-- `Date.parse(expiresAt) < receiverNowMs - CLOCK_SKEW_TOLERANCE_MS`, which NaN is not either
abbrev pub is_past : Option ℕ → ℕ → Bool
is_past none now = false
is_past (some at) now = ltb (at + clock_skew_tolerance) now

unfoldable pub is_expired : (String → Option ℕ) → Option String → ℕ → Bool
is_expired parse_date none now = false
is_expired parse_date (some at) now = is_past (parse_date at) now

abbrev pub failed : VerifyFailureCode → VerifyFailure
failed code = record { code = code; detail = none }

abbrev pub failed_at : VerifyFailureCode → String → VerifyFailure
failed_at code detail = record { code = code; detail = some detail }

module _ {Payload : Type 0} (checks : Checks Payload) where
  abbrev pub with_payload :
      Envelope → Result String Payload → Result VerifyFailure (Envelope × Payload)
  with_payload envelope (ok payload) = ok (envelope, payload)
  with_payload envelope (err message) = err (failed_at schema_violation message)

  abbrev pub verify_shaped : Envelope → String → ℕ → Result VerifyFailure (Envelope × Payload)
  verify_shaped envelope key now =
      if not (checks.is_message_type envelope.type)
      then err (failed_at unknown_type envelope.type)
      else if not (checks.signature_valid key envelope)
      then err (failed signature_invalid)
      else if not (checks.digest_of envelope.payload == envelope.payload_digest)
      then err (failed_at signature_invalid "payload digest")
      else if not (is_within_clock_skew (checks.parse_date envelope.sent_at) now)
      then err (failed clock_skew_exceeded)
      else if is_expired checks.parse_date envelope.expires_at now
      then err (failed expired)
      else with_payload envelope (checks.parse_payload envelope.type envelope.payload)

  abbrev pub verify_parsed :
      Option Envelope → String → ℕ → Result VerifyFailure (Envelope × Payload)
  verify_parsed none key now = err (failed_at schema_violation "envelope shape")
  verify_parsed (some envelope) key now = verify_shaped envelope key now

  -- `verifySealedEnvelope`
  unfoldable pub verify_sealed_envelope :
      Json → String → ℕ → Result VerifyFailure (Envelope × Payload)
  verify_sealed_envelope raw key now = verify_parsed (checks.parse_envelope raw) key now
