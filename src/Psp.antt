-- ===== src/Psp.antt =====
-- app/infrastructure/psp: the provider interface, the mock and the Stripe provider; the settings of
-- app/config.py that they read, and their choice in app/api/dependencies.py.
use Prim.Native.String.{◌++◌ as append}
use apex_payments_engine.Prelude.{ℕ, String, ◌||◌, Option, none, some, str_eq, if◌then◌else◌}
use apex_payments_engine.Prelude.Int.{pos, eq_ℤ}
use apex_payments_engine.Domain.Enums.{AuthorizationOutcome}
use apex_payments_engine.Domain.Exceptions.{gateway_error}
use apex_payments_engine.Domain.Models.{Payment}
use apex_payments_engine.Session.{
  Environment, Result, ok, err, IntentResult, intent, card_error, stripe_error,
}

pub record AuthorizationResult : Type 0 where
  pub outcome : AuthorizationOutcome
  pub psp_reference : Option String
  pub decline_reason : Option String

unfoldable pub captured : String → AuthorizationResult
captured psp_reference = record {
  outcome = AuthorizationOutcome.captured;
  psp_reference = some psp_reference;
  decline_reason = none;
}

unfoldable pub pending : String → AuthorizationResult
pending psp_reference = record {
  outcome = AuthorizationOutcome.pending;
  psp_reference = some psp_reference;
  decline_reason = none;
}

-- The provider may pass on a reason that is None.
unfoldable pub declined : Option String → AuthorizationResult
declined reason = record {
  outcome = AuthorizationOutcome.declined;
  psp_reference = none;
  decline_reason = reason;
}

-- `PaymentProvider`: a call of `authorize` is given the number of the external calls before it. It
-- has no session, so it cannot touch the tables.
pub record PaymentProvider : Type 0 where
  pub authorize : ℕ → Payment → Result AuthorizationResult

-- Settings
pub record Settings : Type 0 where
  pub psp_provider : String
  pub psp_webhook_secret : String
  pub stripe_api_key : String
  pub stripe_webhook_secret : String

module _ (env : Environment) where
  -- The reference is cut from a new UUID.
  unfoldable pub mock_authorize : ℕ → Payment → Result AuthorizationResult
  unfolding captured pending declined
  mock_authorize n payment =
      if eq_ℤ payment.amount (pos 40001)
      then ok (declined (some "Card declined by mock bank"))
      else if eq_ℤ payment.amount (pos 40002)
      then ok (pending (append "mock_async_ref_" (env.uuid_hex (env.uuid4 n))))
      else ok (captured (append "mock_psp_ref_" (env.uuid_hex (env.uuid4 n))))

  abbrev pub mock_psp_client : PaymentProvider
  mock_psp_client = record { authorize = mock_authorize }

-- `intent.last_payment_error.message`, if there is such an error
abbrev reason_of : String → Option (Option String) → Option String
reason_of status none = some (append "Payment declined by Stripe (status=" (append status ")"))
reason_of status (some message) = message

unfoldable pub map_stripe_status : String → String → Option (Option String) → AuthorizationResult
unfolding captured pending declined
map_stripe_status id status last_error =
    if str_eq status "succeeded" || str_eq status "requires_capture"
    then captured id
    else if str_eq status "requires_action"
        || str_eq status "requires_confirmation"
        || str_eq status "processing"
    then pending id
    else if str_eq status "requires_payment_method" || str_eq status "canceled"
    then declined (reason_of status last_error)
    else pending id

-- `e.user_message or "Card declined"`
abbrev message_or : Option String → String → String
message_or none text = text
message_or (some message) text = if str_eq message "" then text else message

-- `f"{e.user_message}"`
abbrev pub shown : Option String → String
shown none = "None"
shown (some message) = message

unfoldable pub map_intent : IntentResult → Result AuthorizationResult
unfolding map_stripe_status
map_intent (intent id status last_error) = ok (map_stripe_status id status last_error)
map_intent (card_error message) = ok (declined (some (message_or message "Card declined")))
map_intent (stripe_error message) =
    err (gateway_error (append "Stripe gateway error: " (shown message)))

module _ (env : Environment) (settings : Settings) where
  unfoldable pub stripe_authorize : ℕ → Payment → Result AuthorizationResult
  unfolding map_intent captured
  stripe_authorize n payment =
      if str_eq settings.stripe_api_key ""
      then ok (captured (append "stripe_mock_" (env.uuid_hex (env.uuid4 n))))
      else map_intent (env.create_intent n payment)

  abbrev pub stripe_payment_provider : PaymentProvider
  stripe_payment_provider = record { authorize = stripe_authorize }

  unfoldable pub get_payment_provider : PaymentProvider
  get_payment_provider =
      if str_eq (env.lower settings.psp_provider) "stripe"
      then stripe_payment_provider
      else mock_psp_client env
