-- ===== src/Payments.antt =====
-- app/application/payment_service.py: `PaymentService`, and the handlers of app/api/payments.py.
pub mod Replay
pub mod Opening
pub mod Idempotent
pub mod Stranded
pub mod Steps
pub mod Outcome
use apex_payments_engine.Prelude.{ℕ, String, Bool, not, Option, none, some}
use apex_payments_engine.Prelude.Int.{pos}
use apex_payments_engine.Domain.Enums.{
  AuthorizationOutcome, captured, pending, declined, PaymentStatus,
}
use apex_payments_engine.Domain.Exceptions.{
  Uuid, Time, domain, payment_not_found, no_result_found, validation_error,
  request_validation_error,
}
use apex_payments_engine.Schemas.{
  CreatePaymentRequest, PaymentResponse, ResponseBody, empty_body, payment_body, refund_body,
  is_valid_payment,
}
use apex_payments_engine.Domain.Models.{Payment}
use apex_payments_engine.Session.{
  Environment, payment_request, Result, ok, err, Action, pure, raise, lift, gets, or_raise,
  external, ◌>>=◌, ◌>>◌, raise_if, update, transaction,
}
use apex_payments_engine.Idempotency.{claim_or_replay, complete}
use apex_payments_engine.Psp.{AuthorizationResult, PaymentProvider}
use apex_payments_engine.Saga.{payment_row, set_payment, hold, settle, reverse}

unfoldable pub to_response : Payment → PaymentResponse
to_response payment = record {
  id = payment.id;
  merchant_id = payment.merchant_id;
  payer_account_id = payment.payer_account;
  payee_account_id = payment.payee_account;
  amount = payment.amount;
  currency = payment.currency;
  status = payment.status;
  psp_reference = payment.psp_reference;
  refunded_amount = payment.refunded_amount;
  created_at = payment.created_at;
}

-- `PaymentResponse(**body)`: a body that lacks its fields fails the validation.
unfoldable pub parse_payment : ResponseBody → Result PaymentResponse
parse_payment empty_body = err validation_error
parse_payment (payment_body response) = ok response
parse_payment (refund_body response) = err validation_error

-- `Payment(...)` as `create` builds it; the missing columns have their defaults.
abbrev pub new_payment : Uuid → CreatePaymentRequest → Time → Payment
new_payment payment_id request t = record {
  id = payment_id;
  merchant_id = request.merchant_id;
  payer_account = request.payer_account_id;
  payee_account = request.payee_account_id;
  amount = request.amount;
  currency = request.currency;
  status = PaymentStatus.created;
  psp_reference = none;
  refunded_amount = pos 0;
  version = 0;
  created_at = t;
  updated_at = t;
}

-- `auth_result.psp_reference or ""`
abbrev pub reference_or_empty : Option String → String
reference_or_empty none = ""
reference_or_empty (some reference) = reference

-- `updated_at` is set by its `onupdate` when the change is flushed.
abbrev pub authorized : Option String → Time → Payment → Payment
authorized psp_reference t payment = record payment {
  status = PaymentStatus.authorized;
  psp_reference = psp_reference;
  updated_at = t;
}

-- The end of the first transaction: a stored response, or a payment whose funds are held.
pub data Opened : Type 0 where
  replayed : ℕ → PaymentResponse → Opened
  held : Payment → Opened

module _ (env : Environment) where
  unfoldable pub get_payment : Uuid → Action PaymentResponse
  get_payment payment_id = do
    found ← gets (payment_row payment_id)
    payment ← or_raise found (domain (payment_not_found payment_id))
    pure (to_response payment)

  unfoldable pub replay_or_hold :
      Uuid → CreatePaymentRequest → Option (ℕ × ResponseBody) → Action Opened
  replay_or_hold payment_id request (some (code, body)) = do
    response ← lift (parse_payment body)
    pure (replayed code response)
  replay_or_hold payment_id request none = do
    t ← external env.now
    payment ← hold env (new_payment payment_id request t)
    pure (held payment)

  -- Transaction 1: the idempotency claim and the hold.
  unfoldable pub open_payment : Bool → String → CreatePaymentRequest → Uuid → Action Opened
  open_payment lock idempotency_key request payment_id = transaction env (do
    replay ← claim_or_replay env lock request.merchant_id idempotency_key (payment_request request)
    replay_or_hold payment_id request replay)

  -- The payment waits for a webhook. It is loaded by `scalar_one`.
  unfoldable pub mark_authorized : Uuid → Option String → Action Payment
  mark_authorized payment_id psp_reference = do
    found ← gets (payment_row payment_id)
    payment ← or_raise found no_result_found
    t ← external env.now
    update (set_payment payment_id (authorized psp_reference t))
    pure (authorized psp_reference t payment)

  unfoldable pub apply_outcome : Uuid → AuthorizationOutcome → Option String → Action Payment
  apply_outcome payment_id captured psp_reference =
      settle env payment_id (reference_or_empty psp_reference)
  apply_outcome payment_id declined psp_reference = reverse env payment_id
  apply_outcome payment_id pending psp_reference = mark_authorized payment_id psp_reference

  -- Transaction 2: the outcome, and the response that later calls replay.
  unfoldable pub finish_payment :
      String → CreatePaymentRequest → Uuid → AuthorizationResult → Action PaymentResponse
  finish_payment idempotency_key request payment_id auth_result = transaction env (do
    payment ← apply_outcome payment_id auth_result.outcome auth_result.psp_reference
    let response : PaymentResponse = to_response payment
    complete env request.merchant_id idempotency_key payment.id 201 (payment_body response)
    pure response)

  unfoldable pub authorize_and_finish :
      PaymentProvider → String → CreatePaymentRequest → Uuid → Opened → Action (ℕ × PaymentResponse)
  authorize_and_finish psp idempotency_key request payment_id (replayed code response) =
      pure (code, response)
  authorize_and_finish psp idempotency_key request payment_id (held payment) = do
    answer ← external (λ n. psp.authorize n payment)
    auth_result ← lift answer
    response ← finish_payment idempotency_key request payment_id auth_result
    pure (201, response)

  -- The call of the provider stands between the two transactions.
  unfoldable pub create :
      Bool → PaymentProvider → String → CreatePaymentRequest → Action (ℕ × PaymentResponse)
  create lock psp idempotency_key request = do
    payment_id ← external env.uuid4
    opened ← open_payment lock idempotency_key request payment_id
    authorize_and_finish psp idempotency_key request payment_id opened

  -- `POST /v1/payments`: the body is validated before the handler runs.
  unfoldable pub create_payment :
      Bool → PaymentProvider → String → CreatePaymentRequest → Action (ℕ × PaymentResponse)
  create_payment lock psp idempotency_key request = do
    raise_if (not (is_valid_payment request)) request_validation_error
    create lock psp idempotency_key request
