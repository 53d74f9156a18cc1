-- ===== src/Refunds.antt =====
-- app/application/refund_service.py: `RefundService`, and the handler of app/api/refunds.py.
pub mod Guards
pub mod Effects
pub mod Outcome
pub mod Replay
pub mod Idempotent
pub mod Bounds
use apex_payments_engine.Prelude.{
  ◌+◌, ℕ, String, Bool, not, Option, none, some, List, [], ◌∷◌, ◌++◌, if◌then◌else◌,
}
use apex_payments_engine.Prelude.Int.{ℤ, ◌+ℤ◌, ◌-ℤ◌, ltb_ℤ, eq_ℤ}
use apex_payments_engine.Domain.Enums.{
  debit, credit, TransactionType, PaymentStatus, RefundStatus, is_refundable, refund_status_value,
}
use apex_payments_engine.Domain.Exceptions.{
  Uuid, Time, domain, refund_not_allowed, payment_status, exceeds_capturable, validation_error,
  request_validation_error,
}
use apex_payments_engine.Schemas.{
  RefundRequest, is_valid_refund, RefundResponse, ResponseBody, empty_body, payment_body,
  refund_body,
}
use apex_payments_engine.Domain.Models.{Payment, Refund, EventPayload, Database}
use apex_payments_engine.Session.{
  Environment, refund_request, Result, ok, err, Action, pure, lift, external, ◌>>=◌, ◌>>◌, raise_if,
  update, transaction,
}
use apex_payments_engine.Ledger.{Posting, post}
use apex_payments_engine.Idempotency.{claim_or_replay, complete}
use apex_payments_engine.Saga.{set_payment, load_payment, emit}

-- `RefundResponse(**body)`
unfoldable pub parse_refund : ResponseBody → Result RefundResponse
parse_refund empty_body = err validation_error
parse_refund (payment_body response) = err validation_error
parse_refund (refund_body response) = ok response

abbrev pub add_refund : Refund → Database → Database
add_refund r d = record d { refunds = d.refunds ++ r ∷ [] }

-- The payment after a refund of `amount`; it is REFUNDED when nothing is left.
abbrev pub refunded : ℤ → Time → Payment → Payment
refunded amount t payment = record payment {
  refunded_amount = payment.refunded_amount +ℤ amount;
  status =
      if eq_ℤ (payment.refunded_amount +ℤ amount) payment.amount
      then PaymentStatus.refunded
      else payment.status;
  version = payment.version + 1;
  updated_at = t;
}

abbrev pub refund_postings : Payment → ℤ → List Posting
refund_postings payment amount =
    record { account_id = payment.payee_account; direction = debit; amount = amount }
    ∷ record { account_id = payment.payer_account; direction = credit; amount = amount }
    ∷ []

abbrev pub refund_row : Uuid → Uuid → ℤ → Time → Refund
refund_row refund_id payment_id amount t = record {
  id = refund_id;
  payment_id = payment_id;
  amount = amount;
  status = RefundStatus.succeeded;
  created_at = t;
}

abbrev pub refund_payload : Refund → EventPayload
refund_payload r = record {
  payment_id = r.payment_id;
  refund_id = some r.id;
  merchant_id = none;
  amount = r.amount;
  currency = none;
  status = refund_status_value r.status;
  psp_reference = none;
}

abbrev pub refund_response : Refund → RefundResponse
refund_response r = record {
  id = r.id;
  payment_id = r.payment_id;
  amount = r.amount;
  status = r.status;
  created_at = r.created_at;
}

module _ (env : Environment) where
  unfoldable pub check_refundable : Payment → ℤ → Action Unit
  check_refundable payment amount = do
    raise_if (not (is_refundable payment.status))
        (domain (refund_not_allowed (payment_status payment.status)))
    raise_if (ltb_ℤ payment.amount (payment.refunded_amount +ℤ amount)) (
        domain (
          refund_not_allowed
            (exceeds_capturable amount (payment.amount -ℤ payment.refunded_amount))))

  -- The refund's row and the payment's new amounts, not yet flushed.
  unfoldable pub record_refund : Payment → ℤ → Action Refund
  record_refund payment amount = do
    refund_id ← external env.uuid4
    t ← external env.now
    let r : Refund = refund_row refund_id payment.id amount t
    update (add_refund r)
    t' ← external env.now
    update (set_payment payment.id (refunded amount t'))
    pure r

  unfoldable pub post_refund : String → Payment → ℤ → Refund → Action (ℕ × RefundResponse)
  post_refund idempotency_key payment amount r = do
    post env TransactionType.refund r.id (refund_postings payment amount)
    emit env "refund" r.id "refund.completed" (refund_payload r)
    complete env "merchant_refund" idempotency_key r.id 201 (refund_body (refund_response r))
    pure (201, refund_response r)

  unfoldable pub refund_payment : String → Uuid → ℤ → Action (ℕ × RefundResponse)
  refund_payment idempotency_key payment_id amount = do
    payment ← load_payment env payment_id
    check_refundable payment amount
    r ← record_refund payment amount
    post_refund idempotency_key payment amount r

  unfoldable pub replay_or_refund :
      String → Uuid → ℤ → Option (ℕ × ResponseBody) → Action (ℕ × RefundResponse)
  replay_or_refund idempotency_key payment_id amount (some (code, body)) = do
    response ← lift (parse_refund body)
    pure (code, response)
  replay_or_refund idempotency_key payment_id amount none =
      refund_payment idempotency_key payment_id amount

  unfoldable pub refund : Bool → String → Uuid → ℤ → Action (ℕ × RefundResponse)
  refund lock idempotency_key payment_id amount = do
    replay ←
        claim_or_replay env lock "merchant_refund" idempotency_key
          (refund_request payment_id amount)
    replay_or_refund idempotency_key payment_id amount replay

  -- `POST /v1/payments/{payment_id}/refunds`
  unfoldable pub process_refund : Bool → String → Uuid → RefundRequest → Action (ℕ × RefundResponse)
  process_refund lock idempotency_key payment_id request = do
    raise_if (not (is_valid_refund request)) request_validation_error
    transaction env (refund lock idempotency_key payment_id request.amount)
