-- ===== src/Tests/Http.antt =====
-- Requests that are answered with an error, and the theorems about them at these requests.
use apex_payments_engine.Prelude.{ℕ, ◌≡◌, ◌⊎◌, refl, true, Bool, none, [], ◌∷◌, arith}
use Prim.Native.String.{◌++◌}
use apex_payments_engine.Domain.Enums.{PaymentStatus}
use apex_payments_engine.Payments.{new_payment}
use apex_payments_engine.Idempotency.{record_of, claim_or_replay}
use apex_payments_engine.Prelude.Int.{pos, negsuc, ◌+ℤ◌, ◌-ℤ◌, ◌<ℤ◌}
use apex_payments_engine.Domain.Exceptions.{Error, gateway_error}
use apex_payments_engine.Schemas.{CreatePaymentRequest, RefundRequest, is_valid_refund}
use apex_payments_engine.Session.{err, ok, World, RequestPayload}
use apex_payments_engine.Psp.{PaymentProvider, mock_psp_client}
use apex_payments_engine.Http.{
  domain_error, validation_failed, is_error, decimal, str_ℕ, str_ℤ, refusal_message, class_name,
  message, domain_exception_handler, validation_exception_handler, error_response, respond,
  respond_with, post_payments, post_refunds, post_webhooks, get_payments,
}
use apex_payments_engine.Http.Refusals.{over_refund_not_stored}
use apex_payments_engine.Http.PaymentErrors.{IsLeftHeld, payment_error_leaves}
use apex_payments_engine.Tests.World.{env, env_accepts, world, request, program}

abbrev starlette : Error → ℕ
starlette e = 500

unfoldable service : Unit {0}
unfolding decimal str_ℕ str_ℤ refusal_message class_name message domain_exception_handler
    validation_exception_handler error_response respond respond_with post_payments get_payments
    post_refunds post_webhooks
service = tt

numbers : (str_ℤ (negsuc 1204) ≡ "-1205") × (str_ℤ (pos 0) ≡ "0")
unfolding service
numbers = (refl, refl)

abbrev too_much : CreatePaymentRequest
too_much = record request { amount = pos 200000 }

overdrawn :
    (post_payments env starlette true (mock_psp_client env) "key" too_much world).0
    ≡ domain_error 422 "Insufficient funds for account 0123: balance=100000, required=200000"
        "InsufficientFundsException"
unfolding service program
overdrawn = refl

not_positive :
    (post_payments env starlette true
      (mock_psp_client env)
      "key"
      (record request { amount = negsuc 0 })
      world).0
    ≡ validation_failed 422 "Request validation failed"
unfolding service program
not_positive = refl

missing_payment :
    (get_payments env starlette 7 world).0
    ≡ domain_error 404 "Payment not found: 0123" "PaymentNotFoundException"
unfolding service program
missing_payment = refl

-- A payment of 5000, and a refund of 6000.
abbrev paid : World
paid = record {
  db = record world.db {
    payments = record (new_payment 500 request 0) { status = PaymentStatus.succeeded } ∷ [];
  };
  calls = 0;
}

abbrev above : RefundRequest
above = record { amount = pos 6000 }

above_more : pos 5000 <ℤ pos 0 +ℤ pos 6000
unfolding ◌+ℤ◌
above_more = omega arith

key_free : record_of "merchant_refund" "key" paid.db ≡ none
unfolding program
key_free = refl

above_valid : is_valid_refund above ≡ true
unfolding program
above_valid = refl

over_refund_not_stored_example :
    (w' : World) × (post_refunds env starlette true "key" 500 above paid ≡ (
      domain_error 422
          ("Refund amount "
            ++ str_ℤ (pos 6000)
            ++ " exceeds capturable balance ("
            ++ str_ℤ (pos 5000 -ℤ pos 0)
            ++ ")")
          "RefundNotAllowedException",
      w',
    ))
    × (w'.db ≡ paid.db)
    × ((lock' : Bool) (payload : RequestPayload)
        → (claim_or_replay env lock' "merchant_refund" "key" payload w').0 ≡ ok none)
over_refund_not_stored_example =
    over_refund_not_stored env env_accepts "key" 500 above
      (record (new_payment 500 request 0) { status = PaymentStatus.succeeded }) starlette true paid
      key_free above_valid refl refl above_more

-- A provider whose gateway fails.
abbrev failing : PaymentProvider
failing = record { authorize = λ n p. err (gateway_error "timeout") }

answered_500 : is_error (post_payments env starlette true failing "key" request world).0 ≡ true
unfolding service program
answered_500 = refl

payment_error_leaves_example :
    ((post_payments env starlette true failing "key" request world).1.db ≡ world.db)
    ⊎ IsLeftHeld env true "key" request world
        (post_payments env starlette true failing "key" request world).1.db
payment_error_leaves_example =
    payment_error_leaves env true failing "key" request world starlette answered_500
