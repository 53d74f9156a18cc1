-- ===== src/Tests/Refunds.antt =====
-- The theorems on refunds at a concrete settled payment.
use apex_payments_engine.Prelude.{ℕ, ◌≡◌, refl, some, [], ◌∷◌, arith, All, true, false}
use apex_payments_engine.Prelude.Int.{pos, ◌+ℤ◌, ◌<ℤ◌}
use apex_payments_engine.Domain.Enums.{PaymentStatus}
use apex_payments_engine.Domain.Models.{Payment, Refund}
use apex_payments_engine.Schemas.{RefundRequest, RefundResponse}
use apex_payments_engine.Session.{World, ok}
use apex_payments_engine.Saga.{payment_row, add_payment}
use apex_payments_engine.Payments.{new_payment}
use apex_payments_engine.Refunds.{refund_row, refund_response, refund_payment, process_refund}
use apex_payments_engine.Refunds.Outcome.{IsPaidOut, refund-IsPaidOut}
use apex_payments_engine.Refunds.Bounds.{IsBounded, refund-IsBounded}
use apex_payments_engine.Refunds.Idempotent.{refund_twice}
use apex_payments_engine.Tests.World.{
  env, env_accepts, payer, payee, balance_at, tables, request, program,
}

abbrev payment_in : PaymentStatus → Payment
payment_in status = record (new_payment 500 request 0) { status = status }

-- The payee holds what the payment of 5000 brought.
abbrev world_with : PaymentStatus → World
world_with status = record {
  db = record (add_payment (payment_in status) tables) {
    balances = balance_at payer 95000 ∷ balance_at payee 5000 ∷ [];
  };
  calls = 0;
}

abbrev start : World
start = world_with PaymentStatus.succeeded

abbrev refunded_world : World
refunded_world = (refund_payment env "key" 500 (pos 2000) start).1

abbrev receipt : Refund
receipt = refund_row 1000 500 (pos 2000) 1

abbrev reply : ℕ × RefundResponse
reply = (201, refund_response receipt)

refunded_ok :
    refund_payment env "key" 500 (pos 2000) start
    ≡ (ok (201, refund_response receipt), refunded_world)
unfolding program
refunded_ok = refl

refund-IsPaidOut_example :
    (row : Payment) × (r : Refund) × (payment_row 500 start.db ≡ some row)
    × (reply ≡ (201, refund_response r))
    × IsPaidOut row (pos 2000) r start.db refunded_world.db
refund-IsPaidOut_example =
    refund-IsPaidOut env "key" 500 (pos 2000) reply start refunded_world refunded_ok

start_IsBounded : All IsBounded start.payments
start_IsBounded = ((omega arith, omega arith), tt)

refund-IsBounded_example : All IsBounded refunded_world.payments
refund-IsBounded_example =
    refund-IsBounded env "key" 500 (pos 2000) reply start refunded_world start_IsBounded refunded_ok

more_than_left :
    (payment_in PaymentStatus.succeeded).amount
    <ℤ (payment_in PaymentStatus.succeeded).refunded_amount +ℤ pos 6000
unfolding ◌+ℤ◌
more_than_left = omega arith

abbrev asked : RefundRequest
asked = record { amount = pos 2000 }

abbrev processed : World
processed = (process_refund env true "key" 500 asked start).1

abbrev processed_reply : ℕ × RefundResponse
processed_reply = (201, refund_response (refund_row 1003 500 (pos 2000) 4))

processed_ok : process_refund env true "key" 500 asked start ≡ (ok processed_reply, processed)
unfolding program
processed_ok = refl

refund_twice_example :
    (w : World) × (process_refund env false "key" 500 asked processed ≡ (ok processed_reply, w))
    × (w.db ≡ processed.db)
refund_twice_example =
    refund_twice env "key" 500 asked true false processed_reply start processed env_accepts
      processed_ok
