-- ===== src/Refunds/Guards.antt =====
-- The guards of `RefundService.refund`, for a key that the call has claimed.
use apex_payments_engine.Prelude.{◌≡◌, String, true, false, some, arith}
use apex_payments_engine.Prelude.Int.{ℤ, ◌+ℤ◌, ◌-ℤ◌, ◌<ℤ◌}
use apex_payments_engine.Domain.Enums.{is_refundable}
use apex_payments_engine.Domain.Exceptions.{
  Uuid, domain, refund_not_allowed, payment_status, exceeds_capturable,
}
use apex_payments_engine.Domain.Models.{Payment}
use apex_payments_engine.Session.{Environment, World, err, ◌>>=◌}
use apex_payments_engine.Saga.{payment_row, load_payment}
use apex_payments_engine.Refunds.{check_refundable, refund_payment}

module _ (env : Environment) (key : String) (id : Uuid) (amount : ℤ) (w : World) where
  -- A payment that is neither SUCCEEDED nor REFUND_PENDING is not refunded: the exception names its
  -- status, and no table changes.
  refund_status_refused :
      (row : Payment)
      → payment_row id w.db ≡ some row
      → is_refundable row.status ≡ false
      → refund_payment env key id amount w
        ≡ (err (domain (refund_not_allowed (payment_status row.status))), w)
  unfolding refund_payment check_refundable load_payment ◌>>=◌
  refund_status_refused row found refundable = ground arith

  -- A refund of more than is left of a payment is refused: the exception has the amount and what is
  -- left, and no table changes.
  pub over_refund_refused :
      (row : Payment)
      → payment_row id w.db ≡ some row
      → is_refundable row.status ≡ true
      → row.amount <ℤ row.refunded_amount +ℤ amount
      → refund_payment env key id amount w ≡ (
        err (
            domain
              (refund_not_allowed (exceeds_capturable amount (row.amount -ℤ row.refunded_amount)))),
        w,
      )
  unfolding refund_payment check_refundable load_payment ◌>>=◌
  over_refund_refused row found refundable more = ground arith
