-- ===== src/Http/Refusals.antt =====
-- What a refund that asks for too much gets, and what becomes of its idempotency key.
use Prim.Native.String.{◌++◌}
use apex_payments_engine.Prelude.{ℕ, ◌≡◌, refl, ap, ◌∙◌, String, Bool, true, none, some}
use apex_payments_engine.Prelude.Int.{◌+ℤ◌, ◌-ℤ◌, ◌<ℤ◌}
use apex_payments_engine.Domain.Enums.{is_refundable}
use apex_payments_engine.Domain.Exceptions.{
  Uuid, Error, domain, refund_not_allowed, exceeds_capturable,
}
use apex_payments_engine.Domain.Models.{Payment}
use apex_payments_engine.Schemas.{RefundRequest, is_valid_refund}
use apex_payments_engine.Session.{
  AcceptsAll, Environment, RequestPayload, refund_request, World, ok, err, ◌>>=◌,
}
use apex_payments_engine.Session.Transactions.{transaction-raises}
use apex_payments_engine.Idempotency.{record_of, claim_or_replay}
use apex_payments_engine.Idempotency.Claims.{claim-fresh, claim_fresh-returns}
use apex_payments_engine.Saga.{payment_row}
use apex_payments_engine.Refunds.{refund, replay_or_refund, process_refund}
use apex_payments_engine.Refunds.Guards.{over_refund_refused}
use apex_payments_engine.Http.{
  domain_error, str_ℤ, refusal_message, class_name, message, domain_exception_handler,
  error_response, respond, post_refunds,
}

module _ (env : Environment) (accepts : AcceptsAll env) (key : String) (id : Uuid)
    (request : RefundRequest) (row : Payment) where
  abbrev refused : Error
  refused =
      domain
        (refund_not_allowed (exceeds_capturable request.amount (row.amount -ℤ row.refunded_amount)))

  refund_raises :
      (lock : Bool) (w : World)
      → record_of "merchant_refund" key w.db ≡ none
      → payment_row id w.db ≡ some row
      → is_refundable row.status ≡ true
      → row.amount <ℤ row.refunded_amount +ℤ request.amount
      → (u : World) × (refund env lock key id request.amount w ≡ (err refused, u))
  unfolding refund replay_or_refund ◌>>=◌
  refund_raises lock w missing found refundable more =
      let (u, claimed) =
        claim_fresh-returns env accepts lock "merchant_refund" key
          (refund_request id request.amount) w missing in
      let (r, fresh, added, m, k, hash, status) =
        claim-fresh env lock "merchant_refund" key (refund_request id request.amount) w u none
          missing claimed in
      (
        u,
        rw claimed (
            over_refund_refused env key id request.amount u row (ap (payment_row id) added ∙ found)
              refundable more),
      )

  request_raises :
      (lock : Bool) (w : World)
      → record_of "merchant_refund" key w.db ≡ none
      → is_valid_refund request ≡ true
      → payment_row id w.db ≡ some row
      → is_refundable row.status ≡ true
      → row.amount <ℤ row.refunded_amount +ℤ request.amount
      → (u : World) × (process_refund env lock key id request w
          ≡ (err refused, record u { db = w.db }))
  unfolding process_refund ◌>>=◌
  request_raises lock w missing valid found refundable more =
      let (u, raised) = refund_raises lock w missing found refundable more in
      (
        u,
        rw valid
            (transaction-raises env (refund env lock key id request.amount) w u refused raised),
      )

  -- A valid refund request under a key that has no row, for more than is left of a payment that may
  -- be refunded, is answered with the status 422, the message with the amount and what is left, and
  -- the class of the exception, and changes no table, if the database takes every write. The answer
  -- is not stored: any later claim of the key, with whatever payload, is a first claim and replays
  -- nothing.
  pub over_refund_not_stored :
      (starlette : Error → ℕ) (lock : Bool) (w : World)
      → record_of "merchant_refund" key w.db ≡ none
      → is_valid_refund request ≡ true
      → payment_row id w.db ≡ some row
      → is_refundable row.status ≡ true
      → row.amount <ℤ row.refunded_amount +ℤ request.amount
      → (w' : World) × (post_refunds env starlette lock key id request w ≡ (
        domain_error 422
            ("Refund amount "
              ++ str_ℤ request.amount
              ++ " exceeds capturable balance ("
              ++ str_ℤ (row.amount -ℤ row.refunded_amount)
              ++ ")")
            "RefundNotAllowedException",
        w',
      ))
        × (w'.db ≡ w.db)
        × ((lock' : Bool) (payload : RequestPayload)
            → (claim_or_replay env lock' "merchant_refund" key payload w').0 ≡ ok none)
  unfolding post_refunds respond error_response domain_exception_handler message refusal_message
      class_name
  over_refund_not_stored starlette lock w missing valid found refundable more =
      let (u, raised) = request_raises lock w missing valid found refundable more in
      (
        record u { db = w.db },
        rw raised refl,
        refl,
        λ lock' payload.
            ap (λ r. r.0)
              (claim_fresh-returns env accepts lock' "merchant_refund" key payload
                (record u { db = w.db }) missing).1,
      )
