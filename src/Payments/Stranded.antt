-- ===== src/Payments/Stranded.antt =====
-- A provider that raises: what is left of the payment.
use apex_payments_engine.Prelude.{ℕ, suc, ◌≡◌, refl, ap, ◌∙◌, String, Bool, str_eq_refl}
use apex_payments_engine.Domain.Exceptions.{Error, domain, idempotency_conflict}
use apex_payments_engine.Schemas.{CreatePaymentRequest, PaymentResponse}
use apex_payments_engine.Domain.Models.{Payment}
use apex_payments_engine.Session.{
  Environment, World, Result, payment_request, ok, err, ◌>>=◌, transaction,
}
use apex_payments_engine.Session.Transactions.{transaction-eq-ok}
use apex_payments_engine.Idempotency.{claim_or_replay}
use apex_payments_engine.Idempotency.Claims.{claim-existing}
use apex_payments_engine.Psp.{PaymentProvider}
use apex_payments_engine.Payments.{held, replay_or_hold, open_payment, authorize_and_finish, create}
use apex_payments_engine.Payments.Replay.{IsClaimed, opening}
use apex_payments_engine.Payments.Opening.{OpenedAt-committed, opening-OpenedAt}

module _ (env : Environment) (key : String) (request : CreatePaymentRequest) where
  -- While the key is in progress, a call with it is a conflict.
  claimed_conflict :
      (lock : Bool) (psp : PaymentProvider) (w : World)
      → IsClaimed env key request w.db
      → (create env lock psp key request w).0 ≡ err (domain (idempotency_conflict key))
  unfolding create open_payment transaction replay_or_hold ◌>>=◌
  claimed_conflict lock psp w h =
      let v : World = record { db = w.db; calls = suc w.calls } in
      let (c, same) =
        claim-existing env lock request.merchant_id key (payment_request request) v h.row h.found in
      let e : (claim_or_replay env lock request.merchant_id key (payment_request request) v).0
          ≡ err (domain (idempotency_conflict key)) =
        c ∙ rw (h.hash, str_eq_refl, h.status) refl in
      rw e refl

  module _ (lock : Bool) (psp : PaymentProvider) (w u : World) (p : Payment) (e : Error)
      (opened : open_payment env lock key request
          (env.uuid4 w.calls)
          (record w { calls = suc w.calls })
        ≡ (ok (held p), u))
      (fails : psp.authorize u.calls p ≡ err e) where
    open_claims : IsClaimed env key request u.db
    unfolding open_payment
    open_claims =
        let id = env.uuid4 w.calls in
        let start : World = record { db = w.db; calls = suc w.calls } in
        let body = opening env key request lock id in
        let (v, done, committed) = transaction-eq-ok env body start u (held p) opened in
        OpenedAt-committed env key request (held p) start v u committed
          (opening-OpenedAt env key request lock id (held p) start v done)

    -- If the first transaction of `create` has held a payment and the provider then raises, `create`
    -- raises the same, what the first transaction wrote stays, and every later call with the key
    -- and the request, in the state that is left, is refused as a conflict.
    pub gateway_error_strands :
        (lock' : Bool) (psp' : PaymentProvider)
        → ((create env lock psp key request w).0 ≡ err e)
          × ((create env lock psp key request w).1.db ≡ u.db)
          × ((create env lock' psp' key request (create env lock psp key request w).1).0
              ≡ err (domain (idempotency_conflict key)))
    unfolding create authorize_and_finish ◌>>=◌
    gateway_error_strands lock' psp' =
        let left : World = record { db = u.db; calls = suc u.calls } in
        let after : create env lock psp key request w ≡ (err e, left) = rw (opened, fails) refl in
        (
          ap (λ (o : Result (ℕ × PaymentResponse) × World). o.0) after,
          ap (λ (o : Result (ℕ × PaymentResponse) × World). o.1.db) after,
          rw after (claimed_conflict lock' psp' left open_claims),
        )
