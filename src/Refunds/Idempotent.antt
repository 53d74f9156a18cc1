-- ===== src/Refunds/Idempotent.antt =====
-- A refund is idempotent, as a payment is: once it has returned for a key, a call with the same key,
-- payment and amount returns the same answer and changes nothing.
use apex_payments_engine.Prelude.{
  ℕ, suc, ◌≡◌, inl, inr, true, Bool-cases, refl, sym, ◌∙◌, subst, String, Bool, arith,
}
use apex_payments_engine.Domain.Exceptions.{Uuid}
use apex_payments_engine.Schemas.{RefundRequest, RefundResponse, is_valid_refund}
use apex_payments_engine.Session.{AcceptsAll, Environment, World, ok, ◌>>=◌, transaction}
use apex_payments_engine.Session.Transactions.{transaction-eq-ok, transaction-returns}
use apex_payments_engine.Refunds.{refund, process_refund}
use apex_payments_engine.Refunds.Replay.{IsReplayable, refund-replays, refund-IsReplayable}

module _ (env : Environment) (key : String) (id : Uuid) (request : RefundRequest) where
  -- The transaction of the handler, after its validation.
  process_refund-eq-ok :
      (lock : Bool) (answer : ℕ × RefundResponse) (w w' : World)
      → process_refund env lock key id request w ≡ (ok answer, w')
      → (is_valid_refund request ≡ true)
        × (transaction env (refund env lock key id request.amount) w ≡ (ok answer, w'))
  unfolding process_refund ◌>>=◌
  process_refund-eq-ok lock answer w w' h = elim (Bool-cases (is_valid_refund request)) [
    | inl valid ↦ (valid, ground arith)
    | inr refused ↦ absurd (ground arith)
  ]

  process_refund-valid :
      (lock : Bool) (w : World)
      → is_valid_refund request ≡ true
      → process_refund env lock key id request w
        ≡ transaction env (refund env lock key id request.amount) w
  unfolding process_refund ◌>>=◌
  process_refund-valid lock w valid = rw valid refl

  -- Once a refund request has returned for a key, a second request with the same key, payment and
  -- amount returns the same code and response, with or without the lock, and changes no table, if
  -- the database takes every write.
  pub refund_twice :
      (lock lock' : Bool) (answer : ℕ × RefundResponse) (w w' : World)
      → AcceptsAll env
      → process_refund env lock key id request w ≡ (ok answer, w')
      → (w'' : World) × (process_refund env lock' key id request w' ≡ (ok answer, w''))
        × (w''.db ≡ w'.db)
  refund_twice lock lock' answer w w' accepts h =
      let (valid, done) = process_refund-eq-ok lock answer w w' h in
      let body = refund env lock key id request.amount in
      let (u, returned, committed) = transaction-eq-ok env body w w' answer done in
      let stored : IsReplayable env key id request.amount answer w'.db =
        subst (IsReplayable env key id request.amount answer) (sym committed)
          (refund-IsReplayable env key id request.amount lock answer w u returned) in
      let (v, again, same) = refund-replays env key id request.amount lock' answer w' stored in
      (
        record v { calls = suc v.calls },
        process_refund-valid lock' w' valid
            ∙ transaction-returns env (refund env lock' key id request.amount) w' v answer accepts
                again,
        same,
      )
