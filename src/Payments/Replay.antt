-- ===== src/Payments/Replay.antt =====
-- `create` is idempotent: once it has returned for a key, a call with the same key and request
-- returns the same answer and changes nothing.
use apex_payments_engine.Prelude.{ℕ, suc, ◌≡◌, refl, ◌∙◌, String, Bool, some, str_eq_refl}
use apex_payments_engine.Domain.Enums.{in_progress, completed}
use apex_payments_engine.Domain.Exceptions.{Uuid}
use apex_payments_engine.Schemas.{CreatePaymentRequest, PaymentResponse, payment_body}
use apex_payments_engine.Domain.Models.{IdempotencyRecord, Database}
use apex_payments_engine.Session.{
  AcceptsAll, Environment, World, payment_request, ok, Action, ◌>>=◌,
}
use apex_payments_engine.Session.Transactions.{transaction-returns}
use apex_payments_engine.Idempotency.{
  record_of, compute_hash, code_or_200, body_or_empty, claim_or_replay,
}
use apex_payments_engine.Idempotency.Claims.{claim-existing}
use apex_payments_engine.Psp.{PaymentProvider}
use apex_payments_engine.Payments.{
  Opened, replayed, parse_payment, replay_or_hold, open_payment, authorize_and_finish, create,
}

module _ (env : Environment) (key : String) (request : CreatePaymentRequest) where
  -- The key of the request has a completed row that replays `code` and `response`.
  pub record IsReplayable (code : ℕ) (response : PaymentResponse) (d : Database) : Type 0 where
    pub row : IdempotencyRecord
    pub found : record_of request.merchant_id key d ≡ some row
    pub hash : row.request_hash ≡ compute_hash env (payment_request request)
    pub done : row.status ≡ completed
    pub code_lem : code_or_200 row.response_code ≡ code
    pub body : body_or_empty row.response_body ≡ payment_body response

  -- The key has a row of this request in progress.
  pub record IsClaimed (d : Database) : Type 0 where
    pub row : IdempotencyRecord
    pub found : record_of request.merchant_id key d ≡ some row
    pub hash : row.request_hash ≡ compute_hash env (payment_request request)
    pub status : row.status ≡ in_progress

  abbrev pub opening : Bool → Uuid → Action Opened
  opening lock id =
      claim_or_replay env lock request.merchant_id key (payment_request request)
      >>= replay_or_hold env id request

  opening_replays :
      (lock : Bool) (id : Uuid) (code : ℕ) (response : PaymentResponse) (w : World)
      → IsReplayable code response w.db
      → (u : World) × (opening lock id w ≡ (ok (replayed code response), u)) × (u.db ≡ w.db)
  unfolding replay_or_hold parse_payment ◌>>=◌
  opening_replays lock id code response w h =
      let m = request.merchant_id in
      let (c, same) = claim-existing env lock m key (payment_request request) w h.row h.found in
      let e : (claim_or_replay env lock m key (payment_request request) w).0
          ≡ ok (some (code, payment_body response)) =
        c ∙ rw (h.hash, str_eq_refl, h.done, h.code_lem, h.body) refl in
      let u = (claim_or_replay env lock m key (payment_request request) w).1 in (u, rw e refl, same)

  -- A call for a key that has a completed row of the same request returns what the row holds.
  pub create-replays :
      (lock : Bool) (psp : PaymentProvider) (code : ℕ) (response : PaymentResponse) (w : World)
      → AcceptsAll env
      → IsReplayable code response w.db
      → (w' : World) × (create env lock psp key request w ≡ (ok (code, response), w'))
        × (w'.db ≡ w.db)
  unfolding create open_payment authorize_and_finish ◌>>=◌
  create-replays lock psp code response w accepts h =
      let id = env.uuid4 w.calls in
      let v : World = record { db = w.db; calls = suc w.calls } in
      let (u, e, same) = opening_replays lock id code response v h in
      (
        record { db = u.db; calls = suc u.calls },
        rw (transaction-returns env (opening lock id) v u (replayed code response) accepts e) refl,
        same,
      )
