-- ===== src/System/Answers.antt =====
-- Whatever the provider answers, the second transaction of `create` can commit.
use apex_payments_engine.Prelude.{
  ℕ, suc, ◌≡◌, ◌∙◌, String, Option, some, arith, inl, inr, Option-cases,
}
use apex_payments_engine.Prelude.Int.{ℤ, pos, ◌<ℤ◌, ◌≤ℤ◌}
use apex_payments_engine.Prelude.Table.{find}
use apex_payments_engine.Domain.Enums.{AuthorizationOutcome, captured, pending, declined}
use apex_payments_engine.Domain.Exceptions.{Uuid}
use apex_payments_engine.Domain.Models.{Payment}
use apex_payments_engine.Schemas.{CreatePaymentRequest, PaymentResponse, ResponseBody, payment_body}
use apex_payments_engine.Session.{AcceptsAll, Environment, World, ok, pure, ◌>>=◌, ◌>>◌}
use apex_payments_engine.Session.Transactions.{transaction-returns}
use apex_payments_engine.Idempotency.{record_of, complete_found, complete}
use apex_payments_engine.Psp.{AuthorizationResult}
use apex_payments_engine.Ledger.Postings.{balance_of}
use apex_payments_engine.Ledger.Success.{>>=-returns, pure-returns}
use apex_payments_engine.Saga.{payment_row, psp_suspense_account_id}
use apex_payments_engine.Saga.Progress.{settle-returns, reverse-returns}
use apex_payments_engine.Payments.{
  authorized, mark_authorized, apply_outcome, finish_payment, reference_or_empty, to_response,
}
use apex_payments_engine.System.{Flight, flight_key, System, called}
use apex_payments_engine.System.Invariant.{IsConsistent}
use apex_payments_engine.System.Safety.{flight_is_covered}

module _ (env : Environment) (accepts : AcceptsAll env) where
  complete-returns :
      (m k : String) (id : Uuid) (code : ℕ) (body : ResponseBody) (w : World)
      → (w' : World) × (complete env m k id code body w ≡ (ok tt, w'))
  unfolding complete complete_found ◌>>=◌
  complete-returns m k id code body w =
      let u = (complete env m k id code body w).1 in
      elim (Option-cases (record_of m k w.db)) [
        | inl missing ↦ (u, ground (arith, missing))
        | inr (r, found) ↦ (u, ground (arith, found, accepts u.calls u.db, accepts w.calls u.db))
      ]

  module _ (id : Uuid) (row : Payment) (w : World) (found : payment_row id w.db ≡ some row)
      (positive : pos 0 <ℤ row.amount)
      (funded : row.amount ≤ℤ balance_of psp_suspense_account_id w.db) where
    apply_outcome-returns :
        (outcome : AuthorizationOutcome) (ref : Option String)
        → (p : Payment) × (w' : World) × (apply_outcome env id outcome ref w ≡ (ok p, w'))
    unfolding apply_outcome mark_authorized ◌>>=◌
    apply_outcome-returns captured ref =
        settle-returns env accepts id row w found positive funded (reference_or_empty ref)
    apply_outcome-returns declined ref = reverse-returns env accepts id row w found positive funded
    apply_outcome-returns pending ref =
        let u = (apply_outcome env id pending ref w).1 in
        (authorized ref (env.now w.calls) row, u, ground (arith, found))

    pub finish_payment-returns :
        (key : String) (request : CreatePaymentRequest) (auth_result : AuthorizationResult)
        → (response : PaymentResponse) × (w' : World) × (finish_payment env key request id
              auth_result w
            ≡ (ok response, w'))
    unfolding finish_payment
    finish_payment-returns key request auth_result =
        let (p, u, e) = apply_outcome-returns auth_result.outcome auth_result.psp_reference in
        let (v, f) =
          complete-returns request.merchant_id key p.id 201 (payment_body (to_response p)) u in
        let r = to_response p in
        let last = λ (q : Payment).
          (complete env request.merchant_id key q.id 201 (payment_body (to_response q))
            >> pure (to_response q)) in
        let first = apply_outcome env id auth_result.outcome auth_result.psp_reference in
        let returned : (first >>= last) w ≡ (ok r, v) =
          >>=-returns first last w u p e
          ∙ >>=-returns (complete env request.merchant_id key p.id 201 (payment_body r))
              (λ _. pure r) u v tt f
          ∙ pure-returns r v in
        (
          r,
          record v { calls = suc v.calls },
          transaction-returns env (first >>= last) w v r accepts returned,
        )

-- In a consistent state whose suspense account has no less than what it holds, and if the database
-- takes every write, the second transaction of a call that waits returns, whatever the provider
-- answers.
pub answer-returns :
    (env : Environment) (x : ℤ) (s : System) (id : Uuid) (f : Flight)
    (auth_result : AuthorizationResult)
    → AcceptsAll env
    → pos 0 ≤ℤ x
    → IsConsistent x s
    → find flight_key id s.flights ≡ some f
    → (response : PaymentResponse) × (w' : World) × (finish_payment env f.key f.request f.id
          auth_result
          (called s.world)
        ≡ (ok response, w'))
answer-returns env x s id f auth_result accepts nonneg c found =
    let (row, there, status, positive, funded) = flight_is_covered x s id f nonneg c found in
    finish_payment-returns env accepts f.id row (called s.world) there positive funded f.key
      f.request auth_result
