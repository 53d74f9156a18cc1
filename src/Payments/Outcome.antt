-- ===== src/Payments/Outcome.antt =====
-- What `PaymentService.create` answers and does for each outcome of the provider, from the claim of a
-- new key to the end of its second transaction.
use apex_payments_engine.Prelude.{ℕ, suc, ◌≡◌, sym, ap, ◌∙◌, String, Bool, none, some}
use apex_payments_engine.Prelude.Int.{ℤ, ◌+ℤ◌, int_laws}
use apex_payments_engine.Domain.Exceptions.{Uuid, Time}
use apex_payments_engine.Domain.Models.{Payment, Database}
use apex_payments_engine.Schemas.{CreatePaymentRequest, PaymentResponse}
use apex_payments_engine.Session.{Environment, World, ok, lift, pure, ◌>>=◌}
use apex_payments_engine.Session.Ensures.{>>=-eq-ok, lift-eq-ok, pure-eq-ok}
use apex_payments_engine.Idempotency.{record_of}
use apex_payments_engine.Psp.{AuthorizationResult, PaymentProvider}
use apex_payments_engine.Ledger.Postings.{balance_of}
use apex_payments_engine.Ledger.Balances.{movement}
use apex_payments_engine.Saga.{payment_row, hold_postings}
use apex_payments_engine.Saga.Compensation.{IsSamePayment}
use apex_payments_engine.Payments.{
  held, new_payment, open_payment, finish_payment, authorize_and_finish, create,
}
use apex_payments_engine.Payments.Steps.{
  status_after, moved_by, postings_after, finish_lem, net_lem, open_lem,
}

-- What a call of `create` with a new key has done when it returns: the provider was asked about a
-- payment with the parties and the amount of the request, the code is 201, and the status and the balances are those of its answer.
pub record IsCreated (psp : PaymentProvider) (request : CreatePaymentRequest) (code : ℕ)
    (response : PaymentResponse) (d e : Database) : Type 0 where
  pub n : ℕ
  pub payment : Payment
  pub payer_account : payment.payer_account ≡ request.payer_account_id
  pub payee_account : payment.payee_account ≡ request.payee_account_id
  pub amount : payment.amount ≡ request.amount
  pub auth_result : AuthorizationResult
  pub answered : psp.authorize n payment ≡ ok auth_result
  pub code_lem : code ≡ 201
  pub status : response.status ≡ status_after auth_result.outcome
  pub balances :
      (b : Uuid) → balance_of b e ≡ balance_of b d +ℤ moved_by auth_result.outcome request b

two_moves : (x y z m n k : ℤ) → z ≡ y +ℤ n → y ≡ x +ℤ m → m +ℤ n ≡ k → z ≡ x +ℤ k
two_moves x y z m n k p q r = rw (p, q, ← r) (omega int_laws)

module _ (env : Environment) (key : String) (request : CreatePaymentRequest) where
  finished_lem :
      (psp : PaymentProvider) (id : Uuid) (t : Time) (p : Payment) (code : ℕ)
      (response : PaymentResponse) (d : Database) (u w' : World)
      → payment_row id u.db ≡ some p
      → IsSamePayment (new_payment id request t) p
      → ((b : Uuid)
          → balance_of b u.db
            ≡ balance_of b d +ℤ movement b (hold_postings (new_payment id request t)))
      → authorize_and_finish env psp key request id (held p) u ≡ (ok (code, response), w')
      → IsCreated psp request code response d w'.db
  unfolding authorize_and_finish ◌>>=◌
  finished_lem psp id t p code response d u w' row same before h =
      let start : World = record { db = u.db; calls = suc u.calls } in
      let last = λ (x : PaymentResponse). pure {A = ℕ × PaymentResponse} (201, x) in
      let finish = λ (x : AuthorizationResult). finish_payment env key request id x in
      let rest = λ (x : AuthorizationResult). finish x >>= last in
      let answer = lift (psp.authorize u.calls p) in
      let (auth_result, v, e, e') = >>=-eq-ok answer rest start w' h in
      let lifted = lift-eq-ok (psp.authorize u.calls p) auth_result start v e in
      let kept : u.db ≡ v.db = ap (λ (y : World). y.db) lifted.1 in
      let (r, x, f, f') = >>=-eq-ok (finish auth_result) last v w' e' in
      let end = pure-eq-ok (201, r) (code, response) x w' f' in
      let (status, after) =
        finish_lem env key request id auth_result r p v x (ap (payment_row id) (sym kept) ∙ row)
          f in
      record {
        n = u.calls;
        payment = p;
        payer_account = same.payer_account;
        payee_account = same.payee_account;
        amount = same.amount;
        auth_result = auth_result;
        answered = lifted.0;
        code_lem = ap (λ (y : ℕ × PaymentResponse). y.0) (sym end.0);
        status = ap (λ (y : ℕ × PaymentResponse). y.1.status) (sym end.0) ∙ status;
        balances = λ b.
            two_moves (balance_of b d) (balance_of b v.db) (balance_of b w'.db)
              (movement b (hold_postings (new_payment id request t)))
              (movement b (postings_after auth_result.outcome p))
              (moved_by auth_result.outcome request b)
              (ap (λ (y : World). balance_of b y.db) (sym end.1) ∙ after b)
              (ap (balance_of b) (sym kept) ∙ before b)
              (net_lem env key request id auth_result.outcome t p b same);
      }

  -- If a key is new, no payment has the id that is drawn, and `create` returns, it has asked the
  -- provider, and answers 201 with the status of the outcome: SUCCEEDED with the amount transferred
  -- from the payer to the payee if it was captured, FAILED with every balance as before if it was
  -- declined, and AUTHORIZED with the amount moved to the suspense account if it is pending.
  pub create-IsCreated :
      (lock : Bool) (psp : PaymentProvider) (code : ℕ) (response : PaymentResponse) (w w' : World)
      → record_of request.merchant_id key w.db ≡ none
      → payment_row (env.uuid4 w.calls) w.db ≡ none
      → create env lock psp key request w ≡ (ok (code, response), w')
      → IsCreated psp request code response w.db w'.db
  unfolding create ◌>>=◌
  create-IsCreated lock psp code response w w' missing fresh h =
      let id = env.uuid4 w.calls in
      let start : World = record { db = w.db; calls = suc w.calls } in
      let (o, u, e, e') =
        >>=-eq-ok (open_payment env lock key request id)
          (authorize_and_finish env psp key request id) start w' h in
      let (p, t, o_held, row, same, before) =
        open_lem env key request id lock o start u missing fresh e in
      finished_lem psp id t p code response w.db u w' row same before (rw o_held at e')
