-- ===== src/System/Creation.antt =====
-- A call of `PaymentService.create` that has all it needs returns, whatever the provider answers.
use apex_payments_engine.Prelude.{
  ℕ, suc, ◌≡◌, refl, sym, ap, ◌∙◌, subst, String, Bool, false, none, ◌==◌,
}
use apex_payments_engine.Prelude.Int.{ℤ, pos, ◌+ℤ◌, ◌-ℤ◌, ◌<ℤ◌, ◌≤ℤ◌, int_laws}
use apex_payments_engine.Domain.Exceptions.{Uuid, Time}
use apex_payments_engine.Domain.Models.{Payment}
use apex_payments_engine.Schemas.{CreatePaymentRequest, PaymentResponse}
use apex_payments_engine.Session.{
  AcceptsAll, Environment, World, payment_request, ok, ◌>>=◌, pure, external, lift,
}
use apex_payments_engine.Session.Transactions.{transaction-returns}
use apex_payments_engine.Idempotency.{record_of, claim_or_replay}
use apex_payments_engine.Idempotency.Claims.{claim-fresh, claim_fresh-returns}
use apex_payments_engine.Psp.{AuthorizationResult, PaymentProvider}
use apex_payments_engine.Ledger.Postings.{balance_of}
use apex_payments_engine.Ledger.Success.{>>=-returns, pure-returns}
use apex_payments_engine.Saga.{payment_row, psp_suspense_account_id, hold}
use apex_payments_engine.Saga.Progress.{hold-returns}
use apex_payments_engine.Saga.Compensation.{movement-transfer, transferred}
use apex_payments_engine.Payments.{
  Opened, held, new_payment, replay_or_hold, open_payment, finish_payment, authorize_and_finish,
  create,
}
use apex_payments_engine.Payments.Steps.{open_lem}
use apex_payments_engine.System.Answers.{finish_payment-returns}

external-returns :
    {A : Type 0} (f : ℕ → A) (w : World)
    → external f w ≡ (ok (f w.calls), record w { calls = suc w.calls })
unfolding ◌>>=◌
external-returns f w = refl

lift-returns : {A : Type 0} (a : A) (w : World) → lift (ok a) w ≡ (ok a, w)
unfolding ◌>>=◌
lift-returns a w = refl

module _ (env : Environment) (key : String) (request : CreatePaymentRequest)
    (accepts : AcceptsAll env) where
  new-returns :
      (id : Uuid) (w : World)
      → pos 0 <ℤ request.amount
      → request.amount ≤ℤ balance_of request.payer_account_id w.db
      → (o : Opened) × (w' : World) × (replay_or_hold env id request none w ≡ (ok o, w'))
  unfolding replay_or_hold
  new-returns id w positive funded =
      let t = env.now w.calls in
      let start : World = record { db = w.db; calls = suc w.calls } in
      let (p, u, e) = hold-returns env accepts (new_payment id request t) start positive funded in
      let last = λ (payment : Payment). pure (held payment) in
      let go = λ (s : Time). hold env (new_payment id request s) >>= last in
      (
        held p,
        u,
        >>=-returns (external env.now) go w start t (external-returns env.now w)
            ∙ >>=-returns (hold env (new_payment id request t)) last start u p e
            ∙ pure-returns (held p) u,
      )

  open-returns :
      (lock : Bool) (id : Uuid) (w : World)
      → record_of request.merchant_id key w.db ≡ none
      → pos 0 <ℤ request.amount
      → request.amount ≤ℤ balance_of request.payer_account_id w.db
      → (o : Opened) × (w' : World) × (open_payment env lock key request id w ≡ (ok o, w'))
  unfolding open_payment
  open-returns lock id w missing positive funded =
      let claim = claim_or_replay env lock request.merchant_id key (payment_request request) in
      let (u, e) =
        claim_fresh-returns env accepts lock request.merchant_id key (payment_request request) w
          missing in
      let (r, _, added, _, _, _, _) =
        claim-fresh env lock request.merchant_id key (payment_request request) w u none missing e in
      let covered : request.amount ≤ℤ balance_of request.payer_account_id u.db =
        subst (λ d. request.amount ≤ℤ balance_of request.payer_account_id d) (sym added) funded in
      let (o, v, f) = new-returns id u positive covered in
      (
        o,
        record v { calls = suc v.calls },
        transaction-returns env (claim >>= replay_or_hold env id request) w v o accepts
            (>>=-returns claim (replay_or_hold env id request) w u none e ∙ f),
      )

above : (amount x : ℤ) → pos 0 ≤ℤ x → amount ≤ℤ x +ℤ (amount -ℤ pos 0)
above amount x nonneg = omega int_laws

-- The suspense account covers what was just moved to it.
suspense_covers :
    (payer : Uuid) (amount x y : ℤ)
    → (payer == psp_suspense_account_id) ≡ false
    → pos 0 ≤ℤ x
    → y ≡ x +ℤ transferred payer psp_suspense_account_id amount psp_suspense_account_id
    → amount ≤ℤ y
suspense_covers payer amount x y apart nonneg e =
    subst (λ z. amount ≤ℤ z) (sym e) (rw apart (above amount x nonneg))

both_returned :
    (env : Environment) (lock : Bool) (psp : PaymentProvider) (key : String)
    (request : CreatePaymentRequest) (w u v : World) (p : Payment)
    (auth_result : AuthorizationResult) (response : PaymentResponse)
    → open_payment env lock key request (env.uuid4 w.calls) (record w { calls = suc w.calls })
      ≡ (ok (held p), u)
    → psp.authorize u.calls p ≡ ok auth_result
    → finish_payment env key request
        (env.uuid4 w.calls)
        auth_result
        (record u { calls = suc u.calls })
      ≡ (ok response, v)
    → create env lock psp key request w ≡ (ok (201, response), v)
unfolding create authorize_and_finish ◌>>=◌
both_returned env lock psp key request w u v p auth_result response opened answered finished =
    rw (opened, answered, finished) refl

-- If the database takes every write, the key is new and no payment has the id that is drawn, a
-- request of a positive amount that the payer covers, from another account than the suspense
-- account, which is not overdrawn, is answered: `create` returns with the code 201, if the provider
-- answers, whatever it answers.
pub create-returns :
    (env : Environment) (lock : Bool) (psp : PaymentProvider) (key : String)
    (request : CreatePaymentRequest) (w : World)
    → AcceptsAll env
    → record_of request.merchant_id key w.db ≡ none
    → payment_row (env.uuid4 w.calls) w.db ≡ none
    → pos 0 <ℤ request.amount
    → request.amount ≤ℤ balance_of request.payer_account_id w.db
    → (request.payer_account_id == psp_suspense_account_id) ≡ false
    → pos 0 ≤ℤ balance_of psp_suspense_account_id w.db
    → ((n : ℕ) (p : Payment) → (r : AuthorizationResult) × (psp.authorize n p ≡ ok r))
    → (response : PaymentResponse) × (w' : World) × (create env lock psp key request w
        ≡ (ok (201, response), w'))
create-returns env lock psp key request w accepts missing fresh positive funded apart nonneg
      answers =
    let id = env.uuid4 w.calls in
    let start : World = record { db = w.db; calls = suc w.calls } in
    let (o, u, e) = open-returns env key request accepts lock id start missing positive funded in
    let (p, t, o_held, row, same, before) =
      open_lem env key request id lock o start u missing fresh e in
    let (auth_result, answered) = answers u.calls p in
    let asked : World = record { db = u.db; calls = suc u.calls } in
    let covered =
      suspense_covers request.payer_account_id request.amount
        (balance_of psp_suspense_account_id w.db) (balance_of psp_suspense_account_id u.db) apart
        nonneg
        (before psp_suspense_account_id
          ∙ ap (λ m. balance_of psp_suspense_account_id w.db +ℤ m)
              (movement-transfer request.payer_account_id psp_suspense_account_id
                psp_suspense_account_id request.amount)) in
    let (response, v, f) =
      finish_payment-returns env accepts id p asked row
        (subst (λ a. pos 0 <ℤ a) (sym same.amount) positive)
        (subst (λ a. a ≤ℤ balance_of psp_suspense_account_id u.db) (sym same.amount) covered) key
        request auth_result in
    (
      response,
      v,
      both_returned env lock psp key request w u v p auth_result response
          (e ∙ ap (λ (x : Opened). (ok x, u)) o_held) answered f,
    )
