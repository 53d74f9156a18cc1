-- ===== src/Http/PaymentErrors.antt =====
-- What a payment request that is answered with an error has changed: app/main.py and
-- app/api/payments.py.
use apex_payments_engine.Http.Errors.{IsRaised, respond-IsRaised}
use apex_payments_engine.Prelude.{
  ℕ, suc, ◌≡◌, ◌⊎◌, ◌≢◌, inl, inr, refl, sym, ◌∙◌, String, Bool, true, false, not,
}
use apex_payments_engine.Domain.Exceptions.{Uuid, Error, request_validation_error}
use apex_payments_engine.Domain.Models.{Payment, Database}
use apex_payments_engine.Schemas.{CreatePaymentRequest, PaymentResponse, is_valid_payment}
use apex_payments_engine.Session.{Environment, World, Result, ok, err, ◌>>=◌, ◌>>◌, raise_if}
use apex_payments_engine.Session.Transactions.{transaction-eq-err}
use apex_payments_engine.Psp.{PaymentProvider, AuthorizationResult}
use apex_payments_engine.Payments.{
  Opened, held, replayed, open_payment, finish_payment, authorize_and_finish, create,
  create_payment,
}
use apex_payments_engine.Http.{is_error, post_payments}

ok_neq_err : {A : Type 0} (a : A) (e : Error) → ok a ≢ err e
ok_neq_err a e h = cc

ok_not_raised : {A : Type 0} (a : A) (r : Result A) → r ≡ ok a → IsRaised r → ⊥
unfolding IsRaised
ok_not_raised a r e (x, f) = ok_neq_err a x (sym e ∙ f)

module _ (env : Environment) (psp : PaymentProvider) (key : String) (request : CreatePaymentRequest)
    (id : Uuid) where
  finish_db :
      (auth_result : AuthorizationResult) (e : Error) (w v : World)
      → finish_payment env key request id auth_result w ≡ (err e, v)
      → v.db ≡ w.db
  unfolding finish_payment
  finish_db auth_result e w v h = transaction-eq-err env _ w v e h

  open_db :
      (lock : Bool) (e : Error) (w v : World)
      → open_payment env lock key request id w ≡ (err e, v)
      → v.db ≡ w.db
  unfolding open_payment
  open_db lock e w v h = transaction-eq-err env _ w v e h

  finish_raised :
      (p : Payment) (u : World) (r : Result PaymentResponse) (v : World)
      (auth_result : AuthorizationResult)
      → psp.authorize u.calls p ≡ ok auth_result
      → finish_payment env key request id auth_result (record u { calls = suc u.calls }) ≡ (r, v)
      → IsRaised (authorize_and_finish env psp key request id (held p) u).0
      → (authorize_and_finish env psp key request id (held p) u).1.db ≡ u.db
  unfolding authorize_and_finish ◌>>=◌
  finish_raised p u (ok response) v auth_result answered finished h = absurd (
      ok_not_raised (201, response) (authorize_and_finish env psp key request id (held p) u).0
        (rw (answered, finished) refl) h)
  finish_raised p u (err e) v auth_result answered finished h =
      rw (answered, finished)
        (finish_db auth_result e (record u { calls = suc u.calls }) v finished)

  answer_raised :
      (p : Payment) (u : World) (answer : Result AuthorizationResult)
      → psp.authorize u.calls p ≡ answer
      → IsRaised (authorize_and_finish env psp key request id (held p) u).0
      → (authorize_and_finish env psp key request id (held p) u).1.db ≡ u.db
  unfolding authorize_and_finish ◌>>=◌
  answer_raised p u (err e) answered h = rw answered refl
  answer_raised p u (ok auth_result) answered h =
      let asked : World = record u { calls = suc u.calls } in
      finish_raised p u (finish_payment env key request id auth_result asked).0
        (finish_payment env key request id auth_result asked).1 auth_result answered refl h

-- The first transaction of `create` holds a payment, and the tables are what it left.
abbrev pub IsLeftHeld :
    Environment → Bool → String → CreatePaymentRequest → World → Database → Type 0
IsLeftHeld env lock key request w d =
    (p : Payment) × (u : World) × (open_payment env lock key request (env.uuid4 w.calls)
        (record w { calls = suc w.calls })
      ≡ (ok (held p), u))
    × (d ≡ u.db)

module _ (env : Environment) (lock : Bool) (psp : PaymentProvider) (key : String)
    (request : CreatePaymentRequest) (w : World) where
  opened_raised :
      (r : Result Opened) (u : World)
      → open_payment env lock key request (env.uuid4 w.calls) (record w { calls = suc w.calls })
        ≡ (r, u)
      → IsRaised (create env lock psp key request w).0
      → ((create env lock psp key request w).1.db ≡ w.db)
        ⊎ IsLeftHeld env lock key request w (create env lock psp key request w).1.db
  unfolding create authorize_and_finish ◌>>=◌
  opened_raised (err e) u opened h = inl (
      rw opened (
        open_db env psp key request (env.uuid4 w.calls) lock e (record w { calls = suc w.calls }) u
          opened))
  opened_raised (ok (replayed code response)) u opened h =
      absurd
        (ok_not_raised (code, response) (create env lock psp key request w).0 (rw opened refl) h)
  opened_raised (ok (held p)) u opened h = inr (
    p,
    u,
    opened,
    rw opened (
        answer_raised env psp key request (env.uuid4 w.calls) p u (psp.authorize u.calls p) refl
          (rw opened at h)),
  )

  create_raised :
      IsRaised (create env lock psp key request w).0
      → ((create env lock psp key request w).1.db ≡ w.db)
        ⊎ IsLeftHeld env lock key request w (create env lock psp key request w).1.db
  create_raised h =
      let start : World = record w { calls = suc w.calls } in
      let opened = open_payment env lock key request (env.uuid4 w.calls) start in
      opened_raised opened.0 opened.1 refl h

  guarded_raised :
      (refused : Bool)
      → IsRaised
          ((raise_if refused request_validation_error >> create env lock psp key request) w).0
      → let after =
          ((raise_if refused request_validation_error >> create env lock psp key request) w).1 in
        (after.db ≡ w.db) ⊎ IsLeftHeld env lock key request w after.db
  unfolding ◌>>=◌
  guarded_raised true h = inl refl
  guarded_raised false h = create_raised h

  -- A payment request that is answered with an error has changed no table, or its first transaction
  -- holds a payment and what it left has not been changed since.
  pub payment_error_leaves :
      (starlette : Error → ℕ)
      → is_error (post_payments env starlette lock psp key request w).0 ≡ true
      → ((post_payments env starlette lock psp key request w).1.db ≡ w.db)
        ⊎ IsLeftHeld env lock key request w
            (post_payments env starlette lock psp key request w).1.db
  unfolding post_payments create_payment
  payment_error_leaves starlette h =
      guarded_raised (not (is_valid_payment request)) (respond-IsRaised env starlette _ h)
