-- ===== src/Payments/Idempotent.antt =====
-- `create` is idempotent: once it has returned for a key, a call with the same key and request
-- returns the same answer and changes nothing.
use apex_payments_engine.Prelude.{
  ℕ, suc, ◌≡◌, inl, inr, refl, sym, ap, ◌∙◌, subst, String, Bool, Option, some, arith, Option-cases,
}
use apex_payments_engine.Domain.Enums.{AuthorizationOutcome, captured, pending, declined}
use apex_payments_engine.Domain.Exceptions.{Uuid}
use apex_payments_engine.Schemas.{CreatePaymentRequest, PaymentResponse, payment_body}
use apex_payments_engine.Domain.Models.{Payment}
use apex_payments_engine.Session.{
  AcceptsAll, Environment, World, ok, ◌>>=◌, ◌>>◌, transaction, lift, pure,
}
use apex_payments_engine.Session.Transactions.{transaction-eq-ok}
use apex_payments_engine.Session.Ensures.{>>=-eq-ok, lift-eq-ok, pure-eq-ok}
use apex_payments_engine.Idempotency.{find_record, record_of, complete, complete_with, set_record}
use apex_payments_engine.Idempotency.Records.{find_record-modify_self}
use apex_payments_engine.Idempotency.Claims.{complete-eq-ok}
use apex_payments_engine.Psp.{AuthorizationResult, PaymentProvider}
use apex_payments_engine.Saga.{payment_row}
use apex_payments_engine.Saga.Transitions.{settle-IsTransition, reverse-IsTransition}
use apex_payments_engine.Payments.{
  Opened, replayed, held, to_response, reference_or_empty, open_payment, mark_authorized,
  apply_outcome, finish_payment, authorize_and_finish, create,
}
use apex_payments_engine.Payments.Replay.{IsReplayable, IsClaimed, opening, create-replays}
use apex_payments_engine.Payments.Opening.{OpenedAt, opening-OpenedAt, OpenedAt-committed}

module _ (env : Environment) (key : String) (request : CreatePaymentRequest) where
  outcome_keeps_keys :
      (id : Uuid) (outcome : AuthorizationOutcome) (ref : Option String) (p : Payment) (w u : World)
      → apply_outcome env id outcome ref w ≡ (ok p, u)
      → u.idempotency_keys ≡ w.idempotency_keys
  unfolding apply_outcome mark_authorized ◌>>=◌
  outcome_keeps_keys id captured ref p w u h =
      (settle-IsTransition env id (reference_or_empty ref) p w u h).4.idempotency_keys
  outcome_keeps_keys id declined ref p w u h =
      (reverse-IsTransition env id p w u h).4.idempotency_keys
  outcome_keeps_keys id pending ref p w u h = elim (Option-cases (payment_row id w.db)) [
    | inl missing ↦ absurd (ground arith)
    | inr (row, found) ↦ ground arith
  ]

  -- The second transaction completes the claimed row with the response that it returns.
  finish_payment-IsReplayable :
      (id : Uuid) (auth_result : AuthorizationResult) (response : PaymentResponse) (w w' : World)
      → IsClaimed env key request w.db
      → finish_payment env key request id auth_result w ≡ (ok response, w')
      → IsReplayable env key request 201 response w'.db
  unfolding finish_payment
  finish_payment-IsReplayable id auth_result response w w' claimed h =
      let m = request.merchant_id in
      let outcome = apply_outcome env id auth_result.outcome auth_result.psp_reference in
      let store = λ (p : Payment).
        complete env m key p.id 201 (payment_body (to_response p)) >> pure (to_response p) in
      let (u, body, committed) = transaction-eq-ok env (outcome >>= store) w w' response h in
      let (p, v, e, e') = >>=-eq-ok outcome store w u body in
      let keys = outcome_keeps_keys id auth_result.outcome auth_result.psp_reference p w v e in
      let saved = payment_body (to_response p) in
      let (x, v', f, f') =
        >>=-eq-ok (complete env m key p.id 201 saved) (λ _. pure (to_response p)) v u e' in
      let same = pure-eq-ok (to_response p) response v' u f' in
      let found : record_of m key v.db ≡ some claimed.row =
        ap (find_record m key) keys ∙ claimed.found in
      let done = complete_with p.id 201 saved in
      let written : v'.db ≡ set_record m key done v.db =
        complete-eq-ok env m key p.id 201 saved v v' f ∙ rw found in
      let final : w'.db ≡ set_record m key done v.db =
        committed ∙ ap (λ (y : World). y.db) (sym same.1) ∙ written in
      record {
        row = done claimed.row;
        found =
            ap (record_of m key) final
            ∙ find_record-modify_self m key done (λ y. refl) (λ y. refl) claimed.row
                v.idempotency_keys found;
        hash = claimed.hash;
        done = refl;
        code_lem = refl;
        body = ap payment_body same.0;
      }

  after_opening :
      (psp : PaymentProvider) (id : Uuid) (o : Opened) (code : ℕ) (response : PaymentResponse)
      (w u w' : World)
      → OpenedAt env key request w o u
      → authorize_and_finish env psp key request id o u ≡ (ok (code, response), w')
      → IsReplayable env key request code response w'.db
  unfolding authorize_and_finish ◌>>=◌
  after_opening psp id (replayed c r) code response w u w' (replayable, kept) h =
      let same = pure-eq-ok (c, r) (code, response) u w' h in
      subst (λ (x : ℕ × PaymentResponse). IsReplayable env key request x.0 x.1 w'.db) same.0
        (subst (IsReplayable env key request c r) (sym kept ∙ ap (λ (x : World). x.db) same.1)
          replayable)
  after_opening psp id (held p) code response w u w' claimed h =
      let start : World = record { db = u.db; calls = suc u.calls } in
      let last = λ (x : PaymentResponse). pure {A = ℕ × PaymentResponse} (201, x) in
      let finish = λ (x : AuthorizationResult). finish_payment env key request id x in
      let rest = λ (x : AuthorizationResult). finish x >>= last in
      let answer = lift (psp.authorize u.calls p) in
      let (auth_result, v, e, e') = >>=-eq-ok answer rest start w' h in
      let lifted = lift-eq-ok (psp.authorize u.calls p) auth_result start v e in
      let (r, x, f, f') = >>=-eq-ok (finish auth_result) last v w' e' in
      let same = pure-eq-ok (201, r) (code, response) x w' f' in
      let claimed' =
        subst (IsClaimed env key request) (ap (λ (y : World). y.db) lifted.1) claimed in
      let stored = finish_payment-IsReplayable id auth_result r v x claimed' f in
      subst (λ (y : ℕ × PaymentResponse). IsReplayable env key request y.0 y.1 w'.db) same.0
        (subst (IsReplayable env key request 201 r) (ap (λ (y : World). y.db) same.1) stored)

  create-IsReplayable :
      (lock : Bool) (psp : PaymentProvider) (code : ℕ) (response : PaymentResponse) (w w' : World)
      → create env lock psp key request w ≡ (ok (code, response), w')
      → IsReplayable env key request code response w'.db
  unfolding create open_payment ◌>>=◌
  create-IsReplayable lock psp code response w w' h =
      let id = env.uuid4 w.calls in
      let start : World = record { db = w.db; calls = suc w.calls } in
      let body = opening env key request lock id in
      let (o, u, e, e') =
        >>=-eq-ok (transaction env body) (authorize_and_finish env psp key request id) start w' h in
      let (v, opened, committed) = transaction-eq-ok env body start u o e in
      after_opening psp id o code response start u w'
        (OpenedAt-committed env key request o start v u committed
          (opening-OpenedAt env key request lock id o start v opened))
        e'

-- Once `create` has returned for a key, whatever the provider answered, a second call with the same
-- key and request returns the same code and response, with any lock and any provider, and changes
-- no table, if the database accepts the commits.
pub create_twice :
    (env : Environment) (lock lock' : Bool) (psp psp' : PaymentProvider) (key : String)
    (request : CreatePaymentRequest) (code : ℕ) (response : PaymentResponse) (w w' : World)
    → AcceptsAll env
    → create env lock psp key request w ≡ (ok (code, response), w')
    → (w'' : World) × (create env lock' psp' key request w' ≡ (ok (code, response), w''))
      × (w''.db ≡ w'.db)
create_twice env lock lock' psp psp' key request code response w w' accepts h =
    create-replays env key request lock' psp' code response w' accepts
      (create-IsReplayable env key request lock psp code response w w' h)
