-- ===== src/Payments/Steps.antt =====
-- What the two transactions of `PaymentService.create` do to the balances and to the status, for each
-- outcome of the provider.
use apex_payments_engine.Prelude.{
  ◌≡◌, refl, sym, ap, ◌∙◌, subst, String, Bool, Option, none, some, some_eq, List, [], ◌∷◌, ◌++◌,
  arith,
}
use apex_payments_engine.Prelude.Int.{ℤ, pos, ◌+ℤ◌, int_laws}
use apex_payments_engine.Prelude.Table.{find, find-append}
use apex_payments_engine.Domain.Enums.{
  AuthorizationOutcome, captured, pending, declined, PaymentStatus,
}
use apex_payments_engine.Domain.Exceptions.{Uuid, Time}
use apex_payments_engine.Domain.Models.{Payment}
use apex_payments_engine.Schemas.{CreatePaymentRequest, PaymentResponse, payment_body}
use apex_payments_engine.Session.{
  Environment, World, payment_request, ok, pure, external, ◌>>=◌, ◌>>◌,
}
use apex_payments_engine.Session.Transactions.{transaction-eq-ok}
use apex_payments_engine.Session.Ensures.{>>=-eq-ok, pure-eq-ok, external-eq-ok}
use apex_payments_engine.Idempotency.{record_of, claim_or_replay, complete}
use apex_payments_engine.Idempotency.Claims.{claim-fresh}
use apex_payments_engine.Idempotency.Frame.{complete-OnlyKeys}
use apex_payments_engine.Psp.{AuthorizationResult}
use apex_payments_engine.Ledger.{Posting}
use apex_payments_engine.Ledger.Postings.{balance_of}
use apex_payments_engine.Ledger.Balances.{movement}
use apex_payments_engine.Saga.{
  payment_key, payment_row, psp_suspense_account_id, hold_postings, settle_postings,
  reverse_postings, hold,
}
use apex_payments_engine.Saga.Transitions.{
  hold-IsTransition, settle-IsTransition, reverse-IsTransition,
}
use apex_payments_engine.Saga.Compensation.{
  IsSamePayment, transferred, movement-transfer, movement_reversed, movement_settled,
}
use apex_payments_engine.Payments.{
  Opened, held, new_payment, to_response, reference_or_empty, replay_or_hold, open_payment,
  mark_authorized, apply_outcome, finish_payment,
}

abbrev pub status_after : AuthorizationOutcome → PaymentStatus
status_after captured = PaymentStatus.succeeded
status_after declined = PaymentStatus.failed
status_after pending = PaymentStatus.authorized

-- What a new payment adds to the balance of `b`: a captured one is a transfer to the payee, a
-- pending one waits in the suspense account, and a declined one leaves the balances.
abbrev pub moved_by : AuthorizationOutcome → CreatePaymentRequest → Uuid → ℤ
moved_by captured request b =
    transferred request.payer_account_id request.payee_account_id request.amount b
moved_by pending request b =
    transferred request.payer_account_id psp_suspense_account_id request.amount b
moved_by declined request b = pos 0

-- The postings of the second transaction.
abbrev pub postings_after : AuthorizationOutcome → Payment → List Posting
postings_after captured payment = settle_postings payment
postings_after declined payment = reverse_postings payment
postings_after pending payment = []

add_zero : (x : ℤ) → x ≡ x +ℤ pos 0
add_zero x = omega int_laws

find-added :
    (id : Uuid) (p : Payment) (ps : List Payment)
    → find payment_key id ps ≡ none
    → p.id ≡ id
    → find payment_key id (ps ++ p ∷ []) ≡ some p
find-added id p ps fresh same = find-append payment_key id p ps ∙ rw fresh (ground (arith, same))

module _ (env : Environment) where
  mark_lem :
      (id : Uuid) (row p : Payment) (ref : Option String) (w u : World)
      → payment_row id w.db ≡ some row
      → mark_authorized env id ref w ≡ (ok p, u)
      → (p.status ≡ PaymentStatus.authorized) × (u.db ≡ record w.db { payments = u.payments })
  unfolding mark_authorized ◌>>=◌
  mark_lem id row p ref w u found h = (ground (arith, found), ground (arith, found))

  outcome_lem :
      (id : Uuid) (row p : Payment) (outcome : AuthorizationOutcome) (ref : Option String)
      (w u : World)
      → payment_row id w.db ≡ some row
      → apply_outcome env id outcome ref w ≡ (ok p, u)
      → (p.status ≡ status_after outcome)
        × ((b : Uuid)
            → balance_of b u.db ≡ balance_of b w.db +ℤ movement b (postings_after outcome row))
  unfolding apply_outcome
  outcome_lem id row p captured ref w u found h =
      let (row', t, found', made, tr) =
        settle-IsTransition env id (reference_or_empty ref) p w u h in
      (
        ap (λ (x : Payment). x.status) made,
        subst
            (λ r.
              (b : Uuid) → balance_of b u.db ≡ balance_of b w.db +ℤ movement b (settle_postings r))
            (some_eq (sym found' ∙ found)) tr.recorded.balances,
      )
  outcome_lem id row p declined ref w u found h =
      let (row', t, found', made, tr) = reverse-IsTransition env id p w u h in
      (
        ap (λ (x : Payment). x.status) made,
        subst
            (λ r.
              (b : Uuid) → balance_of b u.db ≡ balance_of b w.db +ℤ movement b (reverse_postings r))
            (some_eq (sym found' ∙ found)) tr.recorded.balances,
      )
  outcome_lem id row p pending ref w u found h =
      let (status, same) = mark_lem id row p ref w u found h in
      (status, λ b. ap (balance_of b) same ∙ add_zero (balance_of b w.db))

module _ (env : Environment) (key : String) (request : CreatePaymentRequest) (id : Uuid) where
  pub finish_lem :
      (auth_result : AuthorizationResult) (response : PaymentResponse) (row : Payment)
      (w w' : World)
      → payment_row id w.db ≡ some row
      → finish_payment env key request id auth_result w ≡ (ok response, w')
      → (response.status ≡ status_after auth_result.outcome)
        × ((b : Uuid)
            → balance_of b w'.db
              ≡ balance_of b w.db +ℤ movement b (postings_after auth_result.outcome row))
  unfolding finish_payment to_response
  finish_lem auth_result response row w w' found h =
      let outcome = apply_outcome env id auth_result.outcome auth_result.psp_reference in
      let end = λ (p : Payment).
        (complete env request.merchant_id key p.id 201 (payment_body (to_response p))
          >> pure (to_response p)) in
      let (u, done, committed) = transaction-eq-ok env (outcome >>= end) w w' response h in
      let (p, v, e, f) = >>=-eq-ok outcome end w u done in
      let (unit, x, g, k) =
        >>=-eq-ok (complete env request.merchant_id key p.id 201 (payment_body (to_response p)))
          (λ _. pure (to_response p)) v u f in
      let frame =
        (complete-OnlyKeys env request.merchant_id key p.id 201 (payment_body (to_response p))).at v
          x unit g in
      let end_lem = pure-eq-ok (to_response p) response x u k in
      let (status, balances) =
        outcome_lem env id row p auth_result.outcome auth_result.psp_reference w v found e in
      (
        ap (λ (r : PaymentResponse). r.status) (sym end_lem.0) ∙ status,
        λ b.
            ap (balance_of b) (committed ∙ ap (λ (y : World). y.db) (sym end_lem.1) ∙ frame.rest)
            ∙ balances b,
      )

  pub net_lem :
      (outcome : AuthorizationOutcome) (t : Time) (p : Payment) (b : Uuid)
      → IsSamePayment (new_payment id request t) p
      → movement b (hold_postings (new_payment id request t))
          +ℤ movement b (postings_after outcome p)
        ≡ moved_by outcome request b
  net_lem captured t p b same = movement_settled b (new_payment id request t) p same
  net_lem declined t p b same = movement_reversed b (new_payment id request t) p same
  net_lem pending t p b same =
      sym (add_zero (movement b (hold_postings (new_payment id request t))))
      ∙ movement-transfer request.payer_account_id psp_suspense_account_id b request.amount

  -- The hold of a new payment.
  hold_lem :
      (o : Opened) (w u : World)
      → payment_row id w.db ≡ none
      → replay_or_hold env id request none w ≡ (ok o, u)
      → (p : Payment) × (t : Time) × (o ≡ held p)
        × (payment_row id u.db ≡ some p)
        × IsSamePayment (new_payment id request t) p
        × ((b : Uuid)
            → balance_of b u.db
              ≡ balance_of b w.db +ℤ movement b (hold_postings (new_payment id request t)))
  unfolding replay_or_hold
  hold_lem o w u fresh h =
      let last = λ (payment : Payment). pure (held payment) in
      let go = λ (t : Time). hold env (new_payment id request t) >>= last in
      let (t, v, e, f) = >>=-eq-ok (external env.now) go w u h in
      let drawn = external-eq-ok env.now t w v e in
      let (p, x, g, k) = >>=-eq-ok (hold env (new_payment id request t)) last v u f in
      let (t', made, tr) = hold-IsTransition env (new_payment id request t) p v x g in
      let end = pure-eq-ok (held p) o x u k in
      let start : v.db ≡ w.db = ap (λ (y : World). y.db) (sym drawn.1) in
      let row : payment_row id x.db ≡ some p =
        ap (find payment_key id) tr.payments_lem
        ∙ find-added id p v.payments (ap (payment_row id) start ∙ fresh)
            (ap (λ (q : Payment). q.id) made) in
      (
        p,
        t,
        sym end.0,
        ap (λ (y : World). payment_row id y.db) (sym end.1) ∙ row,
        subst (IsSamePayment (new_payment id request t)) (sym made)
            (record { payer_account = refl; payee_account = refl; amount = refl }),
        λ b.
            ap (λ (y : World). balance_of b y.db) (sym end.1)
            ∙ tr.recorded.balances b
            ∙ ap (λ d. balance_of b d +ℤ movement b (hold_postings (new_payment id request t)))
                start,
      )

  -- The first transaction of a new key.
  pub open_lem :
      (lock : Bool) (o : Opened) (w u : World)
      → record_of request.merchant_id key w.db ≡ none
      → payment_row id w.db ≡ none
      → open_payment env lock key request id w ≡ (ok o, u)
      → (p : Payment) × (t : Time) × (o ≡ held p)
        × (payment_row id u.db ≡ some p)
        × IsSamePayment (new_payment id request t) p
        × ((b : Uuid)
            → balance_of b u.db
              ≡ balance_of b w.db +ℤ movement b (hold_postings (new_payment id request t)))
  unfolding open_payment
  open_lem lock o w u missing fresh h =
      let claim = claim_or_replay env lock request.merchant_id key (payment_request request) in
      let (v, done, committed) =
        transaction-eq-ok env (claim >>= replay_or_hold env id request) w u o h in
      let (replay, x, e, f) = >>=-eq-ok claim (replay_or_hold env id request) w v done in
      let (r, none_stored, added, _, _, _, _) =
        claim-fresh env lock request.merchant_id key (payment_request request) w x replay missing
          e in
      let (p, t, o_held, row, same, balances) =
        hold_lem o x v (ap (payment_row id) added ∙ fresh) (rw none_stored at f) in
      (
        p,
        t,
        o_held,
        ap (payment_row id) committed ∙ row,
        same,
        λ b.
            ap (balance_of b) committed
            ∙ balances b
            ∙ ap (λ d. balance_of b d +ℤ movement b (hold_postings (new_payment id request t)))
                added,
      )
