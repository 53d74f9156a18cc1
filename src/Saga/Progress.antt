-- ===== src/Saga/Progress.antt =====
-- When a phase of the saga returns.
use apex_payments_engine.Prelude.{suc, ◌≡◌, ◌∙◌, String, some, none, arith, List, [], ◌∷◌}
use apex_payments_engine.Prelude.Int.{ℤ, pos, ◌<ℤ◌, ◌≤ℤ◌, int_laws}
use apex_payments_engine.Domain.Enums.{debit, credit, TransactionType, PaymentStatus}
use apex_payments_engine.Domain.Exceptions.{Uuid, domain, payment_not_found}
use apex_payments_engine.Domain.Models.{Payment, EventPayload}
use apex_payments_engine.Session.{AcceptsAll, Environment, World, ok, err, pure, ◌>>=◌, ◌>>◌, flush}
use apex_payments_engine.Ledger.{Posting, post}
use apex_payments_engine.Ledger.Validation.{IsBalanced}
use apex_payments_engine.Ledger.Postings.{balance_of}
use apex_payments_engine.Ledger.Balances.{CanApply}
use apex_payments_engine.Ledger.Success.{>>=-returns, post-returns}
use apex_payments_engine.Saga.{
  add_payment, hold_postings, processing_payload, hold, payment_row, set_payment,
  psp_suspense_account_id, settle_postings, reverse_postings, settled, reversed, succeeded_payload,
  failed_payload, load_payment, emit, post_and_emit, settle, reverse,
}

transfer-IsBalanced :
    (payer payee : Uuid) (amount : ℤ)
    → pos 0 <ℤ amount
    → IsBalanced (
        record { account_id = payer; direction = debit; amount = amount }
        ∷ record { account_id = payee; direction = credit; amount = amount }
        ∷ [])
transfer-IsBalanced payer payee amount positive = record {
  at_least_two = omega arith;
  positive = (positive, (positive, tt));
  equal_sums = omega int_laws;
}

module _ (env : Environment) where
  -- A payment that does not exist is neither settled nor reversed, and no table changes.
  settle_missing :
      (id : Uuid) (ref : String) (w : World)
      → payment_row id w.db ≡ none
      → (settle env id ref w ≡ (err (domain (payment_not_found id)), w))
        × (reverse env id w ≡ (err (domain (payment_not_found id)), w))
  unfolding settle reverse load_payment ◌>>=◌
  settle_missing id ref w missing = (ground arith, ground arith)

  module _ (accepts : AcceptsAll env) where
    emit-returns :
        (aggregate event_type : String) (id : Uuid) (payload : EventPayload) (p : Payment)
        (w : World)
        → (w' : World) × ((emit env aggregate id event_type payload >> (flush env >> pure p)) w
            ≡ (ok p, w'))
    unfolding emit ◌>>=◌
    emit-returns aggregate event_type id payload p w =
        let m = emit env aggregate id event_type payload >> (flush env >> pure p) in
        let u = (emit env aggregate id event_type payload w).1 in
        ((m w).1, ground (arith, accepts u.calls u.db))

    post_and_emit-returns :
        (kind : TransactionType) (ps : List Posting) (event_type : String) (payload : EventPayload)
        (p : Payment) (w : World)
        → IsBalanced ps
        → CanApply (λ a. balance_of a w.db) ps
        → (w' : World) × (post_and_emit env kind ps event_type payload p w ≡ (ok p, w'))
    unfolding post_and_emit
    post_and_emit-returns kind ps event_type payload p w balanced can =
        let rest = emit env "payment" p.id event_type payload >> (flush env >> pure p) in
        let (txn, u, e) = post-returns env accepts kind p.id ps w balanced can in
        let (w', e') = emit-returns "payment" event_type p.id payload p u in
        (w', >>=-returns (post env kind p.id ps) (λ _. rest) w u txn e ∙ e')

    -- If the database takes every write, a payment of a positive amount that the payer covers can be
    -- held.
    pub hold-returns :
        (created : Payment) (w : World)
        → pos 0 <ℤ created.amount
        → created.amount ≤ℤ balance_of created.payer_account w.db
        → (p : Payment) × (w' : World) × (hold env created w ≡ (ok p, w'))
    unfolding hold ◌>>=◌
    hold-returns created w positive funded =
        let q : Payment = record created {
          status = PaymentStatus.processing;
          updated_at = env.now w.calls;
        } in
        let u : World = record { db = add_payment q w.db; calls = suc (suc w.calls) } in
        let (w', e) =
          post_and_emit-returns TransactionType.payment (hold_postings q) "payment.processing"
            (processing_payload q) q u
            (transfer-IsBalanced q.payer_account psp_suspense_account_id q.amount positive)
            (funded, (tt, tt)) in
        (q, w', ground (arith, accepts (suc w.calls) u.db))

    module _ (id : Uuid) (row : Payment) (w : World) (found : payment_row id w.db ≡ some row)
        (positive : pos 0 <ℤ row.amount)
        (funded : row.amount ≤ℤ balance_of psp_suspense_account_id w.db) where
      -- If the database takes every write, a payment that exists, has a positive amount, and whose
      -- amount the suspense account covers, can be settled: `settle` returns, with any reference.
      pub settle-returns :
          (ref : String) → (p : Payment) × (w' : World) × (settle env id ref w ≡ (ok p, w'))
      unfolding settle load_payment ◌>>=◌
      settle-returns ref =
          let t = env.now w.calls in
          let q = settled ref t row in
          let u : World = record {
            db = set_payment id (settled ref t) w.db;
            calls = suc w.calls;
          } in
          let (w', e) =
            post_and_emit-returns TransactionType.payment (settle_postings row) "payment.succeeded"
              (succeeded_payload q) q u
              (transfer-IsBalanced psp_suspense_account_id row.payee_account row.amount positive)
              (funded, (tt, tt)) in
          (q, w', ground arith)

      -- If the database takes every write, a payment that exists, has a positive amount, and whose
      -- amount the suspense account covers, can be reversed: `reverse` returns.
      pub reverse-returns : (p : Payment) × (w' : World) × (reverse env id w ≡ (ok p, w'))
      unfolding reverse load_payment ◌>>=◌
      reverse-returns =
          let t = env.now w.calls in
          let q = reversed t row in
          let u : World = record { db = set_payment id (reversed t) w.db; calls = suc w.calls } in
          let (w', e) =
            post_and_emit-returns TransactionType.reversal (reverse_postings row) "payment.failed"
              (failed_payload q) q u
              (transfer-IsBalanced psp_suspense_account_id row.payer_account row.amount positive)
              (funded, (tt, tt)) in
          (q, w', ground arith)
