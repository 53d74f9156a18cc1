-- ===== src/Saga/Transitions.antt =====
-- What each phase of the saga has done when it returns.
use apex_payments_engine.Prelude.{
  suc, ◌≡◌, sym, subst, String, some, [], ◌∷◌, ◌++◌, arith, inl, inr, Option-cases,
}
use apex_payments_engine.Prelude.Table.{modify}
use apex_payments_engine.Domain.Enums.{TransactionType, PaymentStatus}
use apex_payments_engine.Domain.Exceptions.{Uuid, Time}
use apex_payments_engine.Domain.Models.{Payment}
use apex_payments_engine.Session.{Environment, World, ok, ◌>>=◌}
use apex_payments_engine.Saga.{
  payment_key, payment_row, add_payment, set_payment, hold_postings, settle_postings,
  reverse_postings, settled, reversed, processing_payload, succeeded_payload, failed_payload,
  load_payment, post_and_emit, hold, settle, reverse,
}
pub use apex_payments_engine.Saga.Phase.{IsTransition}
use apex_payments_engine.Saga.Phase.{post_and_emit-IsTransition, from_payments}

module _ (env : Environment) where
  -- The row that the phase loads, and the world from which its end starts.
  settle-loads :
      (id : Uuid) (ref : String) (p : Payment) (w w' : World)
      → settle env id ref w ≡ (ok p, w')
      → (row : Payment) × (payment_row id w.db ≡ some row)
        × (post_and_emit env TransactionType.payment
              (settle_postings row)
              "payment.succeeded"
              (succeeded_payload (settled ref (env.now w.calls) row))
              (settled ref (env.now w.calls) row)
              (record {
                db = set_payment id (settled ref (env.now w.calls)) w.db;
                calls = suc w.calls;
              })
            ≡ (ok p, w'))
  unfolding settle load_payment ◌>>=◌
  settle-loads id ref p w w' h = elim (Option-cases (payment_row id w.db)) [
    | inl missing ↦ absurd (ground arith)
    | inr (row, found) ↦ (row, found, ground arith)
  ]

  reverse-loads :
      (id : Uuid) (p : Payment) (w w' : World)
      → reverse env id w ≡ (ok p, w')
      → (row : Payment) × (payment_row id w.db ≡ some row)
        × (post_and_emit env TransactionType.reversal
              (reverse_postings row)
              "payment.failed"
              (failed_payload (reversed (env.now w.calls) row))
              (reversed (env.now w.calls) row)
              (record {
                db = set_payment id (reversed (env.now w.calls)) w.db;
                calls = suc w.calls;
              })
            ≡ (ok p, w'))
  unfolding reverse load_payment ◌>>=◌
  reverse-loads id p w w' h = elim (Option-cases (payment_row id w.db)) [
    | inl missing ↦ absurd (ground arith)
    | inr (row, found) ↦ (row, found, ground arith)
  ]

  -- A settlement that returns has found the payment, marked it SUCCEEDED with the reference and a
  -- new version, moved its amount from the suspense account to the payee, and emitted
  -- `payment.succeeded`; the accounts, refunds, idempotency keys and webhook events are as they were.
  pub settle-IsTransition :
      (id : Uuid) (ref : String) (p : Payment) (w w' : World)
      → settle env id ref w ≡ (ok p, w')
      → (row : Payment) × (t : Time) × (payment_row id w.db ≡ some row)
        × (p ≡ settled ref t row)
        × IsTransition row.id TransactionType.payment
            (settle_postings row)
            "payment.succeeded"
            (succeeded_payload p)
            (modify payment_key id (settled ref t) w.payments)
            w.db
            w'.db
  settle-IsTransition id ref p w w' h =
      let (row, found, e) = settle-loads id ref p w w' h in
      let t = env.now w.calls in
      let q = settled ref t row in
      let xs = modify payment_key id (settled ref t) w.payments in
      let u : World = record { db = record w.db { payments = xs }; calls = suc w.calls } in
      let (same, done) =
        post_and_emit-IsTransition env TransactionType.payment (settle_postings row)
          "payment.succeeded" (succeeded_payload q) q p u w' e in
      (
        row,
        t,
        found,
        sym same,
        subst
            (λ x.
              IsTransition row.id TransactionType.payment (settle_postings row) "payment.succeeded"
                (succeeded_payload x) xs w.db w'.db)
            same
            (from_payments row.id TransactionType.payment (settle_postings row) "payment.succeeded"
              (succeeded_payload q) xs w.db w'.db done),
      )

  -- A reversal that returns has found the payment, marked it FAILED with a new version, moved its
  -- amount from the suspense account back to the payer, and emitted `payment.failed`; the
  -- accounts, refunds, idempotency keys and webhook events are as they were.
  pub reverse-IsTransition :
      (id : Uuid) (p : Payment) (w w' : World)
      → reverse env id w ≡ (ok p, w')
      → (row : Payment) × (t : Time) × (payment_row id w.db ≡ some row)
        × (p ≡ reversed t row)
        × IsTransition row.id TransactionType.reversal
            (reverse_postings row)
            "payment.failed"
            (failed_payload p)
            (modify payment_key id (reversed t) w.payments)
            w.db
            w'.db
  reverse-IsTransition id p w w' h =
      let (row, found, e) = reverse-loads id p w w' h in
      let t = env.now w.calls in
      let q = reversed t row in
      let xs = modify payment_key id (reversed t) w.payments in
      let u : World = record { db = record w.db { payments = xs }; calls = suc w.calls } in
      let (same, done) =
        post_and_emit-IsTransition env TransactionType.reversal (reverse_postings row)
          "payment.failed" (failed_payload q) q p u w' e in
      (
        row,
        t,
        found,
        sym same,
        subst
            (λ x.
              IsTransition row.id TransactionType.reversal (reverse_postings row) "payment.failed"
                (failed_payload x) xs w.db w'.db)
            same
            (from_payments row.id TransactionType.reversal (reverse_postings row) "payment.failed"
              (failed_payload q) xs w.db w'.db done),
      )

  hold-adds :
      (created p : Payment) (w w' : World)
      → hold env created w ≡ (ok p, w')
      → let q : Payment = record created {
        status = PaymentStatus.processing;
        updated_at = env.now w.calls;
      } in
        post_and_emit env TransactionType.payment
          (hold_postings q)
          "payment.processing"
          (processing_payload q)
          q
          (record { db = add_payment q w.db; calls = suc (suc w.calls) })
        ≡ (ok p, w')
  unfolding hold ◌>>=◌
  hold-adds created p w w' h = ground arith

  -- A hold that returns has added the payment as PROCESSING, moved its amount from the payer to the
  -- suspense account, and emitted `payment.processing`; the accounts, refunds,
  -- idempotency keys and webhook events are as they were.
  pub hold-IsTransition :
      (created p : Payment) (w w' : World)
      → hold env created w ≡ (ok p, w')
      → (t : Time) × (p ≡ record created { status = PaymentStatus.processing; updated_at = t })
        × IsTransition created.id TransactionType.payment
            (hold_postings created)
            "payment.processing"
            (processing_payload p)
            (w.payments ++ p ∷ [])
            w.db
            w'.db
  hold-IsTransition created p w w' h =
      let t = env.now w.calls in
      let q : Payment = record created { status = PaymentStatus.processing; updated_at = t } in
      let xs = w.payments ++ q ∷ [] in
      let u : World = record { db = record w.db { payments = xs }; calls = suc (suc w.calls) } in
      let (same, done) =
        post_and_emit-IsTransition env TransactionType.payment (hold_postings q)
          "payment.processing" (processing_payload q) q p u w' (hold-adds created p w w' h) in
      (
        t,
        sym same,
        subst
            (λ x.
              IsTransition created.id TransactionType.payment (hold_postings created)
                "payment.processing" (processing_payload x) (w.payments ++ x ∷ []) w.db w'.db)
            same
            (from_payments created.id TransactionType.payment (hold_postings created)
              "payment.processing" (processing_payload q) xs w.db w'.db done),
      )
