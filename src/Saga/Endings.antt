-- ===== src/Saga/Endings.antt =====
-- What the two ends of a hold, settle and reverse, have done to the tables when they return.
use apex_payments_engine.Prelude.{
  ◌+◌, ◌≡◌, ◌≢◌, refl, sym, ap, ◌∙◌, subst, String, some, [], ◌∷◌, ◌++◌,
}
use apex_payments_engine.Prelude.Int.{◌+ℤ◌}
use apex_payments_engine.Prelude.Table.{modify, key-find, find-modify_self, find-modify_ne, find}
use apex_payments_engine.Domain.Enums.{
  debit, credit, TransactionType, PaymentStatus, payment_status_value,
}
use apex_payments_engine.Domain.Exceptions.{Uuid}
use apex_payments_engine.Domain.Models.{Payment, Outbox, EventPayload, Database}
use apex_payments_engine.Session.{Environment, World, ok}
use apex_payments_engine.Ledger.Postings.{balance_of}
use apex_payments_engine.Saga.{
  payment_key, payment_row, psp_suspense_account_id, reversed, failed_payload, reverse,
}
use apex_payments_engine.Saga.Transitions.{IsTransition, reverse-IsTransition}
use apex_payments_engine.Saga.Compensation.{transferred, movement-transfer}

-- `p` is the payment `row` in the status `status`, one version later.
pub record IsNext (row p : Payment) (status : PaymentStatus) : Type 0 where
  pub status_lem : p.status ≡ status
  pub version : p.version ≡ row.version + 1
  pub id : p.id ≡ row.id
  pub payer_account : p.payer_account ≡ row.payer_account
  pub payee_account : p.payee_account ≡ row.payee_account
  pub amount : p.amount ≡ row.amount
  pub refunded_amount : p.refunded_amount ≡ row.refunded_amount

-- The tables after a hold has ended with its amount on the account `account`: the payment `row` is
-- `p`, no other payment has changed, the amount has moved from the suspense account to `account`,
-- one event of the type `event_type` with the text `status_text` is in the outbox, and the other tables are as they were.
pub record IsEnded (row p : Payment) (account : Uuid) (event_type status_text : String)
    (d e : Database) : Type 0 where
  pub stored : payment_row row.id e ≡ some p
  pub others : (j : Uuid) → j ≢ row.id → payment_row j e ≡ payment_row j d
  pub balances :
      (b : Uuid)
      → balance_of b e ≡ balance_of b d +ℤ transferred psp_suspense_account_id account row.amount b
  pub event : Outbox
  pub outbox : e.outbox ≡ d.outbox ++ event ∷ []
  pub type : event.event_type ≡ event_type
  pub aggregate : event.aggregate_id ≡ row.id
  pub amount : event.payload.amount ≡ row.amount
  pub status_lem : event.payload.status ≡ status_text
  pub accounts : e.accounts ≡ d.accounts
  pub refunds : e.refunds ≡ d.refunds
  pub idempotency_keys : e.idempotency_keys ≡ d.idempotency_keys
  pub webhook_events : e.webhook_events ≡ d.webhook_events

module _ (id : Uuid) (row : Payment) (f : Payment → Payment) (kind : TransactionType)
    (account : Uuid) (event_type status_text : String) (payload : EventPayload) (d e : Database)
    (found : payment_row id d ≡ some row) (keeps : (p : Payment) → (f p).id ≡ p.id)
    (amount : payload.amount ≡ row.amount) (text : payload.status ≡ status_text) (p : Payment)
    (next : p ≡ f row) where
  ended :
      IsTransition row.id kind
        (record { account_id = psp_suspense_account_id; direction = debit; amount = row.amount }
          ∷ record { account_id = account; direction = credit; amount = row.amount }
          ∷ [])
        event_type
        payload
        (modify payment_key id f d.payments)
        d
        e
      → IsEnded row p account event_type status_text d e
  ended done =
      let here : row.id ≡ id = key-find payment_key id row d.payments found in
      record {
        stored =
            ap (λ k. payment_row k e) here
            ∙ ap (find payment_key id) done.payments_lem
            ∙ find-modify_self payment_key id f row d.payments keeps found
            ∙ ap some (sym next);
        others = λ j ne.
            ap (find payment_key j) done.payments_lem
            ∙ find-modify_ne payment_key j id f d.payments keeps (λ same. ne (same ∙ sym here));
        balances = λ b.
            done.recorded.balances b
            ∙ ap (λ x. balance_of b d +ℤ x)
                (movement-transfer psp_suspense_account_id account b row.amount);
        event = done.event;
        outbox = done.outbox;
        type = done.type;
        aggregate = done.aggregate;
        amount = ap (λ (x : EventPayload). x.amount) done.payload_lem ∙ amount;
        status_lem = ap (λ (x : EventPayload). x.status) done.payload_lem ∙ text;
        accounts = done.accounts;
        refunds = done.refunds;
        idempotency_keys = done.idempotency_keys;
        webhook_events = done.webhook_events;
      }

module _ (env : Environment) where
  -- A reversal that returns has found the payment, and returns it as FAILED, one version later and
  -- else as it was; the amount has moved from the suspense account back to the payer, and
  -- `payment.failed` is in the outbox.
  pub reverse-IsEnded :
      (id : Uuid) (p : Payment) (w w' : World)
      → reverse env id w ≡ (ok p, w')
      → (row : Payment) × (payment_row id w.db ≡ some row)
        × IsNext row p PaymentStatus.failed
        × IsEnded row p row.payer_account "payment.failed" "FAILED" w.db w'.db
  unfolding payment_status_value
  reverse-IsEnded id p w w' h =
      let (row, t, found, same, done) = reverse-IsTransition env id p w w' h in
      (
        row,
        found,
        subst (λ x. IsNext row x PaymentStatus.failed) (sym same)
            (record {
              status_lem = refl;
              version = refl;
              id = refl;
              payer_account = refl;
              payee_account = refl;
              amount = refl;
              refunded_amount = refl;
            }),
        ended id row (reversed t) TransactionType.reversal row.payer_account "payment.failed"
            "FAILED" (failed_payload p) w.db w'.db found (λ x. refl)
            (ap (λ (x : Payment). x.amount) same)
            (ap (λ (x : Payment). payment_status_value x.status) same) p same done,
      )
