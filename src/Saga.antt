-- ===== src/Saga.antt =====
-- app/application/payment_saga.py: `PaymentSaga`, hold, settle and reverse.
pub mod Phase
pub mod Transitions
pub mod Compensation
pub mod Endings
pub mod Progress
use apex_payments_engine.Prelude.{◌+◌, String, Option, none, some, List, [], ◌∷◌, ◌++◌}
use apex_payments_engine.Prelude.Table.{find, modify}
use apex_payments_engine.Domain.Enums.{
  debit, credit, TransactionType, PaymentStatus, payment_status_value,
}
use apex_payments_engine.Domain.Exceptions.{Uuid, Time, domain, payment_not_found}
use apex_payments_engine.Domain.Models.{Payment, Outbox, EventPayload, Database}
use apex_payments_engine.Session.{
  Environment, Action, pure, gets, or_raise, external, ◌>>=◌, ◌>>◌, update, flush,
}
use apex_payments_engine.Ledger.{Posting, post}

abbrev pub psp_suspense_account_id : Uuid
psp_suspense_account_id = 1

abbrev pub fee_income_account_id : Uuid
fee_income_account_id = 2

abbrev pub payment_key : Payment → Uuid
payment_key p = p.id

abbrev pub payment_row : Uuid → Database → Option Payment
payment_row id d = find payment_key id d.payments

abbrev pub add_payment : Payment → Database → Database
add_payment p d = record d { payments = d.payments ++ p ∷ [] }

abbrev pub set_payment : Uuid → (Payment → Payment) → Database → Database
set_payment id f d = record d { payments = modify payment_key id f d.payments }

abbrev pub add_event : Outbox → Database → Database
add_event ev d = record d { outbox = d.outbox ++ ev ∷ [] }

abbrev pub hold_postings : Payment → List Posting
hold_postings payment =
    record { account_id = payment.payer_account; direction = debit; amount = payment.amount }
    ∷ record { account_id = psp_suspense_account_id; direction = credit; amount = payment.amount }
    ∷ []

abbrev pub settle_postings : Payment → List Posting
settle_postings payment =
    record { account_id = psp_suspense_account_id; direction = debit; amount = payment.amount }
    ∷ record { account_id = payment.payee_account; direction = credit; amount = payment.amount }
    ∷ []

abbrev pub reverse_postings : Payment → List Posting
reverse_postings payment =
    record { account_id = psp_suspense_account_id; direction = debit; amount = payment.amount }
    ∷ record { account_id = payment.payer_account; direction = credit; amount = payment.amount }
    ∷ []

abbrev pub settled : String → Time → Payment → Payment
settled psp_reference t payment = record payment {
  status = PaymentStatus.succeeded;
  psp_reference = some psp_reference;
  version = payment.version + 1;
  updated_at = t;
}

abbrev pub reversed : Time → Payment → Payment
reversed t payment = record payment {
  status = PaymentStatus.failed;
  version = payment.version + 1;
  updated_at = t;
}

-- The dictionaries of the three events. `payment.failed` has no currency.
abbrev pub processing_payload : Payment → EventPayload
processing_payload payment = record {
  payment_id = payment.id;
  refund_id = none;
  merchant_id = some payment.merchant_id;
  amount = payment.amount;
  currency = some payment.currency;
  status = payment_status_value payment.status;
  psp_reference = none;
}

abbrev pub succeeded_payload : Payment → EventPayload
succeeded_payload payment = record {
  payment_id = payment.id;
  refund_id = none;
  merchant_id = some payment.merchant_id;
  amount = payment.amount;
  currency = some payment.currency;
  status = payment_status_value payment.status;
  psp_reference = payment.psp_reference;
}

abbrev pub failed_payload : Payment → EventPayload
failed_payload payment = record {
  payment_id = payment.id;
  refund_id = none;
  merchant_id = some payment.merchant_id;
  amount = payment.amount;
  currency = none;
  status = payment_status_value payment.status;
  psp_reference = none;
}

module _ (env : Environment) where
  -- `session.add(Outbox(...))`; the id and the time are the defaults of the row.
  unfoldable pub emit : String → Uuid → String → EventPayload → Action Unit
  emit aggregate_type aggregate_id event_type payload = do
    id ← external env.uuid4
    t ← external env.now
    update (
        add_event (record {
          id = id;
          aggregate_type = aggregate_type;
          aggregate_id = aggregate_id;
          event_type = event_type;
          payload = payload;
          created_at = t;
          published_at = none;
        }))

  unfoldable pub load_payment : Uuid → Action Payment
  load_payment payment_id = do
    found ← gets (payment_row payment_id)
    or_raise found (domain (payment_not_found payment_id))

  -- The end of each phase: the postings, the event in the outbox, the flush.
  unfoldable pub post_and_emit :
      TransactionType → List Posting → String → EventPayload → Payment → Action Payment
  post_and_emit kind postings event_type payload payment = do
    post env kind payment.id postings
    emit "payment" payment.id event_type payload
    flush env
    pure payment

  -- Phase 1. The row's `updated_at` is its default at the flush.
  unfoldable pub hold : Payment → Action Payment
  hold created = do
    t ← external env.now
    let payment : Payment = record created { status = PaymentStatus.processing; updated_at = t }
    update (add_payment payment)
    flush env
    post_and_emit TransactionType.payment (hold_postings payment) "payment.processing"
        (processing_payload payment) payment

  -- Phase 3a.
  unfoldable pub settle : Uuid → String → Action Payment
  settle payment_id psp_reference = do
    row ← load_payment payment_id
    t ← external env.now
    let payment : Payment = settled psp_reference t row
    update (set_payment payment_id (settled psp_reference t))
    post_and_emit TransactionType.payment (settle_postings payment) "payment.succeeded"
        (succeeded_payload payment) payment

  -- Phase 3b.
  unfoldable pub reverse : Uuid → Action Payment
  reverse payment_id = do
    row ← load_payment payment_id
    t ← external env.now
    let payment : Payment = reversed t row
    update (set_payment payment_id (reversed t))
    post_and_emit TransactionType.reversal (reverse_postings payment) "payment.failed"
        (failed_payload payment) payment
