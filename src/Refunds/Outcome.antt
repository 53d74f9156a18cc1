-- ===== src/Refunds/Outcome.antt =====
-- What a refund that returns has done to the refunds, the payment, the balances and the outbox.
use apex_payments_engine.Prelude.{
  ℕ, ◌+◌, ◌≡◌, ◌≢◌, ◌⊎◌, inl, inr, refl, ap, ◌∙◌, String, true, false, some, [], ◌∷◌, ◌++◌, arith,
  ==_iff, Bool-cases,
}
use apex_payments_engine.Prelude.Int.{
  ℤ, pos, ◌+ℤ◌, ◌<ℤ◌, ◌≤ℤ◌, eq_ℤ, eq_of_parts, pos_part, neg_part,
}
use apex_payments_engine.Prelude.Table.{find, key-find, find-modify_self, find-modify_ne}
use apex_payments_engine.Domain.Enums.{PaymentStatus, is_refundable}
use apex_payments_engine.Domain.Exceptions.{Uuid}
use apex_payments_engine.Domain.Models.{Payment, Refund, Outbox, Database}
use apex_payments_engine.Schemas.{RefundResponse}
use apex_payments_engine.Session.{Environment, World, ok}
use apex_payments_engine.Ledger.Postings.{balance_of}
use apex_payments_engine.Saga.{payment_key, payment_row}
use apex_payments_engine.Saga.Compensation.{transferred, movement-transfer}
use apex_payments_engine.Refunds.{refunded, refund_response, refund_payment}
use apex_payments_engine.Refunds.Effects.{IsRefunded, refund-IsRefunded}

-- `p` is the payment `row` of which `amount` more is refunded.
pub record IsLess (row p : Payment) (amount : ℤ) : Type 0 where
  pub refunded_amount : p.refunded_amount ≡ row.refunded_amount +ℤ amount
  pub all : row.refunded_amount +ℤ amount ≡ row.amount → p.status ≡ PaymentStatus.refunded
  pub part : row.refunded_amount +ℤ amount ≢ row.amount → p.status ≡ row.status
  pub version : p.version ≡ row.version + 1
  pub amount_lem : p.amount ≡ row.amount
  pub payer_account : p.payer_account ≡ row.payer_account
  pub payee_account : p.payee_account ≡ row.payee_account

-- The tables after a refund `r` of `amount` of the payment `row`.
pub record IsPaidOut (row : Payment) (amount : ℤ) (r : Refund) (d e : Database) : Type 0 where
  pub refundable :
      (row.status ≡ PaymentStatus.succeeded) ⊎ (row.status ≡ PaymentStatus.refund_pending)
  pub positive : pos 0 <ℤ amount
  pub within : row.refunded_amount +ℤ amount ≤ℤ row.amount
  pub refunds : e.refunds ≡ d.refunds ++ r ∷ []
  pub of_payment : r.payment_id ≡ row.id
  pub of_amount : r.amount ≡ amount
  pub p : Payment
  pub stored : payment_row row.id e ≡ some p
  pub next : IsLess row p amount
  pub others : (j : Uuid) → j ≢ row.id → payment_row j e ≡ payment_row j d
  pub balances :
      (b : Uuid)
      → balance_of b e ≡ balance_of b d +ℤ transferred row.payee_account row.payer_account amount b
  pub event : Outbox
  pub outbox : e.outbox ≡ d.outbox ++ event ∷ []
  pub event_type : event.event_type ≡ "refund.completed"
  pub aggregate : event.aggregate_id ≡ r.id
  pub accounts : e.accounts ≡ d.accounts
  pub webhook_events : e.webhook_events ≡ d.webhook_events

is_refundable-eq :
    (s : PaymentStatus)
    → is_refundable s ≡ true
    → (s ≡ PaymentStatus.succeeded) ⊎ (s ≡ PaymentStatus.refund_pending)
is_refundable-eq s h = ground arith

remaining_equal : (a b : ℤ) → a ≡ b → eq_ℤ a b ≡ true
remaining_equal a b h = rw h ((==_iff (pos_part b + neg_part b) (pos_part b + neg_part b)).1 refl)

remaining_unequal : (a b : ℤ) → a ≢ b → eq_ℤ a b ≡ false
remaining_unequal a b h = elim (Bool-cases (eq_ℤ a b)) [
  | inl same ↦ absurd (h (eq_of_parts a b (ground arith)))
  | inr other ↦ other
]

refunded-IsLess : (row : Payment) (amount : ℤ) (t : ℕ) → IsLess row (refunded amount t row) amount
refunded-IsLess row amount t = record {
  refunded_amount = refl;
  all = λ h. rw (remaining_equal (row.refunded_amount +ℤ amount) row.amount h) refl;
  part = λ h. rw (remaining_unequal (row.refunded_amount +ℤ amount) row.amount h) refl;
  version = refl;
  amount_lem = refl;
  payer_account = refl;
  payee_account = refl;
}

IsRefunded-IsPaidOut :
    (row : Payment) (amount : ℤ) (r : Refund) (d e : Database) (id : Uuid)
    → payment_row id d ≡ some row
    → IsRefunded row amount r d e
    → IsPaidOut row amount r d e
IsRefunded-IsPaidOut row amount r d e id found done =
    let here : row.id ≡ id = key-find payment_key id row d.payments found in
    let itself : payment_row row.id d ≡ some row = ap (λ k. payment_row k d) here ∙ found in
    record {
      refundable = is_refundable-eq row.status done.refundable;
      positive = done.positive;
      within = done.within;
      refunds = done.refunds;
      of_payment = done.of_payment;
      of_amount = done.of_amount;
      p = refunded amount done.t row;
      stored =
          ap (find payment_key row.id) done.payments
          ∙ find-modify_self payment_key row.id (refunded amount done.t) row d.payments (λ x. refl)
              itself;
      next = refunded-IsLess row amount done.t;
      others = λ j ne.
          ap (find payment_key j) done.payments
          ∙ find-modify_ne payment_key j row.id (refunded amount done.t) d.payments (λ x. refl) ne;
      balances = λ b.
          done.recorded.balances b
          ∙ ap (λ x. balance_of b d +ℤ x)
              (movement-transfer row.payee_account row.payer_account b amount);
      event = done.event;
      outbox = done.outbox;
      event_type = done.event_type;
      aggregate = done.aggregate;
      accounts = done.accounts;
      webhook_events = done.webhook_events;
    }

module _ (env : Environment) (key : String) (id : Uuid) (amount : ℤ) where
  -- A refund that returns was allowed: the payment was SUCCEEDED or REFUND_PENDING, and the amount
  -- positive and at most what was left. The answer is 201 with the refund, whose row is added. Of
  -- the payment the refunded amount has grown by the amount and the version by one; it is REFUNDED if
  -- nothing is left, and in the status that it had otherwise; no other payment has changed. For every
  -- account, the balance has changed by the amount, up if it is the payer and down if it is the payee.
  -- One event was added to the outbox, `refund.completed`; accounts and webhook events are as they
  -- were.
  pub refund-IsPaidOut :
      (answer : ℕ × RefundResponse) (w w' : World)
      → refund_payment env key id amount w ≡ (ok answer, w')
      → (row : Payment) × (r : Refund) × (payment_row id w.db ≡ some row)
        × (answer ≡ (201, refund_response r))
        × IsPaidOut row amount r w.db w'.db
  refund-IsPaidOut answer w w' h =
      let (row, r, found, reply, done) = refund-IsRefunded env key id amount answer w w' h in
      (row, r, found, reply, IsRefunded-IsPaidOut row amount r w.db w'.db id found done)
