-- ===== src/Refunds/Effects.antt =====
-- What a refund that returns has done.
use apex_payments_engine.Prelude.{
  ℕ, suc, ◌≡◌, inl, inr, refl, sym, ap, ◌∙◌, subst, String, true, none, some, List, [], ◌∷◌, ◌++◌,
  arith, Option-cases,
}
use apex_payments_engine.Prelude.Int.{ℤ, pos, ◌+ℤ◌, ◌<ℤ◌, ◌≤ℤ◌}
use apex_payments_engine.Prelude.Table.{modify}
use apex_payments_engine.Domain.Enums.{TransactionType, is_refundable}
use apex_payments_engine.Domain.Exceptions.{Uuid, Time}
use apex_payments_engine.Schemas.{RefundResponse, refund_body}
use apex_payments_engine.Domain.Models.{LedgerTransaction, Payment, Refund, Outbox, Database}
use apex_payments_engine.Session.{Environment, World, ok, ◌>>=◌, ◌>>◌, pure}
use apex_payments_engine.Session.Ensures.{>>=-eq-ok, pure-eq-ok}
use apex_payments_engine.Ledger.{post}
use apex_payments_engine.Ledger.Frame.{post-SameOutside}
use apex_payments_engine.Ledger.Post.{IsRecorded, post-IsRecorded}
use apex_payments_engine.Idempotency.{complete}
use apex_payments_engine.Idempotency.Claims.{complete-keeps}
use apex_payments_engine.Saga.{payment_key, payment_row, load_payment, emit, set_payment, add_event}
use apex_payments_engine.Refunds.{
  refunded, refund_postings, refund_row, refund_payload, refund_response, add_refund,
  check_refundable, record_refund, post_refund, refund_payment,
}

-- The tables after a refund of `amount` of the payment `row`.
pub record IsRefunded (row : Payment) (amount : ℤ) (r : Refund) (d e : Database) : Type 0 where
  pub t : Time
  pub refundable : is_refundable row.status ≡ true
  pub positive : pos 0 <ℤ amount
  pub within : row.refunded_amount +ℤ amount ≤ℤ row.amount
  pub of_payment : r.payment_id ≡ row.id
  pub of_amount : r.amount ≡ amount
  pub refunds : e.refunds ≡ d.refunds ++ r ∷ []
  pub payments : e.payments ≡ modify payment_key row.id (refunded amount t) d.payments
  pub txn : LedgerTransaction
  pub recorded : IsRecorded txn TransactionType.refund r.id (refund_postings row amount) d e
  pub event : Outbox
  pub outbox : e.outbox ≡ d.outbox ++ event ∷ []
  pub event_type : event.event_type ≡ "refund.completed"
  pub aggregate : event.aggregate_id ≡ r.id
  pub accounts : e.accounts ≡ d.accounts
  pub webhook_events : e.webhook_events ≡ d.webhook_events

-- The postings and the event of a refund, and the tables that they leave alone.
record IsPaidBack (row : Payment) (amount : ℤ) (r : Refund) (d e : Database) : Type 0 where
  txn : LedgerTransaction
  recorded : IsRecorded txn TransactionType.refund r.id (refund_postings row amount) d e
  refunds : e.refunds ≡ d.refunds
  payments : e.payments ≡ d.payments
  event : Outbox
  outbox : e.outbox ≡ d.outbox ++ event ∷ []
  event_type : event.event_type ≡ "refund.completed"
  aggregate : event.aggregate_id ≡ r.id
  accounts : e.accounts ≡ d.accounts
  webhook_events : e.webhook_events ≡ d.webhook_events

module _ (env : Environment) (key : String) (id : Uuid) (amount : ℤ) where
  abbrev pub recorded_at : Payment → World → Refund
  recorded_at row w = refund_row (env.uuid4 w.calls) row.id amount (env.now (suc w.calls))

  abbrev pub world_at : Payment → World → World
  world_at row w = record {
    db =
        set_payment row.id (refunded amount (env.now (suc (suc w.calls))))
          (add_refund (recorded_at row w) w.db);
    calls = suc (suc (suc w.calls));
  }

  -- The guards have passed, and the rows are written before the postings.
  pub refund_payment-loads :
      (answer : ℕ × RefundResponse) (w w' : World)
      → refund_payment env key id amount w ≡ (ok answer, w')
      → (row : Payment) × (payment_row id w.db ≡ some row)
        × (is_refundable row.status ≡ true)
        × (row.refunded_amount +ℤ amount ≤ℤ row.amount)
        × (post_refund env key row amount (recorded_at row w) (world_at row w) ≡ (ok answer, w'))
  unfolding refund_payment load_payment check_refundable record_refund ◌>>=◌
  refund_payment-loads answer w w' h = elim (Option-cases (payment_row id w.db)) [
    | inl missing ↦ absurd (ground arith)
    | inr (row, found) ↦ (row, found, ground arith, ground arith, ground arith)
  ]

  emit_and_complete :
      (r : Refund) (answer : ℕ × RefundResponse) (w w' : World)
      → (emit env "refund" r.id "refund.completed" (refund_payload r)
            >> (complete env "merchant_refund" key r.id 201 (refund_body (refund_response r))
                >> pure (201, refund_response r)))
          w
        ≡ (ok answer, w')
      → (ev : Outbox) × (answer ≡ (201, refund_response r))
        × (ev.event_type ≡ "refund.completed")
        × (ev.aggregate_id ≡ r.id)
        × (w'.outbox ≡ w.outbox ++ ev ∷ [])
        × (w'.db ≡ record w.db { outbox = w'.outbox; idempotency_keys = w'.idempotency_keys })
  unfolding emit ◌>>=◌
  emit_and_complete r answer w w' h =
      let ev : Outbox = record {
        id = env.uuid4 w.calls;
        aggregate_type = "refund";
        aggregate_id = r.id;
        event_type = "refund.completed";
        payload = refund_payload r;
        created_at = env.now (suc w.calls);
        published_at = none;
      } in
      let u : World = record { db = add_event ev w.db; calls = suc (suc w.calls) } in
      let saved = refund_body (refund_response r) in
      let (x, v, e, e') =
        >>=-eq-ok (complete env "merchant_refund" key r.id 201 saved)
          (λ _. pure (201, refund_response r)) u w' h in
      let same = pure-eq-ok (201, refund_response r) answer v w' e' in
      let kept : w'.db ≡ record u.db { idempotency_keys = w'.idempotency_keys } =
        subst (λ (y : World). y.db ≡ record u.db { idempotency_keys = y.idempotency_keys }) same.1
          (complete-keeps env "merchant_refund" key r.id 201 saved u v e) in
      let outbox : w'.outbox ≡ w.outbox ++ ev ∷ [] = ap (λ (d : Database). d.outbox) kept in
      (
        ev,
        sym same.0,
        refl,
        refl,
        outbox,
        kept
            ∙ ap (λ o. record w.db { outbox = o; idempotency_keys = w'.idempotency_keys })
                (sym outbox),
      )

  post_refund-eq-ok :
      (row : Payment) (r : Refund) (answer : ℕ × RefundResponse) (w w' : World)
      → post_refund env key row amount r w ≡ (ok answer, w')
      → (answer ≡ (201, refund_response r)) × IsPaidBack row amount r w.db w'.db
  unfolding post_refund
  post_refund-eq-ok row r answer w w' h =
      let ps = refund_postings row amount in
      let rest =
        emit env "refund" r.id "refund.completed" (refund_payload r)
        >> (complete env "merchant_refund" key r.id 201 (refund_body (refund_response r))
            >> pure {A = ℕ × RefundResponse} (201, refund_response r)) in
      let (txn, u, e, e') =
        >>=-eq-ok (post env TransactionType.refund r.id ps) (λ _. rest) w w' h in
      let p = post-IsRecorded env TransactionType.refund r.id ps w u txn e in
      let same = (post-SameOutside env TransactionType.refund r.id ps).at w u txn e in
      let (ev, reply, type, aggregate, outbox, kept) = emit_and_complete r answer u w' e' in
      (
        reply,
        subst (IsPaidBack row amount r w.db) (sym kept) (record {
          txn = txn;
          recorded = record {
            balanced = p.balanced;
            type = p.type;
            reference = p.reference;
            transactions = p.transactions;
            new = p.new;
            entries = p.entries;
            recorded = p.recorded;
            balances = p.balances;
            total_lem = p.total_lem;
            no_overdraft = p.no_overdraft;
            can = p.can;
          };
          refunds = same.refunds;
          payments = same.payments;
          event = ev;
          outbox = outbox ∙ ap (λ (l : List Outbox). l ++ ev ∷ []) same.outbox;
          event_type = type;
          aggregate = aggregate;
          accounts = same.accounts;
          webhook_events = same.webhook_events;
        }),
      )

  -- A refund that returns was allowed: the payment was refundable and the amount positive and at
  -- most what was left. The answer is 201 with the refund, whose row is added; the payment's
  -- refunded amount has grown by the amount, and the payment is REFUNDED if nothing is left; the
  -- amount has moved from the payee to the payer, and `refund.completed` is in the outbox.
  pub refund-IsRefunded :
      (answer : ℕ × RefundResponse) (w w' : World)
      → refund_payment env key id amount w ≡ (ok answer, w')
      → (row : Payment) × (r : Refund) × (payment_row id w.db ≡ some row)
        × (answer ≡ (201, refund_response r))
        × IsRefunded row amount r w.db w'.db
  refund-IsRefunded answer w w' h =
      let (row, found, refundable, within, h') = refund_payment-loads answer w w' h in
      let r = recorded_at row w in
      let (reply, done) = post_refund-eq-ok row r answer (world_at row w) w' h' in
      let p = done.recorded in
      (
        row,
        r,
        found,
        reply,
        record {
          t = env.now (suc (suc w.calls));
          refundable = refundable;
          positive = p.balanced.positive.0;
          within = within;
          of_payment = refl;
          of_amount = refl;
          refunds = done.refunds;
          payments = done.payments;
          txn = done.txn;
          recorded = record {
            balanced = p.balanced;
            type = p.type;
            reference = p.reference;
            transactions = p.transactions;
            new = p.new;
            entries = p.entries;
            recorded = p.recorded;
            balances = p.balances;
            total_lem = p.total_lem;
            no_overdraft = p.no_overdraft;
            can = p.can;
          };
          event = done.event;
          outbox = done.outbox;
          event_type = done.event_type;
          aggregate = done.aggregate;
          accounts = done.accounts;
          webhook_events = done.webhook_events;
        },
      )
