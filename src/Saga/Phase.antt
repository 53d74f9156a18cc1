-- ===== src/Saga/Phase.antt =====
-- The common end of the phases of the saga: what the postings, the event and the flush have done.
use apex_payments_engine.Prelude.{
  suc, ◌≡◌, refl, sym, ap, subst, String, none, List, [], ◌∷◌, ◌++◌, arith,
}
use apex_payments_engine.Domain.Enums.{TransactionType}
use apex_payments_engine.Domain.Exceptions.{Uuid}
use apex_payments_engine.Domain.Models.{LedgerTransaction, Payment, Outbox, EventPayload, Database}
use apex_payments_engine.Session.{Environment, World, ok, pure, ◌>>=◌, ◌>>◌, flush}
use apex_payments_engine.Session.Ensures.{>>=-eq-ok}
use apex_payments_engine.Ledger.{Posting, post}
use apex_payments_engine.Ledger.Frame.{post-SameOutside}
use apex_payments_engine.Ledger.Post.{IsRecorded, post-IsRecorded}
use apex_payments_engine.Saga.{add_event, emit, post_and_emit}

-- The postings are recorded, the payments are `payments`, one event is added to the outbox, and
-- the other tables are as they were.
pub record IsTransition (ref : Uuid) (kind : TransactionType) (ps : List Posting)
    (event_type : String) (payload : EventPayload) (payments : List Payment) (d e : Database)
    : Type 0 where
  pub txn : LedgerTransaction
  pub recorded : IsRecorded txn kind ref ps d e
  pub payments_lem : e.payments ≡ payments
  pub event : Outbox
  pub outbox : e.outbox ≡ d.outbox ++ event ∷ []
  pub aggregate : event.aggregate_id ≡ ref
  pub type : event.event_type ≡ event_type
  pub payload_lem : event.payload ≡ payload
  pub unpublished : event.published_at ≡ none
  pub accounts : e.accounts ≡ d.accounts
  pub refunds : e.refunds ≡ d.refunds
  pub idempotency_keys : e.idempotency_keys ≡ d.idempotency_keys
  pub webhook_events : e.webhook_events ≡ d.webhook_events

module _ (env : Environment) where
  emit-eq-ok :
      (aggregate event_type : String) (id : Uuid) (payload : EventPayload) (p q : Payment)
      (w w' : World)
      → (emit env aggregate id event_type payload >> (flush env >> pure p)) w ≡ (ok q, w')
      → (ev : Outbox) × (p ≡ q)
        × (w'.db ≡ add_event ev w.db)
        × (ev.aggregate_id ≡ id)
        × (ev.event_type ≡ event_type)
        × (ev.payload ≡ payload)
        × (ev.published_at ≡ none)
  unfolding emit ◌>>=◌
  emit-eq-ok aggregate event_type id payload p q w w' h =
      let ev : Outbox = record {
        id = env.uuid4 w.calls;
        aggregate_type = aggregate;
        aggregate_id = id;
        event_type = event_type;
        payload = payload;
        created_at = env.now (suc w.calls);
        published_at = none;
      } in
      (ev, ground arith, ground arith, refl, refl, refl, refl)

  -- The common end, from any state of the tables.
  pub post_and_emit-IsTransition :
      (kind : TransactionType) (ps : List Posting) (event_type : String) (payload : EventPayload)
      (p q : Payment) (w w' : World)
      → post_and_emit env kind ps event_type payload p w ≡ (ok q, w')
      → (p ≡ q) × IsTransition p.id kind ps event_type payload w.payments w.db w'.db
  unfolding post_and_emit
  post_and_emit-IsTransition kind ps event_type payload p q w w' h =
      let rest = emit env "payment" p.id event_type payload >> (flush env >> pure p) in
      let (txn, u, e, e') = >>=-eq-ok (post env kind p.id ps) (λ _. rest) w w' h in
      let r = post-IsRecorded env kind p.id ps w u txn e in
      let same = (post-SameOutside env kind p.id ps).at w u txn e in
      let ev = emit-eq-ok "payment" event_type p.id payload p q u w' e' in
      (
        ev.1,
        subst (IsTransition p.id kind ps event_type payload w.payments w.db) (sym ev.2) (record {
          txn = txn;
          recorded = record {
            balanced = r.balanced;
            type = r.type;
            reference = r.reference;
            transactions = r.transactions;
            new = r.new;
            entries = r.entries;
            recorded = r.recorded;
            balances = r.balances;
            total_lem = r.total_lem;
            no_overdraft = r.no_overdraft;
            can = r.can;
          };
          payments_lem = same.payments;
          event = ev.0;
          outbox = ap (λ (l : List Outbox). l ++ ev.0 ∷ []) same.outbox;
          aggregate = ev.3;
          type = ev.4;
          payload_lem = ev.5;
          unpublished = ev.6;
          accounts = same.accounts;
          refunds = same.refunds;
          idempotency_keys = same.idempotency_keys;
          webhook_events = same.webhook_events;
        }),
      )

-- Only the payments differ in where the phase starts.
pub from_payments :
    (ref : Uuid) (kind : TransactionType) (ps : List Posting) (event_type : String)
    (payload : EventPayload) (xs : List Payment) (d e : Database)
    → IsTransition ref kind ps event_type payload xs (record d { payments = xs }) e
    → IsTransition ref kind ps event_type payload xs d e
from_payments ref kind ps event_type payload xs d e h =
    let r = h.recorded in
    record {
      txn = h.txn;
      recorded = record {
        balanced = r.balanced;
        type = r.type;
        reference = r.reference;
        transactions = r.transactions;
        new = r.new;
        entries = r.entries;
        recorded = r.recorded;
        balances = r.balances;
        total_lem = r.total_lem;
        no_overdraft = r.no_overdraft;
        can = r.can;
      };
      payments_lem = h.payments_lem;
      event = h.event;
      outbox = h.outbox;
      aggregate = h.aggregate;
      type = h.type;
      payload_lem = h.payload_lem;
      unpublished = h.unpublished;
      accounts = h.accounts;
      refunds = h.refunds;
      idempotency_keys = h.idempotency_keys;
      webhook_events = h.webhook_events;
    }
