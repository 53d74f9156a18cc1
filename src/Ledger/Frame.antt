-- ===== src/Ledger/Frame.antt =====
-- What `post` leaves alone: every table but the three of the ledger, and the entries there are.
use apex_payments_engine.Prelude.{◌≡◌, refl, ◌∙◌, Option, none, some, List, [], ◌∷◌}
use apex_payments_engine.Domain.Enums.{Direction, debit, credit, TransactionType}
use apex_payments_engine.Domain.Exceptions.{Uuid}
use apex_payments_engine.Domain.Models.{AccountBalance, Database}
use apex_payments_engine.Session.{Environment}
use apex_payments_engine.Session.Ensures.{IsPreorder, Ensures, Ensures-bind, ensures_rules}
use apex_payments_engine.Ledger.{
  Posting, init_balance, lock_balance, lock_balances, apply_to_balance, apply_posting,
  apply_postings, create_transaction, post_entries, post,
}

pub record SameOutside (d e : Database) : Type 0 where
  pub accounts : e.accounts ≡ d.accounts
  pub payments : e.payments ≡ d.payments
  pub refunds : e.refunds ≡ d.refunds
  pub idempotency_keys : e.idempotency_keys ≡ d.idempotency_keys
  pub outbox : e.outbox ≡ d.outbox
  pub webhook_events : e.webhook_events ≡ d.webhook_events

pub SameOutside-preorder : IsPreorder SameOutside
SameOutside-preorder = record {
  here = λ d. record {
    accounts = refl;
    payments = refl;
    refunds = refl;
    idempotency_keys = refl;
    outbox = refl;
    webhook_events = refl;
  };
  step = λ d e f h k. record {
    accounts = k.accounts ∙ h.accounts;
    payments = k.payments ∙ h.payments;
    refunds = k.refunds ∙ h.refunds;
    idempotency_keys = k.idempotency_keys ∙ h.idempotency_keys;
    outbox = k.outbox ∙ h.outbox;
    webhook_events = k.webhook_events ∙ h.webhook_events;
  };
}

ledger_write :
    (d e : Database)
    → e.accounts ≡ d.accounts
    → e.payments ≡ d.payments
    → e.refunds ≡ d.refunds
    → e.idempotency_keys ≡ d.idempotency_keys
    → e.outbox ≡ d.outbox
    → e.webhook_events ≡ d.webhook_events
    → SameOutside d e
ledger_write d e a p r i o w = record {
  accounts = a;
  payments = p;
  refunds = r;
  idempotency_keys = i;
  outbox = o;
  webhook_events = w;
}

ruleset frame_rules = (SameOutside-preorder, ensures_rules, ledger_write, refl)

module _ (env : Environment) where
  init_balance-SameOutside :
      (a : Uuid) (row : Option AccountBalance) → Ensures SameOutside (init_balance env a row)
  unfolding init_balance
  init_balance-SameOutside a (some row) = search frame_rules
  init_balance-SameOutside a none = search frame_rules depth 7

  lock_balance-SameOutside : (a : Uuid) → Ensures SameOutside (lock_balance env a)
  unfolding lock_balance
  lock_balance-SameOutside a = search (frame_rules, init_balance-SameOutside)

  lock_balances-SameOutside : (ids : List Uuid) → Ensures SameOutside (lock_balances env ids)
  unfolding lock_balances
  lock_balances-SameOutside [] = search frame_rules
  lock_balances-SameOutside (a ∷ ids) =
      Ensures-bind SameOutside-preorder (lock_balance env a) (λ _. lock_balances env ids)
        (lock_balance-SameOutside a) (λ _. lock_balances-SameOutside ids)

  apply_to_balance-SameOutside :
      (p : Posting) (dir : Direction) (bal : AccountBalance)
      → Ensures SameOutside (apply_to_balance env p dir bal)
  unfolding apply_to_balance
  apply_to_balance-SameOutside p debit bal = search frame_rules depth 7
  apply_to_balance-SameOutside p credit bal = search frame_rules

  apply_posting-SameOutside :
      (txn_id : Uuid) (p : Posting) → Ensures SameOutside (apply_posting env txn_id p)
  unfolding apply_posting
  apply_posting-SameOutside txn_id p = search (frame_rules, apply_to_balance-SameOutside) depth 12

  apply_postings-SameOutside :
      (txn_id : Uuid) (ps : List Posting) → Ensures SameOutside (apply_postings env txn_id ps)
  unfolding apply_postings
  apply_postings-SameOutside txn_id [] = search frame_rules
  apply_postings-SameOutside txn_id (p ∷ ps) =
      Ensures-bind SameOutside-preorder (apply_posting env txn_id p)
        (λ _. apply_postings env txn_id ps) (apply_posting-SameOutside txn_id p)
        (λ _. apply_postings-SameOutside txn_id ps)

  pub post-SameOutside :
      (t : TransactionType) (ref : Uuid) (ps : List Posting)
      → Ensures SameOutside (post env t ref ps)
  unfolding post create_transaction post_entries
  post-SameOutside t ref ps =
      search (frame_rules, lock_balances-SameOutside, apply_postings-SameOutside) depth 14
