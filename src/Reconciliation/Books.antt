-- ===== src/Reconciliation/Books.antt =====
-- What agrees in the journal and the balances, and what keeps it so.
use apex_payments_engine.Prelude.{
  ℕ, suc, ◌≡◌, refl, sym, ap, ◌∙◌, subst, String, Option, none, some, List, [], ◌∷◌, ◌++◌, All,
  arith,
}
use apex_payments_engine.Prelude.Int.{ℤ, ◌+ℤ◌, ◌-ℤ◌, int_laws}
use apex_payments_engine.Domain.Enums.{TransactionType}
use apex_payments_engine.Domain.Exceptions.{Uuid}
use apex_payments_engine.Domain.Models.{Payment, EventPayload, Database}
use apex_payments_engine.Session.{Environment}
use apex_payments_engine.Session.Ensures.{IsPreorder, Ensures, Ensures-bind, ensures_rules}
use apex_payments_engine.Ledger.{Posting, post}
use apex_payments_engine.Ledger.Postings.{balance_of}
use apex_payments_engine.Ledger.Balances.{total, NoOverdraft, movement}
use apex_payments_engine.Ledger.Validation.{debits, credits}
use apex_payments_engine.Ledger.Post.{post-IsRecorded}
use apex_payments_engine.Saga.{emit, load_payment, post_and_emit, hold, settle, reverse}
use apex_payments_engine.Reconciliation.{
  ledger_net, computed_balance, reverse_each, expire_stale_holds,
}
use apex_payments_engine.Reconciliation.Audit.{
  ledger_net-append, computed_balance-append, ledger_net-Records, computed_balance-Records,
}

-- What the balance of an account is off the sum of its entries.
abbrev pub drift : Uuid → Database → ℤ
drift a d = balance_of a d -ℤ computed_balance a d.entries

-- The net of the journal and the drift of each account are the same, no money is made or lost, and
-- no account is overdrawn that was not.
pub record KeepsBooks (d e : Database) : Type 0 where
  pub net : ledger_net e.entries ≡ ledger_net d.entries
  pub drifts : (a : Uuid) → drift a e ≡ drift a d
  pub money : total e ≡ total d
  pub no_overdraft : NoOverdraft d → NoOverdraft e

pub KeepsBooks-preorder : IsPreorder KeepsBooks
KeepsBooks-preorder = record {
  here = λ d. record { net = refl; drifts = λ a. refl; money = refl; no_overdraft = λ h. h };
  step = λ d e f h k. record {
    net = k.net ∙ h.net;
    drifts = λ a. k.drifts a ∙ h.drifts a;
    money = k.money ∙ h.money;
    no_overdraft = λ n. k.no_overdraft (h.no_overdraft n);
  };
}

-- A write to another table.
pub same_books : (d e : Database) → e.balances ≡ d.balances → e.entries ≡ d.entries → KeepsBooks d e
same_books d e balances entries = record {
  net = ap ledger_net entries;
  drifts = λ a. rw (balances, entries) refl;
  money = rw balances refl;
  no_overdraft = λ h. rw balances h;
}

same_net : (a b x y : ℤ) → a ≡ b +ℤ (x -ℤ y) → x ≡ y → a ≡ b
same_net a b x y e h = rw (e, h) (omega int_laws)

same_drift : (a b x y m : ℤ) → a ≡ x +ℤ m → b ≡ y +ℤ m → a -ℤ b ≡ x -ℤ y
same_drift a b x y m e h = rw (e, h) (omega int_laws)

module _ (env : Environment) where
  pub post-KeepsBooks :
      (kind : TransactionType) (ref : Uuid) (ps : List Posting)
      → Ensures KeepsBooks (post env kind ref ps)
  post-KeepsBooks kind ref ps = record {
    at = λ w w' txn h.
        let r = post-IsRecorded env kind ref ps w w' txn h in
        record {
          net =
              same_net (ledger_net w'.entries) (ledger_net w.entries) (debits ps) (credits ps)
                (ap ledger_net r.entries
                  ∙ ledger_net-append w.entries r.new
                  ∙ ap (λ x. ledger_net w.entries +ℤ x)
                      (ledger_net-Records txn.id ps r.new r.recorded))
                r.balanced.equal_sums;
          drifts = λ a.
              same_drift (balance_of a w'.db) (computed_balance a w'.entries) (balance_of a w.db)
                (computed_balance a w.entries) (movement a ps) (r.balances a)
                (ap (computed_balance a) r.entries
                  ∙ computed_balance-append a w.entries r.new
                  ∙ ap (λ x. computed_balance a w.entries +ℤ x)
                      (computed_balance-Records a txn.id ps r.new r.recorded));
          money = r.total_lem;
          no_overdraft = r.no_overdraft;
        };
  }

pub ruleset books_rules = (KeepsBooks-preorder, ensures_rules, same_books, refl, post-KeepsBooks)

module _ (env : Environment) where
  pub emit-KeepsBooks :
      (aggregate : String) (id : Uuid) (event_type : String) (payload : EventPayload)
      → Ensures KeepsBooks (emit env aggregate id event_type payload)
  unfolding emit
  emit-KeepsBooks aggregate id event_type payload = search books_rules depth 9

  pub load_payment-KeepsBooks : (id : Uuid) → Ensures KeepsBooks (load_payment env id)
  unfolding load_payment
  load_payment-KeepsBooks id = search books_rules depth 7

  pub post_and_emit-KeepsBooks :
      (kind : TransactionType) (ps : List Posting) (event_type : String) (payload : EventPayload)
      (p : Payment)
      → Ensures KeepsBooks (post_and_emit env kind ps event_type payload p)
  unfolding post_and_emit
  post_and_emit-KeepsBooks kind ps event_type payload p =
      search (books_rules, emit-KeepsBooks) depth 9

  pub hold-KeepsBooks : (p : Payment) → Ensures KeepsBooks (hold env p)
  unfolding hold
  hold-KeepsBooks p = search (books_rules, post_and_emit-KeepsBooks) depth 9

  pub settle-KeepsBooks : (id : Uuid) (ref : String) → Ensures KeepsBooks (settle env id ref)
  unfolding settle
  settle-KeepsBooks id ref =
      search (books_rules, load_payment-KeepsBooks, post_and_emit-KeepsBooks) depth 9

  pub reverse-KeepsBooks : (id : Uuid) → Ensures KeepsBooks (reverse env id)
  unfolding reverse
  reverse-KeepsBooks id =
      search (books_rules, load_payment-KeepsBooks, post_and_emit-KeepsBooks) depth 9

  reverse_each-KeepsBooks :
      (count : ℕ) (ps : List Payment) → Ensures KeepsBooks (reverse_each env count ps)
  unfolding reverse_each
  reverse_each-KeepsBooks count [] = search books_rules
  reverse_each-KeepsBooks count (p ∷ ps) =
      Ensures-bind KeepsBooks-preorder (reverse env p.id) (λ _. reverse_each env (suc count) ps)
        (reverse-KeepsBooks p.id) (λ _. reverse_each-KeepsBooks (suc count) ps)

  pub expire_stale_holds-KeepsBooks :
      (timeout_minutes : ℕ) → Ensures KeepsBooks (expire_stale_holds env timeout_minutes)
  unfolding expire_stale_holds
  expire_stale_holds-KeepsBooks timeout_minutes =
      search (books_rules, reverse_each-KeepsBooks) depth 9
