-- ===== src/Ledger/Overdraft.antt =====
-- The guard of `LedgerService.post` against an overdraft.
use apex_payments_engine.Prelude.{◌≡◌, refl, ap, ◌∙◌, some, List, ◌∷◌, arith}
use apex_payments_engine.Prelude.Int.{ℤ, ◌<ℤ◌}
use apex_payments_engine.Domain.Enums.{debit, TransactionType}
use apex_payments_engine.Domain.Exceptions.{Uuid, Error, domain, insufficient_funds}
use apex_payments_engine.Domain.Models.{AccountBalance, LedgerTransaction}
use apex_payments_engine.Session.{
  AcceptsAll, Environment, World, Result, err, Action, ◌>>=◌, ◌>>◌, lift, flush, pure,
}
use apex_payments_engine.Ledger.{
  Posting, balance_row, validate_balanced, sorted_account_ids, lock_balances, apply_to_balance,
  apply_posting, apply_postings, create_transaction, post_entries, post,
}
use apex_payments_engine.Ledger.Validation.{IsBalanced}
use apex_payments_engine.Ledger.Locks.{contains-sorted_account_ids}
use apex_payments_engine.Ledger.Postings.{balance_of}
use apex_payments_engine.Ledger.Post.{lock_balances-IsLocked}
use apex_payments_engine.Ledger.Success.{
  >>=-returns, lock_balances-Returns, create_transaction-Returns, validate-returns,
}
use apex_payments_engine.Ledger.Rows.{has_posting_self}

abbrev debit_of : Uuid → ℤ → Posting
debit_of a x = record { account_id = a; direction = debit; amount = x }

-- A debit of more than the row holds raises.
debit_raises :
    (env : Environment) (txn_id a : Uuid) (x : ℤ) (row : AccountBalance) (w : World)
    → balance_row a w.db ≡ some row
    → row.balance <ℤ x
    → (apply_posting env txn_id (debit_of a x) w).0
      ≡ err (domain (insufficient_funds a row.balance x))
unfolding apply_posting apply_to_balance ◌>>=◌
debit_raises env txn_id a x row w found short = ground arith

bind_raises :
    {A B : Type 0} (m : Action A) (f : A → Action B) (w : World) (e : Error)
    → (m w).0 ≡ err e
    → ((m >>= f) w).0 ≡ err e
unfolding ◌>>=◌
bind_raises m f w e h = rw h

module _ (env : Environment) (accepts : AcceptsAll env) (a : Uuid) (x : ℤ) (ps : List Posting) where
  abbrev all : List Posting
  all = debit_of a x ∷ ps

  entries_raise :
      (txn : LedgerTransaction) (w : World)
      → balance_of a w.db <ℤ x
      → (post_entries env all txn w).0 ≡ err (domain (insufficient_funds a (balance_of a w.db) x))
  unfolding post_entries apply_postings
  entries_raise txn w short =
      let ids = sorted_account_ids all in
      let rest = flush env >> pure txn in
      let (y, u, e, after) = lock_balances-Returns env accepts ids w in
      let locked = (lock_balances-IsLocked env ids).at w u y e in
      let row =
        after.0 a (contains-sorted_account_ids a all ∙ has_posting_self (debit_of a x) ps) in
      let same : row.0.balance ≡ balance_of a w.db = rw row.1 at (locked.balances a) in
      ap (λ (o : Result LedgerTransaction × World). o.0)
        (>>=-returns (lock_balances env ids) (λ _. apply_postings env txn.id all >> rest) w u y e)
      ∙ bind_raises (apply_postings env txn.id all) (λ _. rest) u
          (domain (insufficient_funds a (balance_of a w.db) x))
          (bind_raises (apply_posting env txn.id (debit_of a x)) (λ _. apply_postings env txn.id ps)
            u (domain (insufficient_funds a (balance_of a w.db) x))
            (debit_raises env txn.id a x row.0 u row.1 (rw same short)
              ∙ ap (λ b. err (domain (insufficient_funds a b x))) same))

  -- If the database takes every write, balanced postings that begin with a debit of more than the
  -- account's balance are refused, with the account, its balance and the amount in the exception.
  pub post-overdraft :
      (kind : TransactionType) (ref : Uuid) (w : World)
      → IsBalanced all
      → balance_of a w.db <ℤ x
      → (post env kind ref all w).0 ≡ err (domain (insufficient_funds a (balance_of a w.db) x))
  unfolding post
  post-overdraft kind ref w balanced short =
      let create = create_transaction env kind ref in
      let (txn, u, e, made) = create_transaction-Returns env accepts kind ref w in
      let same : balance_of a u.db ≡ balance_of a w.db = rw made refl in
      ap (λ (o : Result LedgerTransaction × World). o.0)
        (>>=-returns (lift (validate_balanced all)) (λ _. create >>= post_entries env all) w w tt
            (validate-returns env accepts all w balanced)
          ∙ >>=-returns create (post_entries env all) w u txn e)
      ∙ entries_raise txn u (rw same short)
      ∙ ap (λ b. err (domain (insufficient_funds a b x))) same
