-- ===== src/Ledger/Post.antt =====
-- `LedgerService.post`: what a call that returns has done to the ledger.
use mathlib.Core.Path.{fun_ext}
use apex_payments_engine.Prelude.{
  ◌≡◌, refl, sym, ap, ◌∙◌, subst, Option, none, some, List, [], ◌∷◌, ◌++◌, arith, All, All-append,
}
use apex_payments_engine.Prelude.Int.{ℤ, pos, ◌+ℤ◌, int_laws}
use apex_payments_engine.Prelude.Table.{find-append}
use apex_payments_engine.Domain.Enums.{TransactionType}
use apex_payments_engine.Domain.Exceptions.{Uuid}
use apex_payments_engine.Domain.Models.{AccountBalance, LedgerTransaction, LedgerEntry, Database}
use apex_payments_engine.Session.{Environment, World, ok, ◌>>=◌, ◌>>◌, lift, flush, pure}
use apex_payments_engine.Session.Ensures.{
  >>=-eq-ok, lift-eq-ok, IsPreorder, Ensures, Ensures-bind, ensures_rules,
}
use apex_payments_engine.Ledger.{
  Posting, balance_key, add_balance_row, add_transaction, validate_balanced, sorted_account_ids,
  init_balance, lock_balance, lock_balances, apply_postings, create_transaction, post_entries, post,
}
use apex_payments_engine.Ledger.Validation.{IsPositive, IsBalanced, IsBalanced-of_ok}
use apex_payments_engine.Ledger.Postings.{balance_of}
use apex_payments_engine.Ledger.Balances.{
  movement, total, sum_balances, IsNonneg, NoOverdraft, CanApply,
}
use apex_payments_engine.Ledger.Applied.{Records, IsApplied, apply_postings-IsApplied}

-- New rows with the balance 0 change no balance.
pub record IsLocked (d e : Database) : Type 0 where
  pub entries : e.entries ≡ d.entries
  pub transactions : e.transactions ≡ d.transactions
  pub balances : (b : Uuid) → balance_of b e ≡ balance_of b d
  pub total_lem : total e ≡ total d
  pub no_overdraft : NoOverdraft d → NoOverdraft e

IsLocked-preorder : IsPreorder IsLocked
IsLocked-preorder = record {
  here = λ d. record {
    entries = refl;
    transactions = refl;
    balances = λ b. refl;
    total_lem = refl;
    no_overdraft = λ h. h;
  };
  step = λ d e f h k. record {
    entries = k.entries ∙ h.entries;
    transactions = k.transactions ∙ h.transactions;
    balances = λ b. k.balances b ∙ h.balances b;
    total_lem = k.total_lem ∙ h.total_lem;
    no_overdraft = λ n. k.no_overdraft (h.no_overdraft n);
  };
}

sum_balances-append :
    (r : AccountBalance) (rs : List AccountBalance)
    → sum_balances (rs ++ r ∷ []) ≡ sum_balances rs +ℤ r.balance
sum_balances-append r [] = omega int_laws
sum_balances-append r (x ∷ rs) = rw (sum_balances-append r rs) (omega int_laws)

add_balance_row-IsLocked :
    (r : AccountBalance) (d : Database) → r.balance ≡ pos 0 → IsLocked d (add_balance_row r d)
add_balance_row-IsLocked r d zero = record {
  entries = refl;
  transactions = refl;
  balances = λ b. rw (find-append balance_key b r d.balances) (ground arith);
  total_lem = sum_balances-append r d.balances ∙ rw zero (omega int_laws);
  no_overdraft = λ h. All-append IsNonneg d.balances (r ∷ []) h (rw zero (omega arith), tt);
}

ruleset lock_rules = (IsLocked-preorder, ensures_rules, add_balance_row-IsLocked, refl)

module _ (env : Environment) where
  init_balance-IsLocked :
      (a : Uuid) (row : Option AccountBalance) → Ensures IsLocked (init_balance env a row)
  unfolding init_balance
  init_balance-IsLocked a (some row) = search lock_rules
  init_balance-IsLocked a none = search lock_rules depth 7

  lock_balance-IsLocked : (a : Uuid) → Ensures IsLocked (lock_balance env a)
  unfolding lock_balance
  lock_balance-IsLocked a = search (lock_rules, init_balance-IsLocked)

  pub lock_balances-IsLocked : (ids : List Uuid) → Ensures IsLocked (lock_balances env ids)
  unfolding lock_balances
  lock_balances-IsLocked [] = search lock_rules
  lock_balances-IsLocked (a ∷ ids) =
      Ensures-bind IsLocked-preorder (lock_balance env a) (λ _. lock_balances env ids)
        (lock_balance-IsLocked a) (λ _. lock_balances-IsLocked ids)

-- What `post` has done when it returns the transaction `txn`.
pub record IsRecorded (txn : LedgerTransaction) (kind : TransactionType) (ref : Uuid)
    (ps : List Posting) (d e : Database) : Type 0 where
  pub balanced : IsBalanced ps
  pub type : txn.type ≡ kind
  pub reference : txn.reference_id ≡ ref
  pub transactions : e.transactions ≡ d.transactions ++ txn ∷ []
  pub new : List LedgerEntry
  pub entries : e.entries ≡ d.entries ++ new
  pub recorded : Records txn.id ps new
  pub balances : (b : Uuid) → balance_of b e ≡ balance_of b d +ℤ movement b ps
  pub total_lem : total e ≡ total d
  pub no_overdraft : NoOverdraft d → NoOverdraft e
  pub can : CanApply (λ a. balance_of a d) ps

recorded :
    (kind : TransactionType) (ref : Uuid) (ps : List Posting) (txn : LedgerTransaction)
    (c d e f : Database)
    → IsBalanced ps
    → (txn.type ≡ kind) × (txn.reference_id ≡ ref) × (d ≡ add_transaction txn c)
    → IsLocked d e
    → IsApplied txn.id ps e f
    → IsRecorded txn kind ref ps c f
recorded kind ref ps txn c d e f balanced made locked applied = record {
  balanced = balanced;
  type = made.0;
  reference = made.1;
  transactions =
      applied.transactions ∙ locked.transactions ∙ ap (λ (x : Database). x.transactions) made.2;
  new = applied.new;
  entries =
      applied.entries
      ∙ ap (λ (x : List LedgerEntry). x ++ applied.new)
          (locked.entries ∙ ap (λ (x : Database). x.entries) made.2);
  recorded = applied.recorded;
  balances = λ b.
      applied.balances b
      ∙ ap (λ (x : ℤ). x +ℤ movement b ps)
          (locked.balances b ∙ ap (λ (x : Database). balance_of b x) made.2);
  total_lem =
      applied.total_lem
      ∙ rw (locked.total_lem ∙ ap total made.2, balanced.equal_sums) (omega int_laws);
  no_overdraft = λ h. applied.no_overdraft (locked.no_overdraft (rw made.2 h));
  can =
      subst (λ b. CanApply b ps)
        (fun_ext λ a. locked.balances a ∙ ap (λ (x : Database). balance_of a x) made.2) applied.can;
}

module _ (env : Environment) where
  pub create_transaction-eq-ok :
      (kind : TransactionType) (ref : Uuid) (w w' : World) (txn : LedgerTransaction)
      → create_transaction env kind ref w ≡ (ok txn, w')
      → (txn.type ≡ kind) × (txn.reference_id ≡ ref) × (w'.db ≡ add_transaction txn w.db)
  unfolding create_transaction ◌>>=◌
  create_transaction-eq-ok kind ref w w' txn h = ground arith

  flush-eq-ok :
      (a b : LedgerTransaction) (w w' : World)
      → (flush env >> pure a) w ≡ (ok b, w')
      → (a ≡ b) × (w.db ≡ w'.db)
  unfolding ◌>>=◌
  flush-eq-ok a b w w' h = ground arith

  -- The entries are written and the balances moved; the same transaction is returned.
  post_entries-eq-ok :
      (ps : List Posting) (a b : LedgerTransaction) (w w' : World)
      → All IsPositive ps
      → post_entries env ps a w ≡ (ok b, w')
      → (c : Database) × (a ≡ b) × IsLocked w.db c × IsApplied a.id ps c w'.db
  unfolding post_entries
  post_entries-eq-ok ps a b w w' positive h =
      let rest = flush env >> pure a in
      let body = apply_postings env a.id ps >> rest in
      let l = >>=-eq-ok (lock_balances env (sorted_account_ids ps)) (λ _. body) w w' h in
      let p = >>=-eq-ok (apply_postings env a.id ps) (λ _. rest) l.1 w' l.3 in
      let f = flush-eq-ok a b p.1 w' p.3 in
      (
        l.1.db,
        f.0,
        (lock_balances-IsLocked env (sorted_account_ids ps)).at w l.1 tt l.2,
        subst (IsApplied a.id ps l.1.db) f.1
            (apply_postings-IsApplied env a.id ps l.1 p.1 positive p.2),
      )

  -- A `post` that returns has recorded balanced postings: one transaction and one entry for each
  -- posting are appended, each balance has moved by the postings to its account, the sum of all
  -- balances is the same, and no balance is negative if none was before.
  pub post-IsRecorded :
      (kind : TransactionType) (ref : Uuid) (ps : List Posting) (w w' : World)
      (txn : LedgerTransaction)
      → post env kind ref ps w ≡ (ok txn, w')
      → IsRecorded txn kind ref ps w.db w'.db
  unfolding post
  post-IsRecorded kind ref ps w w' txn h =
      let body = λ (t : LedgerTransaction). post_entries env ps t in
      let create = create_transaction env kind ref in
      let v = >>=-eq-ok (lift (validate_balanced ps)) (λ _. create >>= body) w w' h in
      let valid = lift-eq-ok (validate_balanced ps) tt w v.1 v.2 in
      let c = >>=-eq-ok create body v.1 w' v.3 in
      let made = create_transaction-eq-ok kind ref v.1 c.1 c.0 c.2 in
      let balanced = IsBalanced-of_ok ps valid.0 in
      let p = post_entries-eq-ok ps c.0 txn c.1 w' balanced.positive c.3 in
      let done = recorded kind ref ps c.0 v.1.db c.1.db p.0 w'.db balanced made p.2 p.3 in
      subst (λ t. IsRecorded t kind ref ps w.db w'.db) p.1
        (subst (λ (u : World). IsRecorded c.0 kind ref ps u.db w'.db) (sym valid.1) done)
