-- ===== src/Ledger.antt =====
-- app/application/ledger_service.py: `LedgerService`, the double-entry bookkeeping.
pub mod Frame
pub mod Validation
pub mod Locks
pub mod Postings
pub mod Balances
pub mod Applied
pub mod Post
pub mod Rows
pub mod Success
pub mod Overdraft
pub mod Refinement
pub mod Waiting
pub mod Ordered
pub mod Deadlock
pub mod Completion
use apex_payments_engine.Prelude.{
  ◌+◌, ◌||◌, Option, none, some, List, [], ◌∷◌, ◌++◌, ltb, ◌==◌, length, is_empty, if◌then◌else◌,
}
use apex_payments_engine.Prelude.Int.{ℤ, pos, ◌+ℤ◌, ◌-ℤ◌, ltb_ℤ, leb_ℤ, eq_ℤ}
use apex_payments_engine.Prelude.Table.{find, modify}
use apex_payments_engine.Domain.Enums.{Direction, debit, credit, TransactionType}
use apex_payments_engine.Domain.Exceptions.{
  Uuid, Time, domain, insufficient_funds, ledger_imbalance, posting_not_positive, key_error,
}
use apex_payments_engine.Domain.Models.{AccountBalance, LedgerTransaction, LedgerEntry, Database}
use apex_payments_engine.Session.{
  Environment, Result, ok, err, Action, pure, lift, gets, or_raise, external, ◌>>=◌, ◌>>◌, raise_if,
  update, flush,
}

pub record Posting : Type 0 where
  pub account_id : Uuid
  pub direction : Direction
  pub amount : ℤ

-- `net += p.amount` for a debit, `net -= p.amount` for a credit
abbrev pub add_signed : Direction → ℤ → ℤ → ℤ
add_signed debit net amount = net +ℤ amount
add_signed credit net amount = net -ℤ amount

unfoldable pub net_from : ℤ → List Posting → Result ℤ
net_from net [] = ok net
net_from net (p ∷ ps) =
    if leb_ℤ p.amount (pos 0)
    then err (posting_not_positive p.amount)
    else net_from (add_signed p.direction net p.amount) ps

unfoldable pub check_net : Result ℤ → Result Unit
check_net (ok net) = if eq_ℤ net (pos 0) then ok tt else err (domain (ledger_imbalance net))
check_net (err e) = err e

unfoldable pub validate_balanced : List Posting → Result Unit
unfolding net_from check_net
validate_balanced ps =
    if is_empty ps || ltb (length ps) 2
    then err (domain (ledger_imbalance (pos 0)))
    else check_net (net_from (pos 0) ps)

-- `sorted(list(set(ids)))`: each id once, in increasing order.
unfoldable pub insert_id : Uuid → List Uuid → List Uuid
insert_id a [] = a ∷ []
insert_id a (b ∷ ids) =
    if ltb a b then a ∷ b ∷ ids else if a == b then b ∷ ids else b ∷ insert_id a ids

unfoldable pub sorted_account_ids : List Posting → List Uuid
sorted_account_ids [] = []
sorted_account_ids (p ∷ ps) = insert_id p.account_id (sorted_account_ids ps)

abbrev pub balance_key : AccountBalance → Uuid
balance_key row = row.account_id

abbrev pub balance_row : Uuid → Database → Option AccountBalance
balance_row a d = find balance_key a d.balances

abbrev pub add_balance_row : AccountBalance → Database → Database
add_balance_row row d = record d { balances = d.balances ++ row ∷ [] }

abbrev pub set_balance_row : Uuid → (AccountBalance → AccountBalance) → Database → Database
set_balance_row a f d = record d { balances = modify balance_key a f d.balances }

abbrev pub add_transaction : LedgerTransaction → Database → Database
add_transaction txn d = record d { transactions = d.transactions ++ txn ∷ [] }

abbrev pub add_entry : LedgerEntry → Database → Database
add_entry entry d = record d { entries = d.entries ++ entry ∷ [] }

abbrev pub lower : ℤ → AccountBalance → AccountBalance
lower amount bal = record bal { balance = bal.balance -ℤ amount }

abbrev pub raise_by : ℤ → AccountBalance → AccountBalance
raise_by amount bal = record bal { balance = bal.balance +ℤ amount }

abbrev pub touch : Time → AccountBalance → AccountBalance
touch t bal = record bal { version = bal.version + 1; updated_at = t }

module _ (env : Environment) where
  -- The row under SELECT ... FOR UPDATE, or a new row with the balance 0.
  unfoldable pub init_balance : Uuid → Option AccountBalance → Action Unit
  init_balance acc_id (some row) = pure tt
  init_balance acc_id none = do
    t ← external env.now
    update (
        add_balance_row
          (record { account_id = acc_id; balance = pos 0; version = 0; updated_at = t }))
    flush env

  unfoldable pub lock_balance : Uuid → Action Unit
  lock_balance acc_id = do row ← gets (balance_row acc_id); init_balance acc_id row

  unfoldable pub lock_balances : List Uuid → Action Unit
  lock_balances [] = pure tt
  lock_balances (acc_id ∷ ids) = do lock_balance acc_id; lock_balances ids

  -- `bal` is the row of the session, so that a second posting to the account sees the first.
  unfoldable pub apply_to_balance : Posting → Direction → AccountBalance → Action Unit
  apply_to_balance p debit bal = do
    raise_if (ltb_ℤ bal.balance p.amount)
        (domain (insufficient_funds p.account_id bal.balance p.amount))
    update (set_balance_row p.account_id (lower p.amount))
  apply_to_balance p credit bal = update (set_balance_row p.account_id (raise_by p.amount))

  unfoldable pub apply_posting : Uuid → Posting → Action Unit
  apply_posting txn_id p = do
    t ← external env.now
    n ← external env.serial
    update (
        add_entry (record {
          id = n;
          transaction_id = txn_id;
          account_id = p.account_id;
          direction = p.direction;
          amount = p.amount;
          created_at = t;
        }))
    row ← gets (balance_row p.account_id)
    bal ← or_raise row (key_error p.account_id)
    apply_to_balance p p.direction bal
    t' ← external env.now
    update (set_balance_row p.account_id (touch t'))

  unfoldable pub apply_postings : Uuid → List Posting → Action Unit
  apply_postings txn_id [] = pure tt
  apply_postings txn_id (p ∷ ps) = do apply_posting txn_id p; apply_postings txn_id ps

  -- The `LedgerTransaction` row, flushed before its entries.
  unfoldable pub create_transaction : TransactionType → Uuid → Action LedgerTransaction
  create_transaction transaction_type reference_id = do
    txn_id ← external env.uuid4
    t ← external env.now
    let txn : LedgerTransaction = record {
      id = txn_id;
      type = transaction_type;
      reference_id = reference_id;
      created_at = t;
    }
    update (add_transaction txn)
    flush env
    pure txn

  unfoldable pub post_entries : List Posting → LedgerTransaction → Action LedgerTransaction
  post_entries postings txn = do
    lock_balances (sorted_account_ids postings)
    apply_postings txn.id postings
    flush env
    pure txn

  unfoldable pub post : TransactionType → Uuid → List Posting → Action LedgerTransaction
  post transaction_type reference_id postings = do
    lift (validate_balanced postings)
    txn ← create_transaction transaction_type reference_id
    post_entries postings txn
