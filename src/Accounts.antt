-- ===== src/Accounts.antt =====
-- app/api/accounts.py: the balance and the ledger page of an account.
pub mod Answers
use apex_payments_engine.Prelude.{
  ℕ, String, Bool, true, false, not, ◌&&◌, Option, none, some, List, [], ◌∷◌, map, take, leb, ltb,
  ◌==◌, if◌then◌else◌,
}
use apex_payments_engine.Prelude.Int.{ℤ, pos, pos_part, leb_ℤ}
use apex_payments_engine.Prelude.Table.{find}
use apex_payments_engine.Domain.Exceptions.{
  Uuid, domain, account_not_found, request_validation_error,
}
use apex_payments_engine.Domain.Models.{Account, AccountBalance, LedgerEntry, Database}
use apex_payments_engine.Schemas.{BalanceResponse, LedgerEntryResponse, LedgerPageResponse}
use apex_payments_engine.Session.{
  Result, ok, err, Action, lift, pure, gets, or_raise, raise_if, ◌>>=◌, ◌>>◌,
}
use apex_payments_engine.Ledger.{balance_row}

abbrev pub account_key : Account → Uuid
account_key a = a.id

abbrev pub account_row : Uuid → Database → Option Account
account_row account_id d = find account_key account_id d.accounts

-- `select(AccountBalance, Account.currency).join(Account, ...)`: a row of both tables
abbrev pub joined : Option AccountBalance → Option Account → Option (AccountBalance × String)
joined (some row) (some account) = some (row, account.currency)
joined (some row) none = none
joined none account = none

abbrev pub balance_with_currency : Uuid → Database → Option (AccountBalance × String)
balance_with_currency account_id d = joined (balance_row account_id d) (account_row account_id d)

unfoldable pub balance_response : Uuid → Option (AccountBalance × String) → Action BalanceResponse
balance_response account_id (some (row, currency)) = pure (record {
  account_id = row.account_id;
  balance = row.balance;
  currency = currency;
  updated_at = row.updated_at;
})
balance_response account_id none = do
  found ← gets (account_row account_id)
  account ← or_raise found (domain (account_not_found account_id))
  pure (record {
    account_id = account_id;
    balance = pos 0;
    currency = account.currency;
    updated_at = account.created_at;
  })

unfoldable pub get_balance : Uuid → Action BalanceResponse
get_balance account_id = do
  row ← gets (balance_with_currency account_id)
  balance_response account_id row

-- `.where(LedgerEntry.account_id == account_id)`
abbrev pub entries_of : Uuid → List LedgerEntry → List LedgerEntry
entries_of account_id [] = []
entries_of account_id (x ∷ xs) =
    if x.account_id == account_id then x ∷ entries_of account_id xs else entries_of account_id xs

abbrev pub to_entry_response : LedgerEntry → LedgerEntryResponse
to_entry_response e = record {
  id = e.id;
  transaction_id = e.transaction_id;
  direction = e.direction;
  amount = e.amount;
  created_at = e.created_at;
}

-- ORDER BY created_at DESC; entries of the same time keep the order of the table.
unfoldable pub insert_entry : LedgerEntry → List LedgerEntry → List LedgerEntry
insert_entry e [] = e ∷ []
insert_entry e (x ∷ xs) =
    let rest = insert_entry e xs in if ltb e.created_at x.created_at then x ∷ rest else e ∷ x ∷ xs

unfoldable pub newest_first : List LedgerEntry → List LedgerEntry
newest_first [] = []
newest_first (e ∷ es) = insert_entry e (newest_first es)

-- `Query(50, ge=1, le=100)`: what the query gives, or 50, if it is in the range
unfoldable pub ledger_limit : Option ℤ → Result ℕ
ledger_limit none = ok 50
ledger_limit (some limit) =
    if leb_ℤ (pos 1) limit && leb_ℤ limit (pos 100)
    then ok (pos_part limit)
    else err request_validation_error

unfoldable pub ledger_page : Uuid → ℕ → Database → LedgerPageResponse
ledger_page account_id limit d = record {
  account_id = account_id;
  entries = map to_entry_response (take limit (newest_first (entries_of account_id d.entries)));
}

unfoldable pub get_ledger_postings : Uuid → Option ℤ → Action LedgerPageResponse
get_ledger_postings account_id given = do
  limit ← lift (ledger_limit given)
  gets (ledger_page account_id limit)
