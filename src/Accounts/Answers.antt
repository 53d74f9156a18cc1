-- ===== src/Accounts/Answers.antt =====
-- What the handlers of the accounts answer.
use mathlib.Core.List.Perm
use mathlib.Core.List.{Perm}
use apex_payments_engine.Prelude.{
  ℕ, ◌≡◌, ◌≤◌, refl, sym, ap, ◌∙◌, Option, none, some, List, [], ◌∷◌, arith, inl, inr, Option-cases,
}
use apex_payments_engine.Prelude.Int.{ℤ, pos, ◌+ℤ◌}
use apex_payments_engine.Prelude.Table.{find}
use apex_payments_engine.Domain.Exceptions.{Uuid}
use apex_payments_engine.Domain.Models.{LedgerTransaction, Account, LedgerEntry}
use apex_payments_engine.Schemas.{BalanceResponse}
use apex_payments_engine.Session.{Environment, World, ok, ◌>>=◌}
use apex_payments_engine.Ledger.{Posting, post, balance_row}
use apex_payments_engine.Domain.Enums.{TransactionType}
use apex_payments_engine.Ledger.Balances.{movement}
use apex_payments_engine.Ledger.Frame.{post-SameOutside}
use apex_payments_engine.Ledger.Post.{post-IsRecorded}
use apex_payments_engine.Ledger.Postings.{balance_of}
use apex_payments_engine.Accounts.{account_key, account_row, balance_response, get_balance}

module _ (id : Uuid) (w : World) (account : Account)
    (found : account_row id w.db ≡ some account) where
  -- An account is answered with its balance in the ledger, 0 if it has no row there, and its
  -- currency; the tables are only read.
  get_balance-known :
      (r : BalanceResponse) × (get_balance id w ≡ (ok r, w))
      × (r.balance ≡ balance_of id w.db)
      × (r.currency ≡ account.currency)
  unfolding get_balance balance_response ◌>>=◌
  get_balance-known = elim (Option-cases (balance_row id w.db)) [
    | inl missing ↦
        let r : BalanceResponse = record {
          account_id = id;
          balance = pos 0;
          currency = account.currency;
          updated_at = account.created_at;
        } in
        (r, ground (arith, found), ground arith, refl)
    | inr (row, there) ↦
        let r : BalanceResponse = record {
          account_id = row.account_id;
          balance = row.balance;
          currency = account.currency;
          updated_at = row.updated_at;
        } in
        (r, ground (arith, found), ground arith, refl)
  ]

-- For an id that is an account's, the balance is answered before and after a `post` that returns,
-- and the second answer is the first moved by the postings to the account, in the same currency.
pub get_balance-post :
    (env : Environment) (kind : TransactionType) (ref : Uuid) (ps : List Posting) (w w' : World)
    (txn : LedgerTransaction) (id : Uuid) (account : Account)
    → post env kind ref ps w ≡ (ok txn, w')
    → account_row id w.db ≡ some account
    → (r : BalanceResponse) × (r' : BalanceResponse) × (get_balance id w ≡ (ok r, w))
      × (get_balance id w' ≡ (ok r', w'))
      × (r'.balance ≡ r.balance +ℤ movement id ps)
      × (r'.currency ≡ r.currency)
get_balance-post env kind ref ps w w' txn id account h found =
    let done = post-IsRecorded env kind ref ps w w' txn h in
    let found' : account_row id w'.db ≡ some account =
      ap (find account_key id) ((post-SameOutside env kind ref ps).at w w' txn h).accounts
      ∙ found in
    let (r, e, balance, currency) = get_balance-known id w account found in
    let (r', e', balance', currency') = get_balance-known id w' account found' in
    (
      r,
      r',
      e,
      e',
      balance' ∙ done.balances id ∙ ap (λ x. x +ℤ movement id ps) (sym balance),
      currency' ∙ sym currency,
    )

-- Newest first.
abbrev pub IsNotNewer : ℕ → List LedgerEntry → Type 0
IsNotNewer t [] = Unit
IsNotNewer t (x ∷ xs) = x.created_at ≤ t

abbrev pub IsNewestFirst : List LedgerEntry → Type 0
IsNewestFirst [] = Unit
IsNewestFirst (x ∷ xs) = IsNotNewer x.created_at xs × IsNewestFirst xs

-- The number of entries that a request asks for: 50, or the limit that it gives.
abbrev pub IsLimit : Option ℤ → ℕ → Type 0
IsLimit none n = n ≡ 50
IsLimit (some limit) n = limit ≡ pos n
