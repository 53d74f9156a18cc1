-- ===== src/Ledger/Postings.antt =====
-- What one posting, and the list of them, does to the balances and to the entries.
use apex_payments_engine.Prelude.{ℕ, suc, ◌≡◌, inl, inr, Option, none, some, arith, Option-cases}
use apex_payments_engine.Prelude.Int.{ℤ, pos, ◌+ℤ◌, ◌-ℤ◌, ◌≤ℤ◌}
use apex_payments_engine.Domain.Enums.{Direction, debit, credit}
use apex_payments_engine.Domain.Exceptions.{Uuid, Time}
use apex_payments_engine.Domain.Models.{AccountBalance, LedgerEntry, Database}
use apex_payments_engine.Session.{Environment, World, ok, ◌>>=◌}
use apex_payments_engine.Ledger.{
  Posting, balance_row, add_entry, set_balance_row, lower, raise_by, touch, apply_to_balance,
  apply_posting,
}

-- The balance that an account shows: 0 where it has no row.
abbrev pub row_balance : Option AccountBalance → ℤ
row_balance none = pos 0
row_balance (some row) = row.balance

abbrev pub balance_of : Uuid → Database → ℤ
balance_of a d = row_balance (balance_row a d)

-- The balance after a posting in the direction `dir`.
abbrev pub shift : Direction → ℤ → ℤ → ℤ
shift debit amount balance = balance -ℤ amount
shift credit amount balance = balance +ℤ amount

abbrev pub shift_row : Direction → ℤ → AccountBalance → AccountBalance
shift_row debit amount = lower amount
shift_row credit amount = raise_by amount

abbrev pub Covers : Direction → ℤ → ℤ → Type 0
Covers debit amount balance = amount ≤ℤ balance
Covers credit amount balance = Unit

abbrev pub entry_at : ℕ → Uuid → Posting → Time → LedgerEntry
entry_at n txn_id p t = record {
  id = n;
  transaction_id = txn_id;
  account_id = p.account_id;
  direction = p.direction;
  amount = p.amount;
  created_at = t;
}

-- The tables after one posting.
pub record IsPosted (txn_id : Uuid) (p : Posting) (d e : Database) : Type 0 where
  pub row : AccountBalance
  pub n : ℕ
  pub t : Time
  pub t' : Time
  pub found : balance_row p.account_id d ≡ some row
  pub covered : Covers p.direction p.amount row.balance
  pub after :
      e
      ≡ set_balance_row p.account_id (touch t') (
          set_balance_row p.account_id
            (shift_row p.direction p.amount)
            (add_entry (entry_at n txn_id p t) d))

module _ (env : Environment) where
  posting-IsPosted :
      (dir : Direction) (txn_id acc_id : Uuid) (amount : ℤ) (w w' : World)
      → let p : Posting = record { account_id = acc_id; direction = dir; amount = amount } in
        apply_posting env txn_id p w ≡ (ok tt, w') → IsPosted txn_id p w.db w'.db
  unfolding apply_posting apply_to_balance ◌>>=◌
  posting-IsPosted debit txn_id acc_id amount w w' h =
      elim (Option-cases (balance_row acc_id w.db)) [
        | inl missing ↦ absurd (ground arith)
        | inr (row, e) ↦ record {
          row = row;
          n = env.serial (suc w.calls);
          t = env.now w.calls;
          t' = env.now (suc (suc w.calls));
          found = e;
          covered = ground arith;
          after = ground arith;
        }
      ]
  posting-IsPosted credit txn_id acc_id amount w w' h =
      elim (Option-cases (balance_row acc_id w.db)) [
        | inl missing ↦ absurd (ground arith)
        | inr (row, e) ↦ record {
          row = row;
          n = env.serial (suc w.calls);
          t = env.now w.calls;
          t' = env.now (suc (suc w.calls));
          found = e;
          covered = tt;
          after = ground arith;
        }
      ]

  pub apply_posting-IsPosted :
      (txn_id : Uuid) (p : Posting) (w w' : World)
      → apply_posting env txn_id p w ≡ (ok tt, w')
      → IsPosted txn_id p w.db w'.db
  apply_posting-IsPosted txn_id p w w' h =
      posting-IsPosted p.direction txn_id p.account_id p.amount w w' h
