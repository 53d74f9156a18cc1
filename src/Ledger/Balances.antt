-- ===== src/Ledger/Balances.antt =====
-- The balances and their total under the writes of the ledger.
use native.Mathlib.Decide.{ℕ_discrete}
use apex_payments_engine.Prelude.{◌≡◌, some, List, [], ◌∷◌, arith, All, ◌==◌, if◌then◌else◌}
use apex_payments_engine.Prelude.Int.{ℤ, pos, ◌+ℤ◌, ◌-ℤ◌, ◌≤ℤ◌, int_laws}
use apex_payments_engine.Prelude.Table.{find, modify, find-modify_self, find-modify_ne}
use apex_payments_engine.Domain.Enums.{Direction, debit, credit}
use apex_payments_engine.Domain.Exceptions.{Uuid}
use apex_payments_engine.Domain.Models.{AccountBalance, Database}
use apex_payments_engine.Ledger.{Posting, balance_key, balance_row, set_balance_row}
use apex_payments_engine.Ledger.Validation.{credited, debited}
use apex_payments_engine.Ledger.Postings.{balance_of, shift, Covers}

-- What one posting in the direction `dir` adds to the balance of its account.
abbrev pub moved : Direction → ℤ → ℤ
moved dir amount = credited dir amount -ℤ debited dir amount

-- What the postings add to the balance of the account `a`.
abbrev pub movement : Uuid → List Posting → ℤ
movement a [] = pos 0
movement a (p ∷ ps) =
    (if p.account_id == a then moved p.direction p.amount else pos 0) +ℤ movement a ps

-- In their order the postings never debit an account below 0, from the balances `b`.
abbrev pub CanApply : (Uuid → ℤ) → List Posting → Type 0
CanApply b [] = Unit
CanApply b (p ∷ ps) =
    Covers p.direction p.amount (b p.account_id)
    × CanApply (λ a. b a +ℤ (if p.account_id == a then moved p.direction p.amount else pos 0)) ps

abbrev pub sum_balances : List AccountBalance → ℤ
sum_balances [] = pos 0
sum_balances (r ∷ rs) = r.balance +ℤ sum_balances rs

-- The money in all accounts.
abbrev pub total : Database → ℤ
total d = sum_balances d.balances

abbrev pub IsNonneg : AccountBalance → Type 0
IsNonneg r = pos 0 ≤ℤ r.balance

-- The constraint `non_negative_balance` of the table of balances.
abbrev pub NoOverdraft : Database → Type 0
NoOverdraft d = All IsNonneg d.balances

pub shift_lem : (dir : Direction) (amount b : ℤ) → shift dir amount b ≡ b +ℤ moved dir amount
shift_lem debit amount b = omega int_laws
shift_lem credit amount b = omega int_laws

sum_balances-modify :
    (k : Uuid) (f : AccountBalance → AccountBalance) (row : AccountBalance)
    (rs : List AccountBalance) (x : ℤ)
    → find balance_key k rs ≡ some row
    → ((r : AccountBalance) → (f r).balance ≡ r.balance +ℤ x)
    → sum_balances (modify balance_key k f rs) ≡ sum_balances rs +ℤ x
sum_balances-modify k f row [] x found add = ground arith
sum_balances-modify k f row (r ∷ rs) x found add =
    grind (int_laws, add r, sum_balances-modify k f row rs x)

NoOverdraft-modify :
    (k : Uuid) (f : AccountBalance → AccountBalance) (row : AccountBalance)
    (rs : List AccountBalance) (x : ℤ)
    → find balance_key k rs ≡ some row
    → ((r : AccountBalance) → (f r).balance ≡ r.balance +ℤ x)
    → pos 0 ≤ℤ row.balance +ℤ x
    → All IsNonneg rs
    → All IsNonneg (modify balance_key k f rs)
NoOverdraft-modify k f row [] x found add enough h = tt
NoOverdraft-modify k f row (r ∷ rs) x found add enough h =
    ground (arith, add r, NoOverdraft-modify k f row rs x)

pub find-NoOverdraft :
    (k : Uuid) (row : AccountBalance) (rs : List AccountBalance)
    → All IsNonneg rs
    → find balance_key k rs ≡ some row
    → pos 0 ≤ℤ row.balance
find-NoOverdraft k row [] h found = ground arith
find-NoOverdraft k row (r ∷ rs) h found = ground (arith, find-NoOverdraft k row rs h.1)

-- One row of the balances changed by `x`.
pub record IsShifted (k : Uuid) (x : ℤ) (d e : Database) : Type 0 where
  pub row : AccountBalance
  pub found : balance_row k e ≡ some row
  pub balances : (b : Uuid) → balance_of b e ≡ balance_of b d +ℤ (if k == b then x else pos 0)
  pub total_lem : total e ≡ total d +ℤ x
  pub no_overdraft : pos 0 ≤ℤ balance_of k d +ℤ x → NoOverdraft d → NoOverdraft e

module _ (k : Uuid) (f : AccountBalance → AccountBalance) (row : AccountBalance) (d : Database)
    (x : ℤ) (found : balance_row k d ≡ some row)
    (same : (r : AccountBalance) → (f r).account_id ≡ r.account_id)
    (add : (r : AccountBalance) → (f r).balance ≡ r.balance +ℤ x) where
  set_found : balance_row k (set_balance_row k f d) ≡ some (f row)
  set_found = find-modify_self balance_key k f row d.balances same found

  set_balances :
      (b : Uuid)
      → balance_of b (set_balance_row k f d) ≡ balance_of b d +ℤ (if k == b then x else pos 0)
  set_balances b = elim (ℕ_discrete b k) [
    | yes e ↦ rw (e, set_found, found, add row) (ground arith)
    | no ne ↦ rw (find-modify_ne balance_key b k f d.balances same ne) (grind (int_laws))
  ]

  pub set_balance_row-IsShifted : IsShifted k x d (set_balance_row k f d)
  set_balance_row-IsShifted = record {
    row = f row;
    found = set_found;
    balances = set_balances;
    total_lem = sum_balances-modify k f row d.balances x found add;
    no_overdraft = λ enough h. NoOverdraft-modify k f row d.balances x found add (ground arith) h;
  }
