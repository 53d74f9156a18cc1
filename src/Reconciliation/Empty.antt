-- ===== src/Reconciliation/Empty.antt =====
-- What a balanced report says of the money in the accounts.
use apex_payments_engine.Prelude.{
  ◌≡◌, ◌≢◌, refl, sym, ap, ◌∙◌, true, false, none, List, [], ◌∷◌, All, arith, ◌==◌, if◌then◌else◌,
  inl, inr, Bool-cases,
}
use apex_payments_engine.Prelude.Int.{ℤ, pos, ◌+ℤ◌, ◌-ℤ◌, eq_of_parts, int_laws}
use apex_payments_engine.Prelude.Table.{IsKeyed, find}
use apex_payments_engine.Domain.Enums.{Direction, debit, credit}
use apex_payments_engine.Domain.Exceptions.{Uuid}
use apex_payments_engine.Domain.Models.{AccountBalance, LedgerEntry}
use apex_payments_engine.Session.{Environment, World}
use apex_payments_engine.Ledger.{balance_key}
use apex_payments_engine.Ledger.Balances.{sum_balances, NoOverdraft}
use apex_payments_engine.Reconciliation.{
  signed_amount, calc_amount, ledger_net, computed_balance, integrity_of,
}
use apex_payments_engine.Reconciliation.Audit.{IsComputed, balanced_iff}
use apex_payments_engine.Reconciliation.Bounds.{IsWithin, rows-IsWithin}

-- No two rows are of one account.
abbrev pub AreDistinct : List AccountBalance → Type 0
AreDistinct = IsKeyed balance_key

-- The entry's account has a row.
abbrev pub HasRow : List AccountBalance → LedgerEntry → Type 0
HasRow rs x = find balance_key x.account_id rs ≢ none

sum_computed : List AccountBalance → List LedgerEntry → ℤ
sum_computed [] xs = pos 0
sum_computed (r ∷ rs) xs = computed_balance r.account_id xs +ℤ sum_computed rs xs

-- What an entry of the account `a` adds to the sum over the rows.
share : Uuid → ℤ → List AccountBalance → ℤ
share a v [] = pos 0
share a v (r ∷ rs) = (if a == r.account_id then v else pos 0) +ℤ share a v rs

share-none :
    (a : Uuid) (v : ℤ) (rs : List AccountBalance)
    → find balance_key a rs ≡ none
    → share a v rs ≡ pos 0
unfolding share
share-none a v [] h = refl
share-none a v (r ∷ rs) h = elim (Bool-cases (r.account_id == a)) [
  | inl here ↦ absurd (ground arith)
  | inr there ↦
      let other : (a == r.account_id) ≡ false = ground arith in
      rw (other, share-none a v rs (rw there at h)) (omega int_laws)
]

share_one :
    (a : Uuid) (v : ℤ) (rs : List AccountBalance)
    → AreDistinct rs
    → find balance_key a rs ≢ none
    → share a v rs ≡ v
unfolding share
share_one a v [] distinct h = absurd (h refl)
share_one a v (r ∷ rs) distinct h = elim (Bool-cases (r.account_id == a)) [
  | inl here ↦
      let same : (a == r.account_id) ≡ true = ground arith in
      let absent : find balance_key a rs ≡ none =
        let e : r.account_id ≡ a = ground arith in
        ap (λ k. find balance_key k rs) (sym e) ∙ distinct.0 in
      rw (same, share-none a v rs absent) (omega int_laws)
  | inr there ↦
      let other : (a == r.account_id) ≡ false = ground arith in
      rw (other, share_one a v rs distinct.1 (rw there at h)) (omega int_laws)
]

sum_computed-cons :
    (rs : List AccountBalance) (x : LedgerEntry) (xs : List LedgerEntry)
    → sum_computed rs (x ∷ xs)
      ≡ share x.account_id (calc_amount x.direction x.amount) rs +ℤ sum_computed rs xs
unfolding sum_computed computed_balance share
sum_computed-cons [] x xs = omega int_laws
sum_computed-cons (r ∷ rs) x xs = rw (sum_computed-cons rs x xs) (omega int_laws)

sum_computed-nil : (rs : List AccountBalance) → sum_computed rs [] ≡ pos 0
unfolding sum_computed computed_balance
sum_computed-nil [] = refl
sum_computed-nil (r ∷ rs) = rw (sum_computed-nil rs) (omega int_laws)

opposite :
    (dir : Direction) (amount : ℤ) → calc_amount dir amount ≡ pos 0 -ℤ signed_amount dir amount
opposite debit amount = refl
opposite credit amount = omega int_laws

-- Over the rows the entries sum up to the opposite of their net.
sum_computed_net :
    (rs : List AccountBalance) (xs : List LedgerEntry)
    → AreDistinct rs
    → All (HasRow rs) xs
    → sum_computed rs xs ≡ pos 0 -ℤ ledger_net xs
unfolding ledger_net
sum_computed_net rs [] distinct h = sum_computed-nil rs ∙ omega int_laws
sum_computed_net rs (x ∷ xs) distinct h =
    sum_computed-cons rs x xs
    ∙ rw
        (
          share_one x.account_id (calc_amount x.direction x.amount) rs distinct h.0,
          sum_computed_net rs xs distinct h.1,
          opposite x.direction x.amount,
        )
        (omega int_laws)

sum_balances_computed :
    (rs : List AccountBalance) (xs : List LedgerEntry)
    → All (IsComputed xs) rs
    → sum_balances rs ≡ sum_computed rs xs
unfolding sum_computed
sum_balances_computed [] xs h = refl
sum_balances_computed (r ∷ rs) xs h = rw (h.0, sum_balances_computed rs xs h.1) refl

abbrev pub IsEmpty : AccountBalance → Type 0
IsEmpty r = r.balance ≡ pos 0

within_zero : (rs : List AccountBalance) → All (IsWithin (pos 0)) rs → All IsEmpty rs
within_zero [] h = tt
within_zero (r ∷ rs) h =
    let low = h.0.0 in
    let high = h.0.1 in (eq_of_parts r.balance (pos 0) (omega arith), within_zero rs h.1)

-- If no balance is negative, no account has two rows, and each entry's account has one, a balanced
-- report means that every balance is 0.
pub balanced-IsEmpty :
    (env : Environment) (w : World)
    → NoOverdraft w.db
    → AreDistinct w.balances
    → All (HasRow w.balances) w.entries
    → (integrity_of w.db).balanced ≡ true
    → All IsEmpty w.balances
balanced-IsEmpty env w covered distinct rows balanced =
    let (net, computed) = (balanced_iff w.db).0 balanced in
    let none_left : sum_balances w.balances ≡ pos 0 =
      sum_balances_computed w.balances w.entries computed
      ∙ sum_computed_net w.balances w.entries distinct rows
      ∙ rw net (omega int_laws) in
    within_zero w.balances (rows-IsWithin (pos 0) w.balances covered (rw none_left (omega arith)))
