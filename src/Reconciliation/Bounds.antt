-- ===== src/Reconciliation/Bounds.antt =====
-- The range of the balances over any run.
use apex_payments_engine.Prelude.{List, [], ◌∷◌, All, arith}
use apex_payments_engine.Prelude.Int.{ℤ, pos, ◌≤ℤ◌, ◌<ℤ◌, int_laws}
use apex_payments_engine.Domain.Models.{AccountBalance}
use apex_payments_engine.Session.{Environment, World}
use apex_payments_engine.Psp.{Settings}
use apex_payments_engine.Ledger.Balances.{sum_balances, total, IsNonneg, NoOverdraft}
use apex_payments_engine.Reconciliation.Runs.{Step, run, run_keeps_books}

-- The balance is not negative and at most `s`.
abbrev pub IsWithin : ℤ → AccountBalance → Type 0
IsWithin s r = (pos 0 ≤ℤ r.balance) × (r.balance ≤ℤ s)

sum_balances_nonneg : (rs : List AccountBalance) → All IsNonneg rs → pos 0 ≤ℤ sum_balances rs
sum_balances_nonneg [] h = omega arith
sum_balances_nonneg (r ∷ rs) h =
    let first = h.0 in let rest = sum_balances_nonneg rs h.1 in omega int_laws

pub rows-IsWithin :
    (s : ℤ) (rs : List AccountBalance)
    → All IsNonneg rs
    → sum_balances rs ≤ℤ s
    → All (IsWithin s) rs
rows-IsWithin s [] h bound = tt
rows-IsWithin s (r ∷ rs) h bound =
    let first = h.0 in
    let rest = sum_balances_nonneg rs h.1 in
    ((first, omega int_laws), rows-IsWithin s rs h.1 (omega int_laws))

-- What a column of the type BIGINT stores of the numbers that are not negative.
abbrev pub FitsBigint : AccountBalance → Type 0
FitsBigint r = (pos 0 ≤ℤ r.balance) × (r.balance <ℤ pos 9223372036854775808)

fits :
    (s : ℤ) (rs : List AccountBalance)
    → s <ℤ pos 9223372036854775808
    → All (IsWithin s) rs
    → All FitsBigint rs
fits s [] small h = tt
fits s (r ∷ rs) small h =
    let low = h.0.0 in let high = h.0.1 in ((low, omega arith), fits s rs small h.1)

-- If no balance is negative and the sum of all balances is below 2^63, then after any sequence of
-- transactions, those that raise included, each balance fits its column of the type BIGINT.
pub run_fits :
    (env : Environment) (settings : Settings) (ss : List Step) (w : World)
    → NoOverdraft w.db
    → total w.db <ℤ pos 9223372036854775808
    → All FitsBigint (run env settings ss w).balances
run_fits env settings ss w covered small =
    let (covered', money, net, drifts) = run_keeps_books env settings ss w covered in
    let rows = (run env settings ss w).balances in
    fits (total w.db) rows small (rows-IsWithin (total w.db) rows covered' (rw money (omega arith)))
