-- ===== src/Reconciliation.antt =====
-- app/application/reconciliation_service.py: `ReconciliationService`, and the handler of
-- app/api/reconciliation.py.
pub mod Audit
pub mod Books
pub mod Operations
pub mod Runs
pub mod Bounds
pub mod Empty
pub mod Overdue
pub mod Expiry
use apex_payments_engine.Prelude.{
  ℕ, suc, ◌+◌, ◌*◌, Bool, true, false, not, ◌&&◌, List, [], ◌∷◌, length, ltb, ◌==◌, if◌then◌else◌,
}
use apex_payments_engine.Prelude.Int.{ℤ, pos, ◌+ℤ◌, ◌-ℤ◌, eq_ℤ}
use apex_payments_engine.Domain.Enums.{Direction, debit, credit, is_authorized}
use apex_payments_engine.Domain.Exceptions.{Uuid, Time}
use apex_payments_engine.Domain.Models.{AccountBalance, LedgerEntry, Payment, Database}
use apex_payments_engine.Schemas.{IntegrityResponse}
use apex_payments_engine.Session.{Environment, Action, pure, gets, external, ◌>>=◌, ◌>>◌}
use apex_payments_engine.Saga.{reverse}

-- `case((direction == DEBIT, amount), else_=-amount)`
abbrev pub signed_amount : Direction → ℤ → ℤ
signed_amount debit amount = amount
signed_amount credit amount = pos 0 -ℤ amount

-- `coalesce(sum(signed_amount), 0)` over all entries
unfoldable pub ledger_net : List LedgerEntry → ℤ
ledger_net [] = pos 0
ledger_net (x ∷ xs) = signed_amount x.direction x.amount +ℤ ledger_net xs

-- `case((direction == CREDIT, amount), else_=-amount)`
abbrev pub calc_amount : Direction → ℤ → ℤ
calc_amount debit amount = pos 0 -ℤ amount
calc_amount credit amount = amount

-- The sum of the group of an account; 0, by `coalesce`, for an account with no entry.
unfoldable pub computed_balance : Uuid → List LedgerEntry → ℤ
computed_balance a [] = pos 0
computed_balance a (x ∷ xs) =
    (if x.account_id == a then calc_amount x.direction x.amount else pos 0) +ℤ computed_balance a xs

-- The accounts whose balance differs from the sum of their entries.
unfoldable pub drifted : List LedgerEntry → List AccountBalance → List Uuid
drifted entries [] = []
drifted entries (row ∷ rows) =
    let rest = drifted entries rows in
    if eq_ℤ row.balance (computed_balance row.account_id entries)
    then rest
    else row.account_id ∷ rest

unfoldable pub integrity_of : Database → IntegrityResponse
integrity_of d =
    let net = ledger_net d.entries in
    let count = length (drifted d.entries d.balances) in
    record {
      balanced = eq_ℤ net (pos 0) && (count == 0);
      ledger_net = net;
      drifted_accounts_count = count;
    }

-- A time is a number of microseconds.
abbrev pub minutes : ℕ → Time
minutes n = n * 60000000

-- `created_at < now - timeout`
abbrev pub is_stale : Time → ℕ → Payment → Bool
is_stale now timeout_minutes p = ltb (p.created_at + minutes timeout_minutes) now

unfoldable pub stale_payments : Time → ℕ → List Payment → List Payment
stale_payments now timeout_minutes [] = []
stale_payments now timeout_minutes (p ∷ ps) =
    let rest = stale_payments now timeout_minutes ps in
    if is_authorized p.status && is_stale now timeout_minutes p then p ∷ rest else rest

module _ (env : Environment) where
  unfoldable pub audit_integrity : Action IntegrityResponse
  audit_integrity = gets integrity_of

  -- The loop over the payments that were selected before it.
  unfoldable pub reverse_each : ℕ → List Payment → Action ℕ
  reverse_each count [] = pure count
  reverse_each count (p ∷ ps) = do reverse env p.id; reverse_each (suc count) ps

  unfoldable pub expire_stale_holds : ℕ → Action ℕ
  expire_stale_holds timeout_minutes = do
    now ← external env.now
    stale ← gets (λ d. stale_payments now timeout_minutes d.payments)
    reverse_each 0 stale
