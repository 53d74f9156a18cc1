-- ===== src/Tests/Reconciliation.antt =====
-- The theorems on reconciliation at concrete tables and a concrete sequence of transactions.
use apex_payments_engine.Prelude.{
  ℕ, ◌≡◌, ◌↔◌, refl, true, false, none, some, List, [], ◌∷◌, All, arith,
}
use apex_payments_engine.Tests.World.{
  env, tables, world, request, settings, payer, payee, balance_at,
}
use apex_payments_engine.Prelude.Int.{pos, ◌<ℤ◌, ◌+ℤ◌, ◌-ℤ◌}
use apex_payments_engine.Session.{ok, World}
use apex_payments_engine.Ledger.Balances.{total, NoOverdraft}
use apex_payments_engine.Psp.{captured}
use apex_payments_engine.Reconciliation.{
  ledger_net, computed_balance, drifted, integrity_of, audit_integrity, expire_stale_holds,
}
use apex_payments_engine.Reconciliation.Audit.{debit_total, credit_total, IsFounded, audit_iff}
use apex_payments_engine.Schemas.{IntegrityResponse}
use apex_payments_engine.Reconciliation.Books.{drift}
use apex_payments_engine.Reconciliation.Runs.{
  Step, open_step, finish_step, refund_step, webhook_step, expire_step, drain_step, run,
  run_keeps_books,
}
use apex_payments_engine.Domain.Enums.{debit, credit, Direction, PaymentStatus}
use apex_payments_engine.Domain.Exceptions.{Uuid, Time}
use apex_payments_engine.Domain.Models.{LedgerEntry, Payment}
use apex_payments_engine.Reconciliation.Bounds.{FitsBigint, run_fits}
use apex_payments_engine.Reconciliation.Empty.{HasRow, IsEmpty, balanced-IsEmpty}
use apex_payments_engine.Payments.{new_payment}

-- A payment between whose two transactions come a forged webhook and a refund that is refused, and
-- after which the payment is refunded.
abbrev steps : List Step
steps =
    open_step true "key" request 500
    ∷ webhook_step "body" none (some "forged")
    ∷ refund_step true "early" 500 (pos 10)
    ∷ finish_step "key" request 500 (captured "ref")
    ∷ refund_step true "late" 500 (pos 5000)
    ∷ expire_step 30
    ∷ drain_step (λ id. false) 50
    ∷ []

world_NoOverdraft : NoOverdraft world.db
world_NoOverdraft = (omega arith, (omega arith, (omega arith, tt)))

run_keeps_books_example :
    NoOverdraft (run env settings steps world).db
    × (total (run env settings steps world).db ≡ total world.db)
    × (ledger_net (run env settings steps world).entries ≡ ledger_net world.entries)
    × ((a : ℕ) → drift a (run env settings steps world).db ≡ drift a world.db)
run_keeps_books_example = run_keeps_books env settings steps world world_NoOverdraft

-- A balance with no entry behind it is drift.
tables_drift : (integrity_of tables).balanced ≡ false
unfolding integrity_of ledger_net computed_balance drifted
tables_drift = refl

audit_iff_example :
    (report : IntegrityResponse) × (audit_integrity env world ≡ (ok report, world))
    × (report.ledger_net ≡ debit_total world.entries -ℤ credit_total world.entries)
    × ((report.balanced ≡ true) ↔ (
        (debit_total world.entries ≡ credit_total world.entries)
        × All (IsFounded world.entries) world.balances))
audit_iff_example = audit_iff env world

world_small : total world.db <ℤ pos 9223372036854775808
unfolding ◌+ℤ◌
world_small = omega arith

run_fits_example : All FitsBigint (run env settings steps world).balances
run_fits_example = run_fits env settings steps world world_NoOverdraft world_small

abbrev entry : ℕ → Uuid → Direction → LedgerEntry
entry id account direction = record {
  id = id;
  transaction_id = 1;
  account_id = account;
  direction = direction;
  amount = pos 5;
  created_at = 0;
}

-- What a payment of 5 and its refund leave of two accounts that had nothing.
abbrev even : World
even = record {
  db = record tables {
    balances = balance_at payer 0 ∷ balance_at payee 0 ∷ [];
    entries =
        entry 1 payer debit
        ∷ entry 2 payee credit
        ∷ entry 3 payee debit
        ∷ entry 4 payer credit
        ∷ [];
  };
  calls = 0;
}

even_balanced : (integrity_of even.db).balanced ≡ true
unfolding integrity_of ledger_net computed_balance drifted ◌+ℤ◌ ◌-ℤ◌
even_balanced = refl

even_rows : All (HasRow even.balances) even.entries
even_rows = (λ e. ground arith, (λ e. ground arith, (λ e. ground arith, (λ e. ground arith, tt))))

balanced-IsEmpty_example : All IsEmpty even.balances
balanced-IsEmpty_example =
    balanced-IsEmpty env even (omega arith, (omega arith, tt)) (refl, (refl, tt)) even_rows
      even_balanced

abbrev payment_at : Uuid → PaymentStatus → Time → Payment
payment_at id status t = record (new_payment id request t) { status = status }

-- Two payments wait for their webhook, of which the first is stale; the third was settled.
abbrev holds : World
holds = record {
  db = record tables {
    balances = balance_at 1 10000 ∷ balance_at payer 90000 ∷ balance_at payee 5000 ∷ [];
    payments =
        payment_at 500 PaymentStatus.authorized 0
        ∷ payment_at 501 PaymentStatus.authorized 1700000000
        ∷ payment_at 502 PaymentStatus.succeeded 0
        ∷ [];
  };
  calls = 1800000001;
}

abbrev expired : World
expired = (expire_stale_holds env 30 holds).1
