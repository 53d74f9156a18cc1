-- ===== src/Tests/Schema.antt =====
-- The trigger of the schema after two posts on concrete tables.
use apex_payments_engine.Prelude.{ℕ, ◌≡◌, refl, true, List, [], ◌∷◌}
use apex_payments_engine.Prelude.Int.{pos}
use apex_payments_engine.Domain.Enums.{debit, credit, TransactionType}
use apex_payments_engine.Domain.Models.{LedgerTransaction}
use apex_payments_engine.Session.{World, ok}
use apex_payments_engine.Ledger.{Posting, post}
use apex_payments_engine.Schema.{
  every, satisfies, upgrade, ledger_entries_table, ledger_transactions_table,
  assert_ledger_balanced,
}
use apex_payments_engine.Schema.Trigger.{post_passes_trigger}
use apex_payments_engine.Tests.World.{schema_env, bank, payer, payee, program}

-- The tables that the migration makes satisfy what it declares.
upgrade-satisfies : satisfies (upgrade 0) ≡ true
unfolding program upgrade
upgrade-satisfies = refl

abbrev transfer : ℕ → List Posting
transfer n =
    record { account_id = payer; direction = debit; amount = pos n }
    ∷ record { account_id = payee; direction = credit; amount = pos n }
    ∷ []

abbrev posted : World → World
posted w = (post schema_env TransactionType.payment 77 (transfer 300) w).1

abbrev first : World
first = posted (record { db = bank; calls = 0 })

abbrev txn : LedgerTransaction
txn = record { id = 1010; type = TransactionType.payment; reference_id = 77; created_at = 11 }

second_returns :
    post schema_env TransactionType.payment 77 (transfer 300) first ≡ (ok txn, posted first)
unfolding program
second_returns = refl

entries_satisfy : ledger_entries_table first.db ≡ true
unfolding program
entries_satisfy = refl

entries_pass : every (assert_ledger_balanced first.entries) first.entries ≡ true
unfolding program
entries_pass = refl

ids_unique : ledger_transactions_table (posted first).db ≡ true
unfolding program
ids_unique = refl

post_passes_trigger_example :
    every (assert_ledger_balanced (posted first).entries) (posted first).entries ≡ true
post_passes_trigger_example =
    post_passes_trigger schema_env TransactionType.payment 77 (transfer 300) first (posted first)
      txn second_returns entries_satisfy entries_pass ids_unique
