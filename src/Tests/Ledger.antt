-- ===== src/Tests/Ledger.antt =====
-- The theorems on the ledger at concrete postings and tables.
use apex_payments_engine.Prelude.{ℕ, ◌≡◌, ◌↔◌, refl, List, [], ◌∷◌, arith}
use apex_payments_engine.Prelude.Int.{pos, ◌<ℤ◌, int_laws}
use apex_payments_engine.Domain.Enums.{debit, credit, TransactionType}
use apex_payments_engine.Domain.Exceptions.{domain, insufficient_funds}
use apex_payments_engine.Domain.Models.{LedgerTransaction}
use apex_payments_engine.Session.{World, ok, err}
use apex_payments_engine.Ledger.{Posting, post}
use apex_payments_engine.Ledger.Validation.{IsBalanced}
use apex_payments_engine.Ledger.Postings.{balance_of}
use apex_payments_engine.Ledger.Balances.{CanApply}
use apex_payments_engine.Ledger.Post.{IsRecorded, post-IsRecorded}
use apex_payments_engine.Ledger.Success.{post_iff}
use apex_payments_engine.Ledger.Overdraft.{post-overdraft}
use apex_payments_engine.Ledger.Refinement.{observed, post_spec, view, post_refines}
use apex_payments_engine.Tests.World.{env, env_accepts, payer, payee, world, program}

abbrev transfer : ℕ → List Posting
transfer n =
    record { account_id = payer; direction = debit; amount = pos n }
    ∷ record { account_id = payee; direction = credit; amount = pos n }
    ∷ []

abbrev lopsided : List Posting
lopsided =
    record { account_id = payer; direction = debit; amount = pos 7 }
    ∷ record { account_id = payee; direction = credit; amount = pos 5 }
    ∷ []

abbrev txn : LedgerTransaction
txn = record { id = 1000; type = TransactionType.payment; reference_id = 77; created_at = 1 }

abbrev posted : World
posted = (post env TransactionType.payment 77 (transfer 300) world).1

post_returns : post env TransactionType.payment 77 (transfer 300) world ≡ (ok txn, posted)
unfolding program
post_returns = refl

post-IsRecorded_example :
    IsRecorded txn TransactionType.payment 77 (transfer 300) world.db posted.db
post-IsRecorded_example =
    post-IsRecorded env TransactionType.payment 77 (transfer 300) world posted txn post_returns

post_iff_example :
    ((t : LedgerTransaction) × (w : World) × (post env TransactionType.payment 77
          (transfer 300)
          world
        ≡ (ok t, w)))
    ↔ (IsBalanced (transfer 300) × CanApply (λ a. balance_of a world.db) (transfer 300))
post_iff_example = post_iff env env_accepts TransactionType.payment 77 (transfer 300) world

large_IsBalanced : IsBalanced (transfer 200000)
large_IsBalanced = record {
  at_least_two = omega arith;
  positive = (omega arith, (omega arith, tt));
  equal_sums = omega int_laws;
}

too_large : balance_of payer world.db <ℤ pos 200000
too_large = omega arith

post-overdraft_example :
    (post env TransactionType.payment 77 (transfer 200000) world).0
    ≡ err (domain (insufficient_funds payer (pos 100000) (pos 200000)))
post-overdraft_example =
    post-overdraft env env_accepts payer (pos 200000)
      (record { account_id = payee; direction = credit; amount = pos 200000 } ∷ [])
      TransactionType.payment 77 world large_IsBalanced too_large

post_refines_example :
    observed (post env TransactionType.payment 77 (transfer 300) world)
    ≡ post_spec (transfer 300) (view world.db)
post_refines_example = post_refines env TransactionType.payment 77 (transfer 300) world env_accepts
