-- ===== src/Tests/Accounts.antt =====
-- What the handlers of the accounts answer around a concrete post.
use apex_payments_engine.Prelude.{◌≡◌, refl, List, [], ◌∷◌}
use apex_payments_engine.Prelude.Int.{pos, ◌+ℤ◌}
use apex_payments_engine.Domain.Enums.{debit, credit, TransactionType, AccountType}
use apex_payments_engine.Domain.Models.{LedgerTransaction}
use apex_payments_engine.Schemas.{BalanceResponse, LedgerPageResponse}
use apex_payments_engine.Session.{World, ok}
use apex_payments_engine.Ledger.{Posting, post}
use apex_payments_engine.Ledger.Balances.{movement}
use apex_payments_engine.Accounts.{get_balance, ledger_page}
use apex_payments_engine.Accounts.Answers.{get_balance-post}
use apex_payments_engine.Tests.World.{env, bank, wallet, payer, payee, program}

abbrev transfer : List Posting
transfer =
    record { account_id = payer; direction = debit; amount = pos 300 }
    ∷ record { account_id = payee; direction = credit; amount = pos 300 }
    ∷ []

abbrev before : World
before = record { db = bank; calls = 0 }

abbrev after : World
after = (post env TransactionType.payment 77 transfer before).1

abbrev txn : LedgerTransaction
txn = record { id = 1000; type = TransactionType.payment; reference_id = 77; created_at = 1 }

posted : post env TransactionType.payment 77 transfer before ≡ (ok txn, after)
unfolding program
posted = refl

get_balance-post_example :
    (r : BalanceResponse) × (r' : BalanceResponse) × (get_balance payee before ≡ (ok r, before))
    × (get_balance payee after ≡ (ok r', after))
    × (r'.balance ≡ r.balance +ℤ movement payee transfer)
    × (r'.currency ≡ r.currency)
get_balance-post_example =
    get_balance-post env TransactionType.payment 77 transfer before after txn payee
      (wallet payee AccountType.merchant_payable "shop") posted refl

abbrev page : LedgerPageResponse
page = ledger_page payee 10 after.db
