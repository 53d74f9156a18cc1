-- ===== src/Tests/Waiting.antt =====
-- The theorems on row locks at two transfers in opposite directions, begun at the same time.
use apex_payments_engine.Prelude.{ℕ, ◌≤◌, ◌⊎◌, refl, List, [], ◌∷◌, All}
use apex_payments_engine.Prelude.Int.{pos}
use apex_payments_engine.Domain.Enums.{debit, credit}
use apex_payments_engine.Domain.Exceptions.{Uuid}
use apex_payments_engine.Ledger.{Posting, insert_id, sorted_account_ids}
use apex_payments_engine.Ledger.Waiting.{
  Txn, posting_txn, Move, lock, Reach, idle, begin, move, Run, stay, work,
}
use apex_payments_engine.Ledger.Deadlock.{IsEnded, post_deadlock_free}
use apex_payments_engine.Ledger.Completion.{posts_complete}
use apex_payments_engine.Tests.World.{payer, payee}

abbrev moved_to : Uuid → Uuid → List Posting
moved_to a b =
    record { account_id = a; direction = debit; amount = pos 5 }
    ∷ record { account_id = b; direction = credit; amount = pos 5 }
    ∷ []

-- The transfer to the payee has locked the first row, which the other one waits for.
abbrev crossed : List Txn
crossed =
    record { held = payer ∷ []; wants = payee ∷ [] }
    ∷ record { held = []; wants = payer ∷ payee ∷ [] }
    ∷ []

crossed_reached : Reach crossed
unfolding sorted_account_ids insert_id
crossed_reached = move (begin (moved_to payer payee) (begin (moved_to payee payer) idle)) (
    lock (posting_txn (moved_to payer payee)) payer (payee ∷ [])
      (posting_txn (moved_to payee payer) ∷ []) refl refl)

post_deadlock_free_example : All IsEnded crossed ⊎ ((us : List Txn) × Move crossed crossed us)
post_deadlock_free_example = post_deadlock_free crossed_reached

posts_complete_example :
    (0 ≤ work crossed) × ((m : ℕ) × (vs : List Txn) × Run m crossed vs × All IsEnded vs)
posts_complete_example = posts_complete crossed_reached stay
