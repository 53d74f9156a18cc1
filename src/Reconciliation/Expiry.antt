-- ===== src/Reconciliation/Expiry.antt =====
-- What `expire_stale_holds` does to each payment and to the balances.
use apex_payments_engine.Prelude.{◌≡◌, none, some, List, [], ◌∷◌, ◌++◌}
use apex_payments_engine.Prelude.Int.{ℤ, pos, ◌+ℤ◌}
use apex_payments_engine.Prelude.Table.{find}
use apex_payments_engine.Domain.Enums.{PaymentStatus}
use apex_payments_engine.Domain.Exceptions.{Uuid}
use apex_payments_engine.Domain.Models.{Payment, Outbox, Database}
use apex_payments_engine.Ledger.Postings.{balance_of}
use apex_payments_engine.Saga.{payment_key, payment_row, psp_suspense_account_id}
use apex_payments_engine.Saga.Compensation.{transferred}
use apex_payments_engine.Saga.Endings.{IsNext}

-- What the account `b` gets when the payments `qs` are given back to their payers.
abbrev pub returned : Uuid → List Payment → ℤ
returned b [] = pos 0
returned b (q ∷ qs) =
    transferred psp_suspense_account_id q.payer_account q.amount b +ℤ returned b qs

-- One event `payment.failed` for each of the payments, in their order.
abbrev pub AreAnnounced : List Payment → List Outbox → Type 0
AreAnnounced [] [] = Unit
AreAnnounced [] (ev ∷ evs) = ⊥
AreAnnounced (q ∷ qs) [] = ⊥
AreAnnounced (q ∷ qs) (ev ∷ evs) =
    (ev.event_type ≡ "payment.failed")
    × (ev.aggregate_id ≡ q.id)
    × (ev.payload.amount ≡ q.amount)
    × AreAnnounced qs evs

-- The payments `qs` have become FAILED, their amounts are back with their payers, and an event for
-- each is in the outbox; no other payment and no other balance has changed.
pub record IsGivenBack (qs : List Payment) (d e : Database) : Type 0 where
  pub failed :
      (j : Uuid) (q : Payment)
      → find payment_key j qs ≡ some q
      → (p : Payment) × (payment_row j e ≡ some p) × IsNext q p PaymentStatus.failed
  pub kept : (j : Uuid) → find payment_key j qs ≡ none → payment_row j e ≡ payment_row j d
  pub balances : (b : Uuid) → balance_of b e ≡ balance_of b d +ℤ returned b qs
  pub events : List Outbox
  pub announced : AreAnnounced qs events
  pub outbox : e.outbox ≡ d.outbox ++ events

-- Each of the payments is the row of its id.
abbrev AreRows : List Payment → Database → Type 0
AreRows qs d = (j : Uuid) (q : Payment) → find payment_key j qs ≡ some q → payment_row j d ≡ some q
