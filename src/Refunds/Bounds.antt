-- ===== src/Refunds/Bounds.antt =====
-- No payment is refunded for more than its amount.
use apex_payments_engine.Prelude.{ℕ, ◌≡◌, String, some, List, [], ◌∷◌, All}
use apex_payments_engine.Prelude.Int.{ℤ, pos, ◌+ℤ◌, ◌<ℤ◌, ◌≤ℤ◌, int_laws}
use apex_payments_engine.Prelude.Table.{find, modify, key-find}
use apex_payments_engine.Domain.Exceptions.{Uuid, Time}
use apex_payments_engine.Schemas.{RefundResponse}
use apex_payments_engine.Domain.Models.{Payment}
use apex_payments_engine.Session.{Environment, World, ok}
use apex_payments_engine.Saga.{payment_key}
use apex_payments_engine.Refunds.{refunded, refund_payment}
use apex_payments_engine.Refunds.Effects.{refund-IsRefunded}

abbrev pub IsBounded : Payment → Type 0
IsBounded p = (pos 0 ≤ℤ p.refunded_amount) × (p.refunded_amount ≤ℤ p.amount)

All-modify :
    (id : Uuid) (amount : ℤ) (t : Time) (row : Payment) (ps : List Payment)
    → find payment_key id ps ≡ some row
    → pos 0 <ℤ amount
    → row.refunded_amount +ℤ amount ≤ℤ row.amount
    → All IsBounded ps
    → All IsBounded (modify payment_key id (refunded amount t) ps)
All-modify id amount t row [] found positive within h = tt
All-modify id amount t row (p ∷ ps) found positive within h =
    grind (int_laws, All-modify id amount t row ps)

-- If each payment's refunded amount is between 0 and the payment's amount, it is so after a refund
-- that returns.
pub refund-IsBounded :
    (env : Environment) (key : String) (id : Uuid) (amount : ℤ) (answer : ℕ × RefundResponse)
    (w w' : World)
    → All IsBounded w.payments
    → refund_payment env key id amount w ≡ (ok answer, w')
    → All IsBounded w'.payments
refund-IsBounded env key id amount answer w w' h e =
    let (row, r, found, reply, done) = refund-IsRefunded env key id amount answer w w' e in
    let same : row.id ≡ id = key-find payment_key id row w.payments found in
    rw (done.payments, same)
      (All-modify id amount done.t row w.payments found done.positive done.within h)
