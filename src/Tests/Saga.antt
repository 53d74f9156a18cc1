-- ===== src/Tests/Saga.antt =====
-- The theorems on the saga at a concrete payment.
use apex_payments_engine.Prelude.{◌≡◌, refl, some, arith}
use apex_payments_engine.Prelude.Int.{pos, ◌+ℤ◌, ◌≤ℤ◌}
use apex_payments_engine.Domain.Enums.{PaymentStatus}
use apex_payments_engine.Domain.Models.{Payment}
use apex_payments_engine.Session.{World, ok}
use apex_payments_engine.Ledger.Postings.{balance_of}
use apex_payments_engine.Saga.{
  payment_row, psp_suspense_account_id, settled, reversed, hold, settle, reverse,
}
use apex_payments_engine.Saga.Compensation.{
  IsSamePayment, transferred, settle_transfers, reverse_compensates,
}
use apex_payments_engine.Payments.{new_payment}
use apex_payments_engine.Tests.World.{env, payer, payee, world, request, program}

abbrev created : Payment
created = new_payment 500 request 0

abbrev processing : Payment
processing = record created { status = PaymentStatus.processing; updated_at = 0 }

abbrev held : World
held = (hold env created world).1

held_ok : hold env created world ≡ (ok processing, held)
unfolding program
held_ok = refl

held_found : payment_row 500 held.db ≡ some processing
unfolding program
held_found = refl

held_funded : processing.amount ≤ℤ balance_of psp_suspense_account_id held.db
unfolding program
held_funded = omega arith

same_payment : IsSamePayment created processing
same_payment = record { payer_account = refl; payee_account = refl; amount = refl }

abbrev settled_payment : Payment
settled_payment = settled "ref" held.calls processing

abbrev settled_world : World
settled_world = (settle env 500 "ref" held).1

settled_ok : settle env 500 "ref" held ≡ (ok settled_payment, settled_world)
unfolding program
settled_ok = refl

abbrev reversed_payment : Payment
reversed_payment = reversed held.calls processing

abbrev reversed_world : World
reversed_world = (reverse env 500 held).1

reversed_ok : reverse env 500 held ≡ (ok reversed_payment, reversed_world)
unfolding program
reversed_ok = refl

settle_transfers_example :
    balance_of payee held.db +ℤ balance_of payee settled_world.db
    ≡ balance_of payee world.db
      +ℤ balance_of payee held.db
      +ℤ transferred payer payee (pos 5000) payee
settle_transfers_example =
    settle_transfers env created processing settled_payment processing world held held settled_world
      held_ok held_found same_payment "ref" settled_ok payee

reverse_compensates_example :
    balance_of payer held.db +ℤ balance_of payer reversed_world.db
    ≡ balance_of payer world.db +ℤ balance_of payer held.db
reverse_compensates_example =
    reverse_compensates env created processing reversed_payment processing world held held
      reversed_world held_ok held_found same_payment reversed_ok payer
