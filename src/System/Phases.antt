-- ===== src/System/Phases.antt =====
-- The phases of a payment and the suspense account.
use apex_payments_engine.Prelude.{
  ℕ, ◌≡◌, ◌≢◌, refl, sym, ap, ◌∙◌, String, true, false, Option, none, some, some_eq, List, [], ◌∷◌,
  ◌++◌, All-append, arith, ◌==◌,
}
use apex_payments_engine.Prelude.Int.{ℤ, pos, ◌+ℤ◌, ◌-ℤ◌, eq_ℤ, int_laws}
use apex_payments_engine.Prelude.Table.{find, modify, find-append, key-find}
use apex_payments_engine.Domain.Enums.{
  PaymentStatus, AuthorizationOutcome, captured, pending, declined, is_refundable,
}
use apex_payments_engine.Domain.Exceptions.{Uuid, Time}
use apex_payments_engine.Domain.Models.{Payment}
use apex_payments_engine.Schemas.{RefundResponse}
use apex_payments_engine.Session.{Environment, World, ok, ◌>>=◌}
use apex_payments_engine.Ledger.Balances.{movement}
use apex_payments_engine.Saga.{
  payment_key, payment_row, psp_suspense_account_id, settle_postings, reverse_postings, settled,
  reversed, hold, settle, reverse,
}
use apex_payments_engine.Saga.Transitions.{
  settle-IsTransition, reverse-IsTransition, hold-IsTransition,
}
use apex_payments_engine.Saga.Compensation.{transferred, movement-transfer}
use apex_payments_engine.Payments.{authorized, mark_authorized, apply_outcome, reference_or_empty}
use apex_payments_engine.Refunds.{refunded, refund_postings, refund_payment}
use apex_payments_engine.Refunds.Effects.{refund-IsRefunded}
use apex_payments_engine.System.Statuses.{
  held_settles, held_fails, held_waits, refund_status, later,
}
use apex_payments_engine.System.Lifecycle.{IsFollowed-append}
use apex_payments_engine.System.Escrow.{
  is_held, held_amount, IsApart, IsUnique, IsProcessing, IsSound, IsKept, IsAdvanced, KeepsEscrow,
  find-All, modified-IsAdvanced, IsKept-of_IsAdvanced, held_total-append,
}

paid_out :
    (to : Uuid) (amount : ℤ)
    → (to == psp_suspense_account_id) ≡ false
    → transferred psp_suspense_account_id to amount psp_suspense_account_id ≡ pos 0 -ℤ amount
paid_out to amount apart = rw apart refl

passed_by :
    (from to : Uuid) (amount : ℤ)
    → (from == psp_suspense_account_id) ≡ false
    → (to == psp_suspense_account_id) ≡ false
    → transferred from to amount psp_suspense_account_id ≡ pos 0
passed_by from to amount apart apart' = rw (apart, apart') (omega int_laws)

paid_in :
    (from : Uuid) (amount : ℤ)
    → (from == psp_suspense_account_id) ≡ false
    → transferred from psp_suspense_account_id amount psp_suspense_account_id ≡ amount
paid_in from amount apart = rw apart (omega int_laws)

-- A payment whose amount leaves the suspense account.
released :
    (row : Payment) (q : Payment) (x : ℤ)
    → is_held row.status ≡ true
    → is_held q.status ≡ false
    → x ≡ pos 0 -ℤ row.amount
    → x ≡ held_amount q -ℤ held_amount row
released row q x held free e = rw (held, free) e

module _ (env : Environment) (id : Uuid) (row : Payment) (w w' : World) (p : Payment)
    (found : payment_row id w.db ≡ some row) (held : is_held row.status ≡ true)
    (sound : IsSound w.db) where
  -- A settlement of a payment that is held.
  pub settle-IsAdvanced :
      (ref : String) → settle env id ref w ≡ (ok p, w') → IsAdvanced id w.db w'.db
  settle-IsAdvanced ref h =
      let (row', t, found', e, done) = settle-IsTransition env id ref p w w' h in
      let same : row' ≡ row = some_eq (sym found' ∙ found) in
      let apart = find-All IsApart id row w.payments sound.apart found in
      let s = psp_suspense_account_id in
      modified-IsAdvanced w.db w'.db id (settled ref t) row (movement s (settle_postings row'))
        found done.payments_lem (done.recorded.balances s)
        (released row (settled ref t row) (movement s (settle_postings row')) held refl (
          rw same (
            movement-transfer s row.payee_account s row.amount
            ∙ paid_out row.payee_account row.amount apart.1)))
        (λ q. refl) (λ q a. a)
        (later row (settled ref t row) (held_settles row.status held) refl refl refl) sound

  -- A reversal of a payment that is held.
  pub reverse-IsAdvanced : reverse env id w ≡ (ok p, w') → IsAdvanced id w.db w'.db
  reverse-IsAdvanced h =
      let (row', t, found', e, done) = reverse-IsTransition env id p w w' h in
      let same : row' ≡ row = some_eq (sym found' ∙ found) in
      let apart = find-All IsApart id row w.payments sound.apart found in
      let s = psp_suspense_account_id in
      modified-IsAdvanced w.db w'.db id (reversed t) row (movement s (reverse_postings row')) found
        done.payments_lem (done.recorded.balances s)
        (released row (reversed t row) (movement s (reverse_postings row')) held refl (
          rw same (
            movement-transfer s row.payer_account s row.amount
            ∙ paid_out row.payer_account row.amount apart.0)))
        (λ q. refl) (λ q a. a)
        (later row (reversed t row) (held_fails row.status held) refl refl refl) sound

  mark_authorized-eq-ok :
      (ref : Option String)
      → mark_authorized env id ref w ≡ (ok p, w')
      → (t : Time) × (w'.payments ≡ modify payment_key id (authorized ref t) w.payments)
        × (w'.balances ≡ w.balances)
  unfolding mark_authorized ◌>>=◌
  mark_authorized-eq-ok ref h = (env.now w.calls, ground (arith, found), ground (arith, found))

  -- Whatever the provider answers.
  pub apply_outcome-IsAdvanced :
      (outcome : AuthorizationOutcome) (ref : Option String)
      → apply_outcome env id outcome ref w ≡ (ok p, w')
      → IsAdvanced id w.db w'.db
  unfolding apply_outcome
  apply_outcome-IsAdvanced captured ref h = settle-IsAdvanced (reference_or_empty ref) h
  apply_outcome-IsAdvanced declined ref h = reverse-IsAdvanced h
  apply_outcome-IsAdvanced pending ref h =
      let (t, payments, balances) = mark_authorized-eq-ok ref h in
      modified-IsAdvanced w.db w'.db id (authorized ref t) row (pos 0) found payments
        (rw balances (omega int_laws)) (rw held (omega int_laws)) (λ q. refl) (λ q a. a)
        (later row (authorized ref t row) (held_waits row.status held) refl refl refl) sound

not_processing_of_refundable :
    (s : PaymentStatus) → is_refundable s ≡ true → s ≢ PaymentStatus.processing
not_processing_of_refundable s h e = ground arith

free_of_refundable : (s : PaymentStatus) → is_refundable s ≡ true → is_held s ≡ false
free_of_refundable s h = ground arith

refunded_free :
    (row : Payment) (amount : ℤ) (t : Time)
    → is_refundable row.status ≡ true
    → is_held (refunded amount t row).status ≡ false
refunded_free row amount t h = ground (arith, free_of_refundable row.status h)

-- A refund moves nothing on the suspense account.
pub refund_payment-KeepsEscrow :
    (env : Environment) (key : String) (id : Uuid) (amount : ℤ) (answer : ℕ × RefundResponse)
    (w w' : World)
    → refund_payment env key id amount w ≡ (ok answer, w')
    → KeepsEscrow w.db w'.db
refund_payment-KeepsEscrow env key id amount answer w w' h = record {
  keeps = λ sound.
      let (row, r, found, reply, done) = refund-IsRefunded env key id amount answer w w' h in
      let s = psp_suspense_account_id in
      let apart = find-All IsApart id row w.payments sound.apart found in
      let same : row.id ≡ id = key-find payment_key id row w.payments found in
      let found' : payment_row row.id w.db ≡ some row = rw same found in
      IsKept-of_IsAdvanced w.db w'.db row.id row found'
        (not_processing_of_refundable row.status done.refundable)
        (modified-IsAdvanced w.db w'.db row.id (refunded amount done.t) row
          (movement s (refund_postings row amount)) found' done.payments (done.recorded.balances s)
          (movement-transfer row.payee_account row.payer_account s amount
            ∙ passed_by row.payee_account row.payer_account amount apart.1 apart.0
            ∙ rw
                (
                  free_of_refundable row.status done.refundable,
                  refunded_free row amount done.t done.refundable,
                )
                (omega int_laws))
          (λ q. refl) (λ q a. a)
          (later row (refunded amount done.t row)
            (refund_status row.status (eq_ℤ (row.refunded_amount +ℤ amount) row.amount)
              done.refundable)
            refl refl refl)
          sound);
}

IsUnique-append :
    (p : Payment) (ps : List Payment)
    → IsUnique (ps ++ p ∷ [])
    → (find payment_key p.id ps ≡ none) × IsUnique ps
IsUnique-append p [] h = (refl, tt)
IsUnique-append p (q ∷ ps) h =
    let (fresh, unique) = IsUnique-append p ps h.1 in
    let apart = find-append payment_key q.id p ps in
    (ground (arith, fresh, apart), (ground (arith, apart), unique))

-- A hold adds a payment that is PROCESSING and its amount to the suspense account, if its parties
-- are apart and the database has refused a second payment with its id.
pub hold-IsKept :
    (env : Environment) (created p : Payment) (w w' : World)
    → ((created.payer_account == psp_suspense_account_id) ≡ false)
      × ((created.payee_account == psp_suspense_account_id) ≡ false)
    → hold env created w ≡ (ok p, w')
    → IsUnique w'.payments
    → IsSound w.db
    → IsKept w.db w'.db × IsProcessing created.id w'.db × (payment_row created.id w.db ≡ none)
hold-IsKept env created p w w' apart h unique sound =
    let (t, made, done) = hold-IsTransition env created p w w' h in
    let s = psp_suspense_account_id in
    let id_lem : p.id ≡ created.id = ap (λ (q : Payment). q.id) made in
    let status : p.status ≡ PaymentStatus.processing = ap (λ (q : Payment). q.status) made in
    let amount : p.amount ≡ created.amount = ap (λ (q : Payment). q.amount) made in
    let apart' : IsApart p = rw made (apart.0, apart.1, done.recorded.balanced.positive.0) in
    let split = IsUnique-append p w.payments (rw done.payments_lem at unique) in
    let fresh : payment_row created.id w.db ≡ none = rw id_lem at split.0 in
    let appended = λ (j : Uuid).
      ap (find payment_key j) done.payments_lem ∙ find-append payment_key j p w.payments in
    (
      record {
        sound = record {
          apart =
              rw done.payments_lem
                (All-append IsApart w.payments (p ∷ []) sound.apart (apart', tt));
          unique = unique;
        };
        surplus_lem =
            rw
              (
                done.recorded.balances s,
                movement-transfer created.payer_account s s created.amount
                    ∙ paid_in created.payer_account created.amount apart.0,
                done.payments_lem,
                held_total-append p w.payments,
                status,
                amount,
              )
              (omega int_laws);
        processing = λ j (r, there, st). (r, appended j ∙ rw there refl, st);
        followed = IsFollowed-append w.db w'.db p done.payments_lem;
      },
      (p, appended created.id ∙ rw fresh (ground (arith, id_lem)), status),
      fresh,
    )
