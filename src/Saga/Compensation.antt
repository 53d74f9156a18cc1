-- ===== src/Saga/Compensation.antt =====
-- The two ways in which a hold ends, whatever happens between the hold and its end.
use mathlib.Core.Path.{ap₂}
use apex_payments_engine.Prelude.{
  ◌≡◌, refl, sym, ◌∙◌, subst, String, Bool, true, false, some, some_eq, [], ◌∷◌, ◌==◌,
  if◌then◌else◌,
}
use apex_payments_engine.Prelude.Int.{ℤ, pos, ◌+ℤ◌, ◌-ℤ◌, int_laws}
use apex_payments_engine.Domain.Enums.{debit, credit}
use apex_payments_engine.Domain.Exceptions.{Uuid}
use apex_payments_engine.Domain.Models.{Payment}
use apex_payments_engine.Session.{Environment, World, ok}
use apex_payments_engine.Ledger.Postings.{balance_of}
use apex_payments_engine.Ledger.Balances.{movement}
use apex_payments_engine.Saga.{
  payment_row, hold_postings, settle_postings, reverse_postings, psp_suspense_account_id, hold,
  settle, reverse,
}
use apex_payments_engine.Saga.Transitions.{
  hold-IsTransition, settle-IsTransition, reverse-IsTransition,
}

-- The row has the parties and the amount of the payment as it was created.
pub record IsSamePayment (created row : Payment) : Type 0 where
  pub payer_account : row.payer_account ≡ created.payer_account
  pub payee_account : row.payee_account ≡ created.payee_account
  pub amount : row.amount ≡ created.amount

-- What a transfer of `amount` from `payer` to `payee` adds to the balance of `b`.
abbrev pub transferred : Uuid → Uuid → ℤ → Uuid → ℤ
transferred payer payee amount b =
    (if payee == b then amount else pos 0) -ℤ (if payer == b then amount else pos 0)

debited_part :
    (t : Bool) (x : ℤ) → (if t then pos 0 -ℤ x else pos 0) ≡ pos 0 -ℤ (if t then x else pos 0)
debited_part true x = refl
debited_part false x = omega int_laws

credited_part : (t : Bool) (x : ℤ) → (if t then x -ℤ pos 0 else pos 0) ≡ (if t then x else pos 0)
credited_part true x = omega int_laws
credited_part false x = refl

-- The two postings of a phase are a transfer.
pub movement-transfer :
    (payer payee b : Uuid) (amount : ℤ)
    → movement b (
        record { account_id = payer; direction = debit; amount = amount }
        ∷ record { account_id = payee; direction = credit; amount = amount }
        ∷ [])
      ≡ transferred payer payee amount b
movement-transfer payer payee b amount =
    rw (debited_part (payer == b) amount, credited_part (payee == b) amount) (omega int_laws)

pub movement_reversed :
    (b : Uuid) (created row : Payment)
    → IsSamePayment created row
    → movement b (hold_postings created) +ℤ movement b (reverse_postings row) ≡ pos 0
movement_reversed b created row same =
    let s = psp_suspense_account_id in
    ap₂ ◌+ℤ◌ (movement-transfer created.payer_account s b created.amount)
      (movement-transfer s row.payer_account b row.amount)
    ∙ rw (same.payer_account, same.amount) (omega int_laws)

pub movement_settled :
    (b : Uuid) (created row : Payment)
    → IsSamePayment created row
    → movement b (hold_postings created) +ℤ movement b (settle_postings row)
      ≡ transferred created.payer_account created.payee_account created.amount b
movement_settled b created row same =
    let s = psp_suspense_account_id in
    ap₂ ◌+ℤ◌ (movement-transfer created.payer_account s b created.amount)
      (movement-transfer s row.payee_account b row.amount)
    ∙ rw (same.payee_account, same.amount) (omega int_laws)

-- Two changes, and what they come to together.
two_changes : (x y m n z a c : ℤ) → a ≡ x +ℤ m → c ≡ y +ℤ n → m +ℤ n ≡ z → a +ℤ c ≡ x +ℤ y +ℤ z
two_changes x y m n z a c p q r = rw (p, q, ← r) (omega int_laws)

no_change : (x y : ℤ) → x +ℤ y +ℤ pos 0 ≡ x +ℤ y
no_change x y = omega int_laws

module _ (env : Environment) (created p q row : Payment) (w w' u u' : World)
    (held : hold env created w ≡ (ok p, w')) (found : payment_row created.id u.db ≡ some row)
    (same : IsSamePayment created row) where
  -- If a hold has returned, and later, when the row of the payment still has the parties and the
  -- amount with which it was created, a reversal returns, the two change no balance between them:
  -- for every account the two changes cancel, whatever ran in between.
  pub reverse_compensates :
      reverse env created.id u ≡ (ok q, u')
      → (b : Uuid)
      → balance_of b w'.db +ℤ balance_of b u'.db ≡ balance_of b w.db +ℤ balance_of b u.db
  reverse_compensates h b =
      let (t, e, one) = hold-IsTransition env created p w w' held in
      let (row', t', found', e', two) = reverse-IsTransition env created.id q u u' h in
      let again : row' ≡ row = some_eq (sym found' ∙ found) in
      two_changes (balance_of b w.db) (balance_of b u.db) (movement b (hold_postings created))
        (movement b (reverse_postings row')) (pos 0) (balance_of b w'.db) (balance_of b u'.db)
        (one.recorded.balances b) (two.recorded.balances b)
        (movement_reversed b created row' (subst (IsSamePayment created) (sym again) same))
      ∙ no_change (balance_of b w.db) (balance_of b u.db)

  -- If a hold has returned, and later, when the row of the payment still has the parties and the
  -- amount with which it was created, a settlement returns, the two together transfer the amount
  -- from the payer to the payee, and change no other balance, whatever ran in between.
  pub settle_transfers :
      (ref : String)
      → settle env created.id ref u ≡ (ok q, u')
      → (b : Uuid)
      → balance_of b w'.db +ℤ balance_of b u'.db
        ≡ balance_of b w.db
          +ℤ balance_of b u.db
          +ℤ transferred created.payer_account created.payee_account created.amount b
  settle_transfers ref h b =
      let (t, e, one) = hold-IsTransition env created p w w' held in
      let (row', t', found', e', two) = settle-IsTransition env created.id ref q u u' h in
      let again : row' ≡ row = some_eq (sym found' ∙ found) in
      two_changes (balance_of b w.db) (balance_of b u.db) (movement b (hold_postings created))
        (movement b (settle_postings row'))
        (transferred created.payer_account created.payee_account created.amount b)
        (balance_of b w'.db) (balance_of b u'.db) (one.recorded.balances b)
        (two.recorded.balances b)
        (movement_settled b created row' (subst (IsSamePayment created) (sym again) same))
