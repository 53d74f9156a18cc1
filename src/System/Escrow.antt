-- ===== src/System/Escrow.antt =====
-- The suspense account and the payments whose amounts it holds.
use apex_payments_engine.Prelude.{
  ◌≡◌, ◌≢◌, refl, sym, ap, ◌∙◌, subst, Bool, true, false, some, some_eq, List, [], ◌∷◌, ◌++◌, All,
  arith, ◌==◌, if◌then◌else◌, inl, inr, Bool-cases,
}
use native.Mathlib.Decide.{ℕ_discrete}
use apex_payments_engine.Prelude.Int.{ℤ, pos, ◌+ℤ◌, ◌-ℤ◌, ◌<ℤ◌, ◌≤ℤ◌, int_laws}
use apex_payments_engine.Prelude.Table.{IsKeyed, modify-IsKeyed, find, modify, find-modify_ne}
use apex_payments_engine.Domain.Enums.{PaymentStatus}
use apex_payments_engine.Domain.Exceptions.{Uuid}
use apex_payments_engine.Domain.Models.{Payment, Database}
use apex_payments_engine.Session.Ensures.{IsPreorder}
use apex_payments_engine.Ledger.Postings.{balance_of}
use apex_payments_engine.Saga.{payment_key, payment_row, psp_suspense_account_id}
use apex_payments_engine.System.Lifecycle.{
  IsLater, IsFollowed, IsFollowed-refl, IsFollowed-same, IsFollowed-trans, IsFollowed-modify,
}

-- The statuses in which a payment's amount lies on the suspense account.
abbrev pub is_held : PaymentStatus → Bool
is_held PaymentStatus.processing = true
is_held PaymentStatus.authorized = true
is_held _ = false

abbrev pub held_amount : Payment → ℤ
held_amount p = if is_held p.status then p.amount else pos 0

unfoldable pub held_total : List Payment → ℤ
held_total [] = pos 0
held_total (p ∷ ps) = held_amount p +ℤ held_total ps

-- What the suspense account has beyond the payments that it holds.
abbrev pub surplus : Database → ℤ
surplus d = balance_of psp_suspense_account_id d -ℤ held_total d.payments

-- Neither party is the suspense account itself, and the amount is positive.
abbrev pub IsApart : Payment → Type 0
IsApart p =
    ((p.payer_account == psp_suspense_account_id) ≡ false)
    × ((p.payee_account == psp_suspense_account_id) ≡ false)
    × (pos 0 <ℤ p.amount)

-- No two payments have one id.
abbrev pub IsUnique : List Payment → Type 0
IsUnique = IsKeyed payment_key

abbrev pub IsProcessing : Uuid → Database → Type 0
IsProcessing j d =
    (row : Payment) × (payment_row j d ≡ some row) × (row.status ≡ PaymentStatus.processing)

pub record IsSound (d : Database) : Type 0 where
  pub apart : All IsApart d.payments
  pub unique : IsUnique d.payments

-- The tables are sound still, the surplus is the same, what was PROCESSING is so still, and each
-- payment is what it was or a later state of it.
pub record IsKept (d e : Database) : Type 0 where
  pub sound : IsSound e
  pub surplus_lem : surplus e ≡ surplus d
  pub processing : (j : Uuid) → IsProcessing j d → IsProcessing j e
  pub followed : IsFollowed d e

-- The same, but for the payment `id`.
pub record IsAdvanced (id : Uuid) (d e : Database) : Type 0 where
  pub sound : IsSound e
  pub surplus_lem : surplus e ≡ surplus d
  pub others : (j : Uuid) → j ≢ id → IsProcessing j d → IsProcessing j e
  pub followed : IsFollowed d e

pub record KeepsEscrow (d e : Database) : Type 0 where
  pub keeps : IsSound d → IsKept d e

pub KeepsEscrow-preorder : IsPreorder KeepsEscrow
KeepsEscrow-preorder = record {
  here = λ d. record {
    keeps = λ s. record {
      sound = s;
      surplus_lem = refl;
      processing = λ j h. h;
      followed = IsFollowed-refl d;
    };
  };
  step = λ d e f h k. record {
    keeps = λ s.
        let a = h.keeps s in
        let b = k.keeps a.sound in
        record {
          sound = b.sound;
          surplus_lem = b.surplus_lem ∙ a.surplus_lem;
          processing = λ j p. b.processing j (a.processing j p);
          followed = IsFollowed-trans d e f a.followed b.followed;
        };
  };
}

pub same_escrow :
    (d e : Database) → e.payments ≡ d.payments → e.balances ≡ d.balances → KeepsEscrow d e
same_escrow d e payments balances = record {
  keeps = λ s. record {
    sound = record { apart = rw payments s.apart; unique = rw payments s.unique };
    surplus_lem = rw (payments, balances) refl;
    processing = λ j h. rw payments h;
    followed = IsFollowed-same d e payments;
  };
}

pub held_total-append :
    (p : Payment) (ps : List Payment) → held_total (ps ++ p ∷ []) ≡ held_total ps +ℤ held_amount p
unfolding held_total
held_total-append p [] = omega int_laws
held_total-append p (q ∷ ps) = rw (held_total-append p ps) (omega int_laws)

module _ (id : Uuid) (f : Payment → Payment) (row : Payment) where
  pub held_total-modify :
      (ps : List Payment)
      → find payment_key id ps ≡ some row
      → held_total (modify payment_key id f ps)
        ≡ held_total ps -ℤ held_amount row +ℤ held_amount (f row)
  unfolding held_total
  held_total-modify [] found = ground arith
  held_total-modify (p ∷ ps) found = elim (Bool-cases (p.id == id)) [
    | inl here ↦ let same : p ≡ row = some_eq (rw here at found) in rw (here, same) (omega int_laws)
    | inr there ↦ rw (there, held_total-modify ps (rw there at found)) (omega int_laws)
  ]

module _ (id : Uuid) (f : Payment → Payment) (same : (p : Payment) → (f p).id ≡ p.id) where
  pub modify-All :
      (P : Payment → Type 0) (ps : List Payment)
      → ((p : Payment) → P p → P (f p))
      → All P ps
      → All P (modify payment_key id f ps)
  modify-All P [] keep h = tt
  modify-All P (p ∷ ps) keep h = elim (Bool-cases (p.id == id)) [
    | inl here ↦ rw here (keep p h.0, h.1)
    | inr there ↦ rw there (h.0, modify-All P ps keep h.1)
  ]

pub find-All :
    (P : Payment → Type 0) (id : Uuid) (row : Payment) (ps : List Payment)
    → All P ps
    → find payment_key id ps ≡ some row
    → P row
find-All P id row [] h found = absurd (ground arith)
find-All P id row (p ∷ ps) h found = elim (Bool-cases (p.id == id)) [
  | inl here ↦ subst P (some_eq (rw here at found)) h.0
  | inr there ↦ find-All P id row ps h.1 (rw there at found)
]

-- One payment changed, with the suspense account following what it holds of it.
module _ (d e : Database) (id : Uuid) (f : Payment → Payment) (row : Payment) (x : ℤ)
    (found : payment_row id d ≡ some row)
    (payments : e.payments ≡ modify payment_key id f d.payments)
    (balance : balance_of psp_suspense_account_id e ≡ balance_of psp_suspense_account_id d +ℤ x)
    (follows : x ≡ held_amount (f row) -ℤ held_amount row) (same : (p : Payment) → (f p).id ≡ p.id)
    (apart : (p : Payment) → IsApart p → IsApart (f p)) (later : IsLater row (f row)) where
  pub modified-IsAdvanced : IsSound d → IsAdvanced id d e
  modified-IsAdvanced s = record {
    sound = record {
      apart = rw payments (modify-All id f same IsApart d.payments apart s.apart);
      unique = rw payments (modify-IsKeyed payment_key id f same d.payments s.unique);
    };
    surplus_lem =
        rw (payments, held_total-modify id f row d.payments found, balance, follows)
          (omega int_laws);
    others = λ j ne (r, there, status). (
      r,
      ap (find payment_key j) payments
          ∙ find-modify_ne payment_key j id f d.payments same ne
          ∙ there,
      status,
    );
    followed = IsFollowed-modify d e id f row found payments same later;
  }

-- What was PROCESSING is so still if the payment that has moved was not.
pub IsKept-of_IsAdvanced :
    (d e : Database) (id : Uuid) (row : Payment)
    → payment_row id d ≡ some row
    → row.status ≢ PaymentStatus.processing
    → IsAdvanced id d e
    → IsKept d e
IsKept-of_IsAdvanced d e id row found other h = record {
  sound = h.sound;
  surplus_lem = h.surplus_lem;
  processing = λ j p. elim (ℕ_discrete j id) [
    | yes here ↦ absurd (
        other (
          ap (λ (r : Payment). r.status)
            (some_eq (sym found ∙ ap (λ k. payment_row k d) (sym here) ∙ p.1))
          ∙ p.2))
    | no ne ↦ h.others j ne p
  ];
  followed = h.followed;
}

-- What the suspense account is due is not negative, and no less than each payment that it holds.
held_total_nonneg : (ps : List Payment) → All IsApart ps → pos 0 ≤ℤ held_total ps
unfolding held_total
held_total_nonneg [] h = omega int_laws
held_total_nonneg (p ∷ ps) h =
    let rest = held_total_nonneg ps h.1 in
    let positive = h.0.2 in
    elim (Bool-cases (is_held p.status)) [
      | inl held ↦ rw held (omega int_laws)
      | inr free ↦ rw free (omega int_laws)
    ]

pub held_total-find :
    (id : Uuid) (row : Payment) (ps : List Payment)
    → All IsApart ps
    → find payment_key id ps ≡ some row
    → is_held row.status ≡ true
    → row.amount ≤ℤ held_total ps
unfolding held_total
held_total-find id row [] h found held = absurd (ground arith)
held_total-find id row (p ∷ ps) h found held =
    let positive = h.0.2 in
    let rest = held_total_nonneg ps h.1 in
    elim (Bool-cases (p.id == id)) [
      | inl here ↦
          let same : p ≡ row = some_eq (rw here at found) in rw (same, held) (omega int_laws)
      | inr there ↦
          let below = held_total-find id row ps h.1 (rw there at found) held in
          elim (Bool-cases (is_held p.status)) [
            | inl held' ↦ rw held' (omega int_laws)
            | inr free ↦ rw free (omega int_laws)
          ]
    ]
