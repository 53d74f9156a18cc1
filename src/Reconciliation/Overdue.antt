-- ===== src/Reconciliation/Overdue.antt =====
-- Which payments the query of `expire_stale_holds` selects.
use apex_payments_engine.Prelude.{
  ℕ, ◌+◌, ◌*◌, ◌<◌, ◌≡◌, refl, sym, ap, ◌∙◌, Bool, true, false, ◌&&◌, none, some, some_eq, List, [],
  ◌∷◌, arith, ◌==◌, inl, inr, Bool-cases, Option-cases,
}
use apex_payments_engine.Prelude.Table.{find, IsKeyed}
use apex_payments_engine.Domain.Enums.{PaymentStatus, is_authorized, is_authorized_eq}
use apex_payments_engine.Domain.Exceptions.{Uuid, Time}
use apex_payments_engine.Domain.Models.{Payment}
use apex_payments_engine.Saga.{payment_key}
use apex_payments_engine.Reconciliation.{is_stale, stale_payments}

module _ (now : Time) (timeout_minutes : ℕ) where
  -- What the query selects.
  abbrev is_due : Payment → Bool
  is_due p = is_authorized p.status && is_stale now timeout_minutes p

  stale-none :
      (k : Uuid) (ps : List Payment)
      → find payment_key k ps ≡ none
      → find payment_key k (stale_payments now timeout_minutes ps) ≡ none
  unfolding stale_payments
  stale-none k [] h = refl
  stale-none k (p ∷ ps) h = ground (arith, stale-none k ps)

  pub stale-IsKeyed :
      (ps : List Payment)
      → IsKeyed payment_key ps
      → IsKeyed payment_key (stale_payments now timeout_minutes ps)
  unfolding stale_payments
  stale-IsKeyed [] h = tt
  stale-IsKeyed (p ∷ ps) h = elim (Bool-cases (is_due p)) [
    | inl stale ↦ rw stale (stale-none p.id ps h.0, stale-IsKeyed ps h.1)
    | inr kept ↦ rw kept (stale-IsKeyed ps h.1)
  ]

  module _ (j : Uuid) (p : Payment) where
    pub stale-due :
        (ps : List Payment)
        → find payment_key j ps ≡ some p
        → is_due p ≡ true
        → find payment_key j (stale_payments now timeout_minutes ps) ≡ some p
    unfolding stale_payments
    stale-due [] found due = absurd (ground arith)
    stale-due (x ∷ ps) found due = elim (Bool-cases (x.id == j)) [
      | inl here ↦
          let same : x ≡ p = some_eq (rw here at found) in
          let due' : is_due x ≡ true = rw same due in rw (due', here, same) refl
      | inr there ↦
          let rest = stale-due ps (rw there at found) due in
          elim (Bool-cases (is_due x)) [
            | inl stale ↦ rw (stale, there) rest
            | inr kept ↦ rw kept rest
          ]
    ]

    stale-undue :
        (ps : List Payment)
        → IsKeyed payment_key ps
        → find payment_key j ps ≡ some p
        → is_due p ≡ false
        → find payment_key j (stale_payments now timeout_minutes ps) ≡ none
    unfolding stale_payments
    stale-undue [] keyed found undue = absurd (ground arith)
    stale-undue (x ∷ ps) keyed found undue = elim (Bool-cases (x.id == j)) [
      | inl here ↦
          let same : x ≡ p = some_eq (rw here at found) in
          let undue' : is_due x ≡ false = rw same undue in
          let at_j : x.id ≡ j = ground arith in
          rw undue' (stale-none j ps (ap (λ k. find payment_key k ps) (sym at_j) ∙ keyed.0))
      | inr there ↦
          let rest = stale-undue ps keyed.1 (rw there at found) undue in
          elim (Bool-cases (is_due x)) [
            | inl stale ↦ rw (stale, there) rest
            | inr kept ↦ rw kept rest
          ]
    ]

-- The payment has waited for its webhook for more than `timeout_minutes` minutes, which are as many
-- times 60 million microseconds.
abbrev pub IsOverdue : Time → ℕ → Payment → Type 0
IsOverdue now timeout_minutes p =
    (p.status ≡ PaymentStatus.authorized) × (p.created_at + timeout_minutes * 60000000 < now)

module _ (now : Time) (timeout_minutes : ℕ) where
  pub due-IsOverdue :
      (p : Payment) → is_due now timeout_minutes p ≡ true → IsOverdue now timeout_minutes p
  due-IsOverdue p h = (is_authorized_eq p.status (ground arith), ground arith)

  pub overdue_due :
      (p : Payment) → IsOverdue now timeout_minutes p → is_due now timeout_minutes p ≡ true
  overdue_due p h = rw h.0 (ground (arith, h.1))

  pub stale-found :
      (j : Uuid) (p : Payment) (ps : List Payment)
      → IsKeyed payment_key ps
      → find payment_key j (stale_payments now timeout_minutes ps) ≡ some p
      → (find payment_key j ps ≡ some p) × (is_due now timeout_minutes p ≡ true)
  stale-found j p ps keyed h = elim (Option-cases (find payment_key j ps)) [
    | inl missing ↦ absurd (cc (stale-none now timeout_minutes j ps missing, h))
    | inr (x, there) ↦ elim (Bool-cases (is_due now timeout_minutes x)) [
      | inl due ↦
          let same : x ≡ p = some_eq (sym (stale-due now timeout_minutes j x ps there due) ∙ h) in
          (there ∙ ap some same, ap (is_due now timeout_minutes) (sym same) ∙ due)
      | inr undue ↦ absurd (cc (stale-undue now timeout_minutes j x ps keyed there undue, h))
    ]
  ]
