-- ===== src/System/Lifecycle.antt =====
-- The statuses of a payment as a state machine: the steps are what app/application/payment_service.py,
-- payment_saga.py, refund_service.py, webhook_service.py and reconciliation_service.py do to it.
use native.Mathlib.Decide.{ℕ_discrete}
use apex_payments_engine.Prelude.{◌≡◌, refl, sym, ap, ◌∙◌, subst, some, some_eq, [], ◌∷◌, ◌++◌}
use apex_payments_engine.Prelude.Table.{find, modify, find-modify_self, find-modify_ne, find-append}
use apex_payments_engine.Domain.Enums.{PaymentStatus}
use apex_payments_engine.Domain.Exceptions.{Uuid}
use apex_payments_engine.Domain.Models.{Payment, Database}
use apex_payments_engine.Saga.{payment_key, payment_row}

-- The provider's answer; the webhook or the expiry of an AUTHORIZED payment; the last refund.
pub data Follows : PaymentStatus → PaymentStatus → Type 0 where
  captured_at_once : Follows PaymentStatus.processing PaymentStatus.succeeded
  declined_at_once : Follows PaymentStatus.processing PaymentStatus.failed
  left_waiting : Follows PaymentStatus.processing PaymentStatus.authorized
  captured_later : Follows PaymentStatus.authorized PaymentStatus.succeeded
  given_up : Follows PaymentStatus.authorized PaymentStatus.failed
  refunded_fully : Follows PaymentStatus.succeeded PaymentStatus.refunded
  refund_ended : Follows PaymentStatus.refund_pending PaymentStatus.refunded

pub data Reaches (s : PaymentStatus) : PaymentStatus → Type 0 where
  stay : Reaches s s
  next : {t u : PaymentStatus} → Reaches s t → Follows t u → Reaches s u

Reaches-trans : {s t u : PaymentStatus} → Reaches s t → Reaches t u → Reaches s u
Reaches-trans a stay = a
Reaches-trans a (next b f) = next (Reaches-trans a b) f

-- The payment later: the same amount and parties, and a status that the machine comes to.
pub record IsLater (p q : Payment) : Type 0 where
  pub status : Reaches p.status q.status
  pub amount : q.amount ≡ p.amount
  pub payer_account : q.payer_account ≡ p.payer_account
  pub payee_account : q.payee_account ≡ p.payee_account

-- Each payment is in the tables still, and is what it was or a later state of it.
abbrev pub IsFollowed : Database → Database → Type 0
IsFollowed d e =
    (j : Uuid) (p : Payment)
    → payment_row j d ≡ some p
    → (q : Payment) × (payment_row j e ≡ some q) × IsLater p q

IsLater-refl : (p : Payment) → IsLater p p
IsLater-refl p = record { status = stay; amount = refl; payer_account = refl; payee_account = refl }

IsLater-trans : (p q r : Payment) → IsLater p q → IsLater q r → IsLater p r
IsLater-trans p q r a b = record {
  status = Reaches-trans a.status b.status;
  amount = b.amount ∙ a.amount;
  payer_account = b.payer_account ∙ a.payer_account;
  payee_account = b.payee_account ∙ a.payee_account;
}

pub IsFollowed-refl : (d : Database) → IsFollowed d d
IsFollowed-refl d j p found = (p, found, IsLater-refl p)

pub IsFollowed-same : (d e : Database) → e.payments ≡ d.payments → IsFollowed d e
IsFollowed-same d e same j p found = (p, ap (find payment_key j) same ∙ found, IsLater-refl p)

pub IsFollowed-trans : (d e f : Database) → IsFollowed d e → IsFollowed e f → IsFollowed d f
IsFollowed-trans d e f h k j p found =
    let (q, found', a) = h j p found in
    let (r, found'', b) = k j q found' in (r, found'', IsLater-trans p q r a b)

pub IsFollowed-modify :
    (d e : Database) (id : Uuid) (f : Payment → Payment) (row : Payment)
    → payment_row id d ≡ some row
    → e.payments ≡ modify payment_key id f d.payments
    → ((p : Payment) → (f p).id ≡ p.id)
    → IsLater row (f row)
    → IsFollowed d e
IsFollowed-modify d e id f row there payments same later j p found = elim (ℕ_discrete j id) [
  | yes here ↦
      let is_row : row ≡ p = some_eq (sym there ∙ ap (λ k. payment_row k d) (sym here) ∙ found) in
      (
        f row,
        ap (find payment_key j) payments
            ∙ ap (λ k. find payment_key k (modify payment_key id f d.payments)) here
            ∙ find-modify_self payment_key id f row d.payments same there,
        subst (λ x. IsLater x (f row)) is_row later,
      )
  | no ne ↦ (
    p,
    ap (find payment_key j) payments ∙ find-modify_ne payment_key j id f d.payments same ne ∙ found,
    IsLater-refl p,
  )
]

pub IsFollowed-append :
    (d e : Database) (p : Payment) → e.payments ≡ d.payments ++ p ∷ [] → IsFollowed d e
IsFollowed-append d e p payments j q found = (
  q,
  ap (find payment_key j) payments ∙ find-append payment_key j p d.payments ∙ rw found refl,
  IsLater-refl q,
)
