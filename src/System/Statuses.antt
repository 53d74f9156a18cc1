-- ===== src/System/Statuses.antt =====
-- The steps of a payment's status from where its amount is held, and from where it can be refunded.
use apex_payments_engine.Prelude.{◌≡◌, Bool, true, false, if◌then◌else◌}
use apex_payments_engine.Domain.Enums.{PaymentStatus, is_refundable}
use apex_payments_engine.Domain.Models.{Payment}
use apex_payments_engine.System.Lifecycle.{
  captured_at_once, declined_at_once, left_waiting, captured_later, given_up, refunded_fully,
  refund_ended, Reaches, stay, next, IsLater,
}
use apex_payments_engine.System.Escrow.{is_held}

clash : {A : Type 0} → false ≡ true → A
clash h = absurd cc

pub held_settles : (s : PaymentStatus) → is_held s ≡ true → Reaches s PaymentStatus.succeeded
held_settles PaymentStatus.created h = clash h
held_settles PaymentStatus.processing h = next stay captured_at_once
held_settles PaymentStatus.authorized h = next stay captured_later
held_settles PaymentStatus.succeeded h = clash h
held_settles PaymentStatus.failed h = clash h
held_settles PaymentStatus.funds_locked h = clash h
held_settles PaymentStatus.refund_pending h = clash h
held_settles PaymentStatus.refunded h = clash h

pub held_fails : (s : PaymentStatus) → is_held s ≡ true → Reaches s PaymentStatus.failed
held_fails PaymentStatus.created h = clash h
held_fails PaymentStatus.processing h = next stay declined_at_once
held_fails PaymentStatus.authorized h = next stay given_up
held_fails PaymentStatus.succeeded h = clash h
held_fails PaymentStatus.failed h = clash h
held_fails PaymentStatus.funds_locked h = clash h
held_fails PaymentStatus.refund_pending h = clash h
held_fails PaymentStatus.refunded h = clash h

pub held_waits : (s : PaymentStatus) → is_held s ≡ true → Reaches s PaymentStatus.authorized
held_waits PaymentStatus.created h = clash h
held_waits PaymentStatus.processing h = next stay left_waiting
held_waits PaymentStatus.authorized h = stay
held_waits PaymentStatus.succeeded h = clash h
held_waits PaymentStatus.failed h = clash h
held_waits PaymentStatus.funds_locked h = clash h
held_waits PaymentStatus.refund_pending h = clash h
held_waits PaymentStatus.refunded h = clash h

refundable_ends : (s : PaymentStatus) → is_refundable s ≡ true → Reaches s PaymentStatus.refunded
refundable_ends PaymentStatus.created h = clash h
refundable_ends PaymentStatus.processing h = clash h
refundable_ends PaymentStatus.authorized h = clash h
refundable_ends PaymentStatus.succeeded h = next stay refunded_fully
refundable_ends PaymentStatus.failed h = clash h
refundable_ends PaymentStatus.funds_locked h = clash h
refundable_ends PaymentStatus.refund_pending h = next stay refund_ended
refundable_ends PaymentStatus.refunded h = clash h

-- A refund that is not the last leaves the status.
pub refund_status :
    (s : PaymentStatus) (last : Bool)
    → is_refundable s ≡ true
    → Reaches s (if last then PaymentStatus.refunded else s)
refund_status s true h = refundable_ends s h
refund_status s false h = stay

-- A payment with the same amount and parties.
pub later :
    (p q : Payment)
    → Reaches p.status q.status
    → q.amount ≡ p.amount
    → q.payer_account ≡ p.payer_account
    → q.payee_account ≡ p.payee_account
    → IsLater p q
later p q status amount payer payee = record {
  status = status;
  amount = amount;
  payer_account = payer;
  payee_account = payee;
}
