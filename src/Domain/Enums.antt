-- ===== src/Domain/Enums.antt =====
-- app/domain/enums.py
use apex_payments_engine.Prelude.{String, ◌≡◌, Bool, true, false, arith}

pub data OwnerType : Type 0 where
  user merchant system : OwnerType

pub data AccountType : Type 0 where
  user_wallet merchant_payable psp_suspense fee_income : AccountType

pub data Direction : Type 0 where
  debit credit : Direction

pub data TransactionType : Type 0 where
  payment refund reversal fee : TransactionType

pub data PaymentStatus : Type 0 where
  created processing authorized succeeded failed funds_locked refund_pending refunded :
      PaymentStatus

pub data RefundStatus : Type 0 where
  pending succeeded failed : RefundStatus

pub data WebhookStatus : Type 0 where
  received processed failed : WebhookStatus

pub data IdempotencyStatus : Type 0 where
  in_progress completed : IdempotencyStatus

pub data AuthorizationOutcome : Type 0 where
  captured pending declined : AuthorizationOutcome

-- `payment.status == PaymentStatus.AUTHORIZED`
abbrev pub is_authorized : PaymentStatus → Bool
is_authorized PaymentStatus.authorized = true
is_authorized _ = false

-- `payment.status in (PaymentStatus.SUCCEEDED, PaymentStatus.REFUND_PENDING)`
abbrev pub is_refundable : PaymentStatus → Bool
is_refundable PaymentStatus.succeeded = true
is_refundable PaymentStatus.refund_pending = true
is_refundable _ = false

pub is_authorized_eq : (s : PaymentStatus) → is_authorized s ≡ true → s ≡ PaymentStatus.authorized
is_authorized_eq s h = ground arith

-- `payment.status.value` and `refund_record.status.value`
unfoldable pub payment_status_value : PaymentStatus → String
payment_status_value PaymentStatus.created = "CREATED"
payment_status_value PaymentStatus.processing = "PROCESSING"
payment_status_value PaymentStatus.authorized = "AUTHORIZED"
payment_status_value PaymentStatus.succeeded = "SUCCEEDED"
payment_status_value PaymentStatus.failed = "FAILED"
payment_status_value PaymentStatus.funds_locked = "FUNDS_LOCKED"
payment_status_value PaymentStatus.refund_pending = "REFUND_PENDING"
payment_status_value PaymentStatus.refunded = "REFUNDED"

unfoldable pub refund_status_value : RefundStatus → String
refund_status_value RefundStatus.pending = "PENDING"
refund_status_value RefundStatus.succeeded = "SUCCEEDED"
refund_status_value RefundStatus.failed = "FAILED"
