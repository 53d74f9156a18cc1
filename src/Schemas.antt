-- ===== src/Schemas.antt =====
-- app/application/schemas.py: the requests with the constraints of their fields, and the responses.
use Prim.Native.String.{count}
use apex_payments_engine.Prelude.{ℕ, String, Bool, ◌&&◌, Option, List, leb, ◌==◌}
use apex_payments_engine.Prelude.Int.{ℤ, pos, ltb_ℤ}
use apex_payments_engine.Domain.Enums.{Direction, PaymentStatus, RefundStatus}
use apex_payments_engine.Domain.Exceptions.{Uuid, Time}

pub record CreatePaymentRequest : Type 0 where
  pub merchant_id : String
  pub payer_account_id : Uuid
  pub payee_account_id : Uuid
  pub amount : ℤ
  pub currency : String

-- `min_length=1`, `gt=0`, `min_length=3, max_length=3`
unfoldable pub is_valid_payment : CreatePaymentRequest → Bool
is_valid_payment request =
    leb 1 (count request.merchant_id) && ltb_ℤ (pos 0) request.amount && count request.currency == 3

pub record RefundRequest : Type 0 where
  pub amount : ℤ

-- `gt=0`
unfoldable pub is_valid_refund : RefundRequest → Bool
is_valid_refund request = ltb_ℤ (pos 0) request.amount

pub record PaymentResponse : Type 0 where
  pub id : Uuid
  pub merchant_id : String
  pub payer_account_id : Uuid
  pub payee_account_id : Uuid
  pub amount : ℤ
  pub currency : String
  pub status : PaymentStatus
  pub psp_reference : Option String
  pub refunded_amount : ℤ
  pub created_at : Time

pub record RefundResponse : Type 0 where
  pub id : Uuid
  pub payment_id : Uuid
  pub amount : ℤ
  pub status : RefundStatus
  pub created_at : Time

-- A stored `response_body`: the dump of one of the responses, or the empty dictionary.
pub data ResponseBody : Type 0 where
  empty_body : ResponseBody
  payment_body : PaymentResponse → ResponseBody
  refund_body : RefundResponse → ResponseBody

pub record BalanceResponse : Type 0 where
  pub account_id : Uuid
  pub balance : ℤ
  pub currency : String
  pub updated_at : Time

pub record LedgerEntryResponse : Type 0 where
  pub id : ℕ
  pub transaction_id : Uuid
  pub direction : Direction
  pub amount : ℤ
  pub created_at : Time

pub record LedgerPageResponse : Type 0 where
  pub account_id : Uuid
  pub entries : List LedgerEntryResponse

pub record IntegrityResponse : Type 0 where
  pub balanced : Bool
  pub ledger_net : ℤ
  pub drifted_accounts_count : ℕ
