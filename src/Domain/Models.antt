-- ===== src/Domain/Models.antt =====
-- app/domain/models.py: the rows of the tables, and the tables together. A UUID is the number of
-- its 128 bits, by which Python compares and sorts it; a time is a number.
use apex_payments_engine.Prelude.{ℕ, String, Option, List}
use apex_payments_engine.Prelude.Int.{ℤ}
use apex_payments_engine.Domain.Enums.{
  OwnerType, AccountType, Direction, TransactionType, PaymentStatus, RefundStatus, WebhookStatus,
  IdempotencyStatus,
}
use apex_payments_engine.Domain.Exceptions.{Uuid, Time}
use apex_payments_engine.Schemas.{ResponseBody}

pub record Account : Type 0 where
  pub id : Uuid
  pub owner_type : OwnerType
  pub owner_id : String
  pub type : AccountType
  pub currency : String
  pub created_at : Time

pub record AccountBalance : Type 0 where
  pub account_id : Uuid
  pub balance : ℤ
  pub version : ℕ
  pub updated_at : Time

pub record LedgerTransaction : Type 0 where
  pub id : Uuid
  pub type : TransactionType
  pub reference_id : Uuid
  pub created_at : Time

pub record LedgerEntry : Type 0 where
  pub id : ℕ
  pub transaction_id : Uuid
  pub account_id : Uuid
  pub direction : Direction
  pub amount : ℤ
  pub created_at : Time

pub record Payment : Type 0 where
  pub id : Uuid
  pub merchant_id : String
  pub payer_account : Uuid
  pub payee_account : Uuid
  pub amount : ℤ
  pub currency : String
  pub status : PaymentStatus
  pub psp_reference : Option String
  pub refunded_amount : ℤ
  pub version : ℕ
  pub created_at : Time
  pub updated_at : Time

pub record Refund : Type 0 where
  pub id : Uuid
  pub payment_id : Uuid
  pub amount : ℤ
  pub status : RefundStatus
  pub created_at : Time

pub record IdempotencyRecord : Type 0 where
  pub merchant_id : String
  pub idem_key : String
  pub request_hash : String
  pub status : IdempotencyStatus
  pub resource_id : Option Uuid
  pub response_code : Option ℕ
  pub response_body : Option ResponseBody
  pub created_at : Time

-- The keys of the payloads of the saga and of the refund service, each present or not.
pub record EventPayload : Type 0 where
  pub payment_id : Uuid
  pub refund_id : Option Uuid
  pub merchant_id : Option String
  pub amount : ℤ
  pub currency : Option String
  pub status : String
  pub psp_reference : Option String

pub record Outbox : Type 0 where
  pub id : Uuid
  pub aggregate_type : String
  pub aggregate_id : Uuid
  pub event_type : String
  pub payload : EventPayload
  pub created_at : Time
  pub published_at : Option Time

pub record WebhookEvent : Type 0 where
  pub psp_event_id : String
  pub payload : String
  pub status : WebhookStatus
  pub received_at : Time

-- The tables that the services read and write.
pub record Database : Type 0 where
  pub accounts : List Account
  pub balances : List AccountBalance
  pub transactions : List LedgerTransaction
  pub entries : List LedgerEntry
  pub payments : List Payment
  pub refunds : List Refund
  pub idempotency_keys : List IdempotencyRecord
  pub outbox : List Outbox
  pub webhook_events : List WebhookEvent
