-- ===== src/Domain/Exceptions.antt =====
-- app/domain/exceptions.py, and the exceptions of the runtime that the services let through.
-- A message is kept as the data that it is made of.
use apex_payments_engine.Prelude.{ℕ, String}
use apex_payments_engine.Prelude.Int.{ℤ}
use apex_payments_engine.Domain.Enums.{PaymentStatus}

abbrev pub Uuid : Type 0
Uuid = ℕ

abbrev pub Time : Type 0
Time = ℕ

-- The two reasons that `RefundService` gives for refusing a refund.
pub data RefundRefusal : Type 0 where
  payment_status : PaymentStatus → RefundRefusal
  exceeds_capturable : ℤ → ℤ → RefundRefusal

pub data DomainException : Type 0 where
  insufficient_funds : Uuid → ℤ → ℤ → DomainException
  account_not_found : Uuid → DomainException
  payment_not_found : Uuid → DomainException
  idempotency_conflict : String → DomainException
  idempotency_mismatch : String → DomainException
  invalid_signature : DomainException
  refund_not_allowed : RefundRefusal → DomainException
  ledger_imbalance : ℤ → DomainException

-- What is raised and is no `DomainException`: `ValueError`, `KeyError`, the errors of the database
-- session, of pydantic, FastAPI's for a request that does not fit its schema, a webhook event of
-- another shape, and the `RuntimeError` of the Stripe gateway.
pub data Error : Type 0 where
  domain : DomainException → Error
  posting_not_positive : ℤ → Error
  invalid_json malformed_event : Error
  key_error : Uuid → Error
  no_result_found multiple_results_found integrity_error validation_error request_validation_error :
      Error
  gateway_error : String → Error

abbrev pub status_code : DomainException → ℕ
status_code (insufficient_funds _ _ _) = 422
status_code (account_not_found _) = 404
status_code (payment_not_found _) = 404
status_code (idempotency_conflict _) = 409
status_code (idempotency_mismatch _) = 422
status_code invalid_signature = 401
status_code (refund_not_allowed _) = 422
status_code (ledger_imbalance _) = 500
