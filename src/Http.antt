-- ===== src/Http.antt =====
-- What a client gets: the exception handlers of app/main.py, the messages of
-- app/domain/exceptions.py, and the endpoints that change tables. FastAPI itself, and the answer of
-- Starlette to an exception that no handler is registered for, are not in the repository.
pub mod Errors
pub mod Refusals
pub mod PaymentErrors
use Prim.Native.Nat.{◌/◌, ◌%◌}
use Prim.Native.String.{slice, ◌++◌}
use apex_payments_engine.Prelude.{
  ℕ, zero, suc, ◌+◌, String, Bool, true, false, Option, ltb, if◌then◌else◌,
}
use apex_payments_engine.Prelude.Int.{ℤ, pos, negsuc}
use apex_payments_engine.Domain.Enums.{payment_status_value}
use apex_payments_engine.Domain.Exceptions.{
  Uuid, RefundRefusal, payment_status, exceeds_capturable, DomainException, insufficient_funds,
  account_not_found, payment_not_found, idempotency_conflict, idempotency_mismatch,
  invalid_signature, refund_not_allowed, ledger_imbalance, Error, domain, posting_not_positive,
  invalid_json, malformed_event, key_error, no_result_found, multiple_results_found,
  integrity_error, validation_error, request_validation_error, gateway_error, status_code,
}
use apex_payments_engine.Schemas.{
  CreatePaymentRequest, PaymentResponse, RefundRequest, RefundResponse,
}
use apex_payments_engine.Session.{Environment, World, Result, ok, err}
use apex_payments_engine.Psp.{PaymentProvider, Settings}
use apex_payments_engine.Payments.{create_payment, get_payment}
use apex_payments_engine.Refunds.{process_refund}
use apex_payments_engine.Webhooks.{handle_webhook}

-- `str` of an int. A number has fewer digits than it is large, so that `n + 1` rounds are enough.
abbrev digit : ℕ → String
digit n = slice "0123456789" n (n + 1)

unfoldable pub decimal : ℕ → ℕ → String
decimal zero n = ""
decimal (suc fuel) n =
    let rest = decimal fuel (n / 10) in if ltb n 10 then digit n else rest ++ digit (n % 10)

unfoldable pub str_ℕ : ℕ → String
str_ℕ n = decimal (suc n) n

unfoldable pub str_ℤ : ℤ → String
str_ℤ (pos n) = str_ℕ n
str_ℤ (negsuc n) = "-" ++ str_ℕ (suc n)

unfoldable pub refusal_message : RefundRefusal → String
refusal_message (payment_status status) =
    "Cannot refund payment with status: " ++ payment_status_value status
refusal_message (exceeds_capturable amount rest) =
    "Refund amount " ++ str_ℤ amount ++ " exceeds capturable balance (" ++ str_ℤ rest ++ ")"

-- `exc.__class__.__name__`
unfoldable pub class_name : DomainException → String
class_name (insufficient_funds _ _ _) = "InsufficientFundsException"
class_name (account_not_found _) = "AccountNotFoundException"
class_name (payment_not_found _) = "PaymentNotFoundException"
class_name (idempotency_conflict _) = "IdempotencyConflictException"
class_name (idempotency_mismatch _) = "IdempotencyMismatchException"
class_name invalid_signature = "InvalidSignatureException"
class_name (refund_not_allowed _) = "RefundNotAllowedException"
class_name (ledger_imbalance _) = "LedgerImbalanceException"

-- What is answered: the value of the handler with its status, the body of one of the two exception
-- handlers (without the details of a validation, which FastAPI makes), or Starlette's answer.
pub data Response (A : Type 0) : Type 0 where
  success : ℕ → A → Response A
  domain_error : ℕ → String → String → Response A
  validation_failed : ℕ → String → Response A
  unhandled : ℕ → Response A

module _ (env : Environment) where
  unfoldable pub message : DomainException → String
  message (insufficient_funds account_id current_balance required_amount) =
      "Insufficient funds for account "
      ++ env.uuid_str account_id
      ++ ": balance="
      ++ str_ℤ current_balance
      ++ ", required="
      ++ str_ℤ required_amount
  message (account_not_found account_id) = "Account not found: " ++ env.uuid_str account_id
  message (payment_not_found payment_id) = "Payment not found: " ++ env.uuid_str payment_id
  message (idempotency_conflict key) = "Concurrent request in progress for idempotency key: " ++ key
  message (idempotency_mismatch key) =
      "Idempotency key '" ++ key ++ "' was previously used with a different request payload"
  message invalid_signature = "Invalid webhook signature"
  message (refund_not_allowed refusal) = refusal_message refusal
  message (ledger_imbalance net_amount) =
      "Ledger entries are unbalanced (net = "
      ++ str_ℤ net_amount
      ++ "). Sum of signed amounts must be zero."

  module _ {A : Type 0} where
    unfoldable pub domain_exception_handler : DomainException → Response A
    domain_exception_handler exc = domain_error (status_code exc) (message exc) (class_name exc)

    unfoldable pub validation_exception_handler : Response A
    validation_exception_handler = validation_failed 422 "Request validation failed"

    -- The handlers are chosen by the class of the exception. `starlette` is the status that an
    -- exception without a handler is answered with.
    unfoldable pub error_response : (Error → ℕ) → Error → Response A
    error_response starlette (domain exc) = domain_exception_handler exc
    error_response starlette request_validation_error = validation_exception_handler
    error_response starlette (posting_not_positive a) =
        unhandled (starlette (posting_not_positive a))
    error_response starlette invalid_json = unhandled (starlette invalid_json)
    error_response starlette malformed_event = unhandled (starlette malformed_event)
    error_response starlette (key_error id) = unhandled (starlette (key_error id))
    error_response starlette no_result_found = unhandled (starlette no_result_found)
    error_response starlette multiple_results_found = unhandled (starlette multiple_results_found)
    error_response starlette integrity_error = unhandled (starlette integrity_error)
    error_response starlette validation_error = unhandled (starlette validation_error)
    error_response starlette (gateway_error text) = unhandled (starlette (gateway_error text))

    -- An endpoint that sets the status itself.
    unfoldable pub respond : (Error → ℕ) → Result (ℕ × A) → Response A
    respond starlette (ok (code, body)) = success code body
    respond starlette (err e) = error_response starlette e

    -- An endpoint whose status is declared.
    unfoldable pub respond_with : (Error → ℕ) → ℕ → Result A → Response A
    respond_with starlette code (ok body) = success code body
    respond_with starlette code (err e) = error_response starlette e

abbrev pub status_of : {A : Type 0} → Response A → ℕ
status_of (success code body) = code
status_of (domain_error code error type) = code
status_of (validation_failed code error) = code
status_of (unhandled code) = code

abbrev pub is_error : {A : Type 0} → Response A → Bool
is_error (success code body) = false
is_error (domain_error code error type) = true
is_error (validation_failed code error) = true
is_error (unhandled code) = true

module _ (env : Environment) (starlette : Error → ℕ) where
  unfoldable pub post_payments :
      Bool
      → PaymentProvider
      → String
      → CreatePaymentRequest
      → World
      → Response PaymentResponse × World
  post_payments lock psp idempotency_key request w =
      let (r, after) = create_payment env lock psp idempotency_key request w in
      (respond env starlette r, after)

  unfoldable pub get_payments : Uuid → World → Response PaymentResponse × World
  get_payments payment_id w =
      let (r, after) = get_payment env payment_id w in (respond_with env starlette 200 r, after)

  unfoldable pub post_refunds :
      Bool → String → Uuid → RefundRequest → World → Response RefundResponse × World
  post_refunds lock idempotency_key payment_id request w =
      let (r, after) = process_refund env lock idempotency_key payment_id request w in
      (respond env starlette r, after)

  unfoldable pub post_webhooks :
      Settings → String → Option String → Option String → World → Response Unit × World
  post_webhooks settings raw_body stripe_signature x_psp_signature w =
      let (r, after) = handle_webhook env settings raw_body stripe_signature x_psp_signature w in
      (respond_with env starlette 200 r, after)
