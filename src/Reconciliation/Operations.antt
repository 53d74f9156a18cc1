-- ===== src/Reconciliation/Operations.antt =====
-- The transactions of the service, in any order and number, keep the books, also where they raise.
use apex_payments_engine.Prelude.{ℕ, String, Bool, Option, none, some, ap}
use apex_payments_engine.Prelude.Int.{ℤ}
use apex_payments_engine.Domain.Enums.{AuthorizationOutcome, captured, pending, declined}
use apex_payments_engine.Domain.Exceptions.{Uuid}
use apex_payments_engine.Domain.Models.{Payment, Database}
use apex_payments_engine.Schemas.{CreatePaymentRequest, ResponseBody, payment_body}
use apex_payments_engine.Session.{Environment, RequestPayload, Json, ◌>>=◌, ◌>>◌, pure}
use apex_payments_engine.Session.Ensures.{Ensures, Ensures-weaken}
use apex_payments_engine.Idempotency.{claim_or_replay, complete}
use apex_payments_engine.Idempotency.Frame.{OnlyKeys, claim_or_replay-OnlyKeys, complete-OnlyKeys}
use apex_payments_engine.Reconciliation.Books.{
  same_books, KeepsBooks, books_rules, emit-KeepsBooks, load_payment-KeepsBooks, hold-KeepsBooks,
  settle-KeepsBooks, reverse-KeepsBooks,
}
use apex_payments_engine.Psp.{AuthorizationResult}
use apex_payments_engine.Payments.{replay_or_hold, mark_authorized, apply_outcome, to_response}
use apex_payments_engine.Payments.Replay.{opening}
use apex_payments_engine.Refunds.{
  check_refundable, record_refund, post_refund, refund_payment, replay_or_refund, refund,
}
use apex_payments_engine.Webhooks.{
  EventKind, capture, fail, other_event, apply_event, transition_found, transition, record_event,
  process_event, parse_and_process,
}

same_keys : (d e : Database) → OnlyKeys d e → KeepsBooks d e
same_keys d e h =
    same_books d e (ap (λ (x : Database). x.balances) h.rest)
      (ap (λ (x : Database). x.entries) h.rest)

module _ (env : Environment) where
  claim_or_replay-KeepsBooks :
      (lock : Bool) (m k : String) (payload : RequestPayload)
      → Ensures KeepsBooks (claim_or_replay env lock m k payload)
  claim_or_replay-KeepsBooks lock m k payload =
      Ensures-weaken (claim_or_replay env lock m k payload) same_keys
        (claim_or_replay-OnlyKeys env lock m k payload)

  complete-KeepsBooks :
      (m k : String) (id : Uuid) (code : ℕ) (body : ResponseBody)
      → Ensures KeepsBooks (complete env m k id code body)
  complete-KeepsBooks m k id code body =
      Ensures-weaken (complete env m k id code body) same_keys
        (complete-OnlyKeys env m k id code body)

  replay_or_hold-KeepsBooks :
      (id : Uuid) (request : CreatePaymentRequest) (answered : Option (ℕ × ResponseBody))
      → Ensures KeepsBooks (replay_or_hold env id request answered)
  unfolding replay_or_hold
  replay_or_hold-KeepsBooks id request none = search (books_rules, hold-KeepsBooks) depth 9
  replay_or_hold-KeepsBooks id request (some (code, body)) = search books_rules depth 9

  -- The body of the first transaction of a payment.
  pub opening-KeepsBooks :
      (lock : Bool) (key : String) (request : CreatePaymentRequest) (id : Uuid)
      → Ensures KeepsBooks (opening env key request lock id)
  opening-KeepsBooks lock key request id =
      search (books_rules, claim_or_replay-KeepsBooks, replay_or_hold-KeepsBooks) depth 9

  apply_outcome-KeepsBooks :
      (id : Uuid) (outcome : AuthorizationOutcome) (ref : Option String)
      → Ensures KeepsBooks (apply_outcome env id outcome ref)
  unfolding apply_outcome mark_authorized
  apply_outcome-KeepsBooks id captured ref = search (books_rules, settle-KeepsBooks)
  apply_outcome-KeepsBooks id declined ref = search (books_rules, reverse-KeepsBooks)
  apply_outcome-KeepsBooks id pending ref = search books_rules depth 10

  -- The body of the second one.
  pub finishing-KeepsBooks :
      (key : String) (request : CreatePaymentRequest) (id : Uuid) (auth : AuthorizationResult)
      → Ensures KeepsBooks (
          apply_outcome env id auth.outcome auth.psp_reference >>= λ payment.
          complete env request.merchant_id key payment.id 201 (payment_body (to_response payment))
          >> pure (to_response payment))
  finishing-KeepsBooks key request id auth =
      search (books_rules, apply_outcome-KeepsBooks, complete-KeepsBooks) depth 9

  refund_payment-KeepsBooks :
      (key : String) (id : Uuid) (amount : ℤ)
      → Ensures KeepsBooks (refund_payment env key id amount)
  unfolding refund_payment check_refundable record_refund post_refund
  refund_payment-KeepsBooks key id amount =
      search (books_rules, load_payment-KeepsBooks, emit-KeepsBooks, complete-KeepsBooks) depth 14

  replay_or_refund-KeepsBooks :
      (key : String) (id : Uuid) (amount : ℤ) (answered : Option (ℕ × ResponseBody))
      → Ensures KeepsBooks (replay_or_refund env key id amount answered)
  unfolding replay_or_refund
  replay_or_refund-KeepsBooks key id amount none = search (books_rules, refund_payment-KeepsBooks)
  replay_or_refund-KeepsBooks key id amount (some (code, body)) = search books_rules depth 9

  pub refund-KeepsBooks :
      (lock : Bool) (key : String) (id : Uuid) (amount : ℤ)
      → Ensures KeepsBooks (refund env lock key id amount)
  unfolding refund
  refund-KeepsBooks lock key id amount =
      search (books_rules, claim_or_replay-KeepsBooks, replay_or_refund-KeepsBooks) depth 9

  apply_event-KeepsBooks :
      (kind : EventKind) (id : Uuid) (ref : String)
      → Ensures KeepsBooks (apply_event env kind id ref)
  unfolding apply_event
  apply_event-KeepsBooks capture id ref = search (books_rules, settle-KeepsBooks)
  apply_event-KeepsBooks fail id ref = search (books_rules, reverse-KeepsBooks)
  apply_event-KeepsBooks other_event id ref = search books_rules

  transition_found-KeepsBooks :
      (event_type : Json) (ref : String) (found : Option Payment)
      → Ensures KeepsBooks (transition_found env event_type ref found)
  unfolding transition_found
  transition_found-KeepsBooks event_type ref none = search books_rules
  transition_found-KeepsBooks event_type ref (some p) =
      search (books_rules, apply_event-KeepsBooks) depth 8

  pub parse_and_process-KeepsBooks :
      (raw_body : String) → Ensures KeepsBooks (parse_and_process env raw_body)
  unfolding parse_and_process process_event record_event transition
  parse_and_process-KeepsBooks raw_body = search (books_rules, transition_found-KeepsBooks) depth 22
