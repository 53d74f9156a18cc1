-- ===== src/Tests/Idempotency.antt =====
-- The theorems on idempotency keys at a concrete key.
use apex_payments_engine.Prelude.{◌≡◌, refl, true, false, none, some}
use apex_payments_engine.Prelude.Int.{pos}
use apex_payments_engine.Domain.Enums.{in_progress, PaymentStatus}
use apex_payments_engine.Domain.Exceptions.{domain, idempotency_conflict}
use apex_payments_engine.Schemas.{payment_body, PaymentResponse}
use apex_payments_engine.Domain.Models.{IdempotencyRecord}
use apex_payments_engine.Session.{World, payment_request, ok, err}
use apex_payments_engine.Idempotency.{record_of, compute_hash, claim_or_replay, complete}
use apex_payments_engine.Idempotency.Claims.{claim_excludes, complete-replays}
use apex_payments_engine.Tests.World.{env, payer, payee, world, request, program}

abbrev claimed_world : World
claimed_world = (claim_or_replay env true "m" "key" (payment_request request) world).1

abbrev claimed_row : IdempotencyRecord
claimed_row = record {
  merchant_id = "m";
  idem_key = "key";
  request_hash = "payment";
  status = in_progress;
  resource_id = none;
  response_code = none;
  response_body = none;
  created_at = 1;
}

abbrev response : PaymentResponse
response = record {
  id = 5;
  merchant_id = "m";
  payer_account_id = payer;
  payee_account_id = payee;
  amount = pos 5000;
  currency = "INR";
  status = PaymentStatus.succeeded;
  psp_reference = none;
  refunded_amount = pos 0;
  created_at = 3;
}

abbrev completed_world : World
completed_world = (complete env "m" "key" 5 201 (payment_body response) claimed_world).1

unclaimed : record_of "m" "key" world.db ≡ none
unfolding program
unclaimed = refl

claimed_ok :
    claim_or_replay env true "m" "key" (payment_request request) world ≡ (ok none, claimed_world)
unfolding program
claimed_ok = refl

claimed_found : record_of "m" "key" claimed_world.db ≡ some claimed_row
unfolding program
claimed_found = refl

same_hash : claimed_row.request_hash ≡ compute_hash env (payment_request request)
unfolding program
same_hash = refl

completed_ok :
    complete env "m" "key" 5 201 (payment_body response) claimed_world ≡ (ok tt, completed_world)
unfolding program
completed_ok = refl

claim_excludes_example :
    (claim_or_replay env false "m" "key" (payment_request request) claimed_world).0
    ≡ err (domain (idempotency_conflict "key"))
claim_excludes_example =
    claim_excludes env true false "m" "key" (payment_request request) world claimed_world none
      unclaimed claimed_ok

complete-replays_example :
    ((claim_or_replay env true "m" "key" (payment_request request) completed_world).0
      ≡ ok (some (201, payment_body response)))
    × ((claim_or_replay env true "m" "key" (payment_request request) completed_world).1.db
        ≡ completed_world.db)
complete-replays_example =
    complete-replays env "m" "key" claimed_world claimed_row true (payment_request request) 5 201
      (payment_body response) completed_world claimed_found same_hash completed_ok
