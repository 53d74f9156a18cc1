-- ===== src/Tests/Payments.antt =====
-- A run of the payment service, and its theorems at concrete inputs.
use apex_payments_engine.Prelude.{arith, ◌≡◌, refl, true, false, some}
use apex_payments_engine.Prelude.Int.{pos}
use apex_payments_engine.Domain.Enums.{PaymentStatus}
use apex_payments_engine.Schemas.{PaymentResponse}
use apex_payments_engine.Session.{ok, err, World}
use apex_payments_engine.Ledger.Postings.{balance_of}
use apex_payments_engine.Psp.{PaymentProvider, captured, mock_psp_client}
use apex_payments_engine.Payments.Outcome.{IsCreated, create-IsCreated}
use apex_payments_engine.System.Creation.{create-returns}
use apex_payments_engine.Payments.{held, new_payment, open_payment, create}
use apex_payments_engine.Payments.Idempotent.{create_twice}
use apex_payments_engine.Domain.Exceptions.{domain, gateway_error, idempotency_conflict}
use apex_payments_engine.Domain.Models.{Payment}
use apex_payments_engine.Payments.Stranded.{gateway_error_strands}
use apex_payments_engine.Tests.World.{env, env_accepts, payer, payee, world, request, program}

abbrev paid : World
paid = (create env true (mock_psp_client env) "key" request world).1

abbrev response : PaymentResponse
response = record {
  id = 1000;
  merchant_id = "merchant_test";
  payer_account_id = payer;
  payee_account_id = payee;
  amount = pos 5000;
  currency = "INR";
  status = PaymentStatus.succeeded;
  psp_reference = some "mock_psp_ref_0123456789ab";
  refunded_amount = pos 0;
  created_at = 4;
}

paid_ok : create env true (mock_psp_client env) "key" request world ≡ (ok (201, response), paid)
unfolding program
paid_ok = refl

paid_balances : (balance_of payer paid.db ≡ pos 95000) × (balance_of payee paid.db ≡ pos 5000)
unfolding program
paid_balances = (refl, refl)

create_twice_example :
    (w : World) × (create env false (mock_psp_client env) "key" request paid
      ≡ (ok (201, response), w))
    × (w.db ≡ paid.db)
create_twice_example =
    create_twice env true false (mock_psp_client env) (mock_psp_client env) "key" request 201
      response world paid env_accepts paid_ok

-- A provider whose gateway fails.
abbrev failing : PaymentProvider
failing = record { authorize = λ n p. err (gateway_error "timeout") }

abbrev opened : World
opened = (open_payment env true "key" request 1000 (record { db = world.db; calls = 1 })).1

abbrev waiting : Payment
waiting = record (new_payment 1000 request 4) { status = PaymentStatus.processing; updated_at = 5 }

opened_ok :
    open_payment env true "key" request 1000 (record { db = world.db; calls = 1 })
    ≡ (ok (held waiting), opened)
unfolding program
opened_ok = refl

gateway_error_strands_example :
    ((create env true failing "key" request world).0 ≡ err (gateway_error "timeout"))
    × ((create env true failing "key" request world).1.db ≡ opened.db)
    × ((create env true
          (mock_psp_client env)
          "key"
          request
          (create env true failing "key" request world).1).0
        ≡ err (domain (idempotency_conflict "key")))
gateway_error_strands_example =
    gateway_error_strands env "key" request true failing world opened waiting
      (gateway_error "timeout") opened_ok refl true (mock_psp_client env)

create-IsCreated_example : IsCreated (mock_psp_client env) request 201 response world.db paid.db
unfolding program
create-IsCreated_example =
    create-IsCreated env "key" request true (mock_psp_client env) 201 response world paid refl refl
      paid_ok

-- A provider that always captures.
abbrev capturing : PaymentProvider
capturing = record { authorize = λ n p. ok (captured "ref") }

create-returns_example :
    (r : PaymentResponse) × (w : World) × (create env false capturing "key" request world
      ≡ (ok (201, r), w))
unfolding program
create-returns_example =
    create-returns env false capturing "key" request world env_accepts refl refl (omega arith)
      (omega arith) refl (omega arith) (λ n p. (captured "ref", refl))
