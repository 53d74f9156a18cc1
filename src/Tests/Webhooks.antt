-- ===== src/Tests/Webhooks.antt =====
-- The theorems on webhooks at a concrete payment that waits for its capture.
use apex_payments_engine.Prelude.{◌≡◌, refl, true, false, none, some, [], ◌∷◌, arith}
use apex_payments_engine.Domain.Enums.{PaymentStatus, is_authorized}
use apex_payments_engine.Domain.Models.{Payment}
use apex_payments_engine.Session.{World, ok, str}
use apex_payments_engine.Saga.{add_payment}
use apex_payments_engine.Psp.{Settings}
use apex_payments_engine.Payments.{new_payment}
use apex_payments_engine.Webhooks.{
  ParsedEvent, has_event, payments_with, scalar_one_or_none, process_event,
}
use apex_payments_engine.Webhooks.Delivery.{recorded, redelivery_ignored}
use apex_payments_engine.Webhooks.Effects.{unauthorized_untouched}
use apex_payments_engine.Tests.World.{
  env, env_accepts, payee, balance_at, tables, world, request, program,
}

abbrev settings : Settings
settings = record {
  psp_provider = "mock";
  psp_webhook_secret = "secret";
  stripe_api_key = "";
  stripe_webhook_secret = "whsec";
}

abbrev event : ParsedEvent
event = record {
  event_id = str "evt_1";
  event_type = str "payment.captured";
  psp_reference = str "ref";
}

abbrev waiting : Payment
waiting = record (new_payment 500 request 0) {
  status = PaymentStatus.authorized;
  psp_reference = some "ref";
}

-- The suspense account holds the payment's 5000.
abbrev start : World
start = record {
  db = record (add_payment waiting tables) {
    balances = balance_at 1 5000 ∷ balance_at payee 0 ∷ [];
  };
  calls = 0;
}

abbrev captured_world : World
captured_world = (process_event env "body" event start).1

captured_ok : process_event env "body" event start ≡ (ok tt, captured_world)
unfolding program
captured_ok = refl

redelivery_ignored_example :
    (has_event "evt_1" captured_world.webhook_events ≡ true)
    × (process_event env "again" event captured_world ≡ (ok tt, captured_world))
redelivery_ignored_example =
    redelivery_ignored env "body" "again" "evt_1" event event start captured_world refl refl
      captured_ok

no_event : has_event "evt_1" world.webhook_events ≡ false
unfolding program
no_event = refl

no_payment : scalar_one_or_none (payments_with "ref" world.payments) ≡ ok none
unfolding program
no_payment = refl

none_authorized : (p : Payment) → none ≡ some p → is_authorized p.status ≡ false
none_authorized p h = ground arith

unauthorized_untouched_example :
    process_event env "body" event world ≡ (ok tt, recorded env "body" "evt_1" world)
unauthorized_untouched_example =
    unauthorized_untouched env "body" "evt_1" "ref" event world none env_accepts refl refl no_event
      no_payment none_authorized
