-- ===== src/Tests/System.antt =====
-- The service as a whole on a concrete sequence of events.
use apex_payments_engine.Prelude.{◌≡◌, refl, true, false, none, some, List, [], ◌∷◌, All, arith}
use apex_payments_engine.Prelude.Int.{pos}
use apex_payments_engine.Psp.{captured}
use apex_payments_engine.Payments.{finish_payment}
use apex_payments_engine.Schema.Keys.{Enforces-ids}
use apex_payments_engine.System.{
  Flight, System, Event, arrival, answer, failure, refund_call, webhook_call, expiry, relay, called,
  advance_all,
}
use apex_payments_engine.System.Invariant.{IsConsistent, IsApartEvent}
use apex_payments_engine.System.Lifecycle.{IsFollowed}
use apex_payments_engine.System.Histories.{advance_all-IsFollowed}
use apex_payments_engine.System.Safety.{advance_all-IsConsistent}
use apex_payments_engine.Schemas.{PaymentResponse}
use apex_payments_engine.Session.{World, ok}
use apex_payments_engine.System.Answers.{answer-returns}
use apex_payments_engine.Tests.World.{
  env, env_accepts, schema_env, schema_env-Enforces, settings, bank, request, program,
}

abbrev start : System
start = record { world = record { db = bank; calls = 0 }; flights = [] }

start-IsConsistent : IsConsistent (pos 0) start
unfolding program
start-IsConsistent = record {
  sound = record { apart = tt; unique = tt };
  surplus_lem = refl;
  processing = tt;
  distinct = tt;
}

-- Two calls wait at once; the first is answered, refunded in part, and the second fails.
abbrev events : List Event
events =
    arrival true "key" request
    ∷ arrival true "other" request
    ∷ answer 1000 (captured "ref")
    ∷ webhook_call "body" none (some "forged")
    ∷ refund_call true "late" 1000 (pos 2000)
    ∷ failure 1001
    ∷ expiry 30
    ∷ relay (λ id. false) 50
    ∷ []

events_apart : All IsApartEvent events
events_apart = ((refl, refl), ((refl, refl), (tt, (tt, (tt, (tt, (tt, (tt, tt))))))))

advance_all-IsConsistent_example :
    IsConsistent (pos 0) (advance_all schema_env settings events start)
advance_all-IsConsistent_example =
    advance_all-IsConsistent schema_env settings (pos 0)
      (Enforces-ids schema_env schema_env-Enforces) events start events_apart start-IsConsistent

abbrev waiting : System
waiting = advance_all schema_env settings (arrival true "key" request ∷ []) start

waiting-IsConsistent : IsConsistent (pos 0) waiting
waiting-IsConsistent =
    advance_all-IsConsistent schema_env settings (pos 0)
      (Enforces-ids schema_env schema_env-Enforces) (arrival true "key" request ∷ []) start
      ((refl, refl), tt) start-IsConsistent

abbrev answers : List Event
answers = answer 1000 (captured "ref") ∷ refund_call true "back" 1000 (pos 5000) ∷ []

advance_all-IsFollowed_example :
    IsFollowed waiting.world.db (advance_all schema_env settings answers waiting).world.db
advance_all-IsFollowed_example =
    advance_all-IsFollowed schema_env settings (pos 0) (Enforces-ids schema_env schema_env-Enforces)
      answers waiting (tt, (tt, tt)) waiting-IsConsistent

abbrev flight : Flight
flight = record { key = "key"; request = request; id = 1000 }

waiting_flights : waiting.flights ≡ flight ∷ []
unfolding program
waiting_flights = refl

answer-returns_example :
    (response : PaymentResponse) × (w : World) × (finish_payment env "key" request 1000
        (captured "ref")
        (called waiting.world)
      ≡ (ok response, w))
answer-returns_example =
    answer-returns env (pos 0) waiting 1000 flight (captured "ref") env_accepts (omega arith)
      waiting-IsConsistent (rw waiting_flights refl)
