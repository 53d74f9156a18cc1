-- ===== src/Tests/OutboxRelay.antt =====
-- The theorems on the outbox relay at a concrete outbox.
use apex_payments_engine.Prelude.{
  ◌≡◌, refl, arith, Bool, false, none, some, List, [], ◌∷◌, All, ◌==◌,
}
use apex_payments_engine.Prelude.Int.{pos}
use apex_payments_engine.Domain.Exceptions.{Uuid, Time}
use apex_payments_engine.Domain.Models.{Outbox}
use apex_payments_engine.Session.{World}
use apex_payments_engine.OutboxRelay.{is_unpublished}
use apex_payments_engine.OutboxRelay.Loop.{run_until_idle}
use apex_payments_engine.OutboxRelay.Loop.Idle.{relay_idles}
use apex_payments_engine.OutboxRelay.Loop.Rounds.{unpublished_count}
use apex_payments_engine.Tests.World.{env, env_accepts, tables}

abbrev event_at : Uuid → Time → Outbox
event_at id t = record {
  id = id;
  aggregate_type = "payment";
  aggregate_id = 500;
  event_type = "payment.processing";
  payload = record {
    payment_id = 500;
    refund_id = none;
    merchant_id = none;
    amount = pos 1;
    currency = none;
    status = "PROCESSING";
    psp_reference = none;
  };
  created_at = t;
  published_at = none;
}

abbrev waiting : List Outbox
waiting = event_at 1 30 ∷ event_at 2 10 ∷ event_at 3 20 ∷ event_at 4 5 ∷ []

-- The event 4 is held by another transaction.
abbrev held : Uuid → Bool
held id = id == 4

abbrev start : World
start = record { db = record tables { outbox = waiting }; calls = 0 }

all_wait : unpublished_count waiting ≡ 4
unfolding unpublished_count
all_wait = refl

-- Two rounds drain the four events, and a third one finds none.
relay_idles_example :
    (w : World) × (run_until_idle env 2 5 start ≡ some w)
    × All (λ ev. is_unpublished ev ≡ false) w.outbox
    × (w.db ≡ record start.db { outbox = w.outbox })
relay_idles_example =
    relay_idles env 2 env_accepts (omega arith) 5 start (refl, (refl, (refl, (refl, tt))))
      (rw all_wait (omega arith))
