-- ===== src/Webhooks/Effects.antt =====
-- What an event does to a payment: nothing unless it is AUTHORIZED, else a settlement.
use apex_payments_engine.Prelude.{suc, ◌≡◌, refl, ◌∙◌, String, false, Option, none, some, arith}
use apex_payments_engine.Domain.Enums.{is_authorized}
use apex_payments_engine.Domain.Models.{Payment}
use apex_payments_engine.Session.{AcceptsAll, Environment, Json, str, World, ok, ◌>>=◌}
use apex_payments_engine.Webhooks.{
  ParsedEvent, has_event, payments_with, scalar_one_or_none, transition_found, transition,
  record_event, process_event,
}
use apex_payments_engine.Webhooks.Delivery.{recorded}

module _ (env : Environment) where
  -- A payment that is not AUTHORIZED is left alone.
  transition_found-idle :
      (event_type : Json) (ref : String) (found : Option Payment) (w : World)
      → ((p : Payment) → found ≡ some p → is_authorized p.status ≡ false)
      → transition_found env event_type ref found w ≡ (ok tt, w)
  unfolding transition_found ◌>>=◌
  transition_found-idle event_type ref none w idle = refl
  transition_found-idle event_type ref (some p) w idle = rw (idle p refl) refl

  transition-idle :
      (event_type : Json) (ref : String) (w : World) (found : Option Payment)
      → scalar_one_or_none (payments_with ref w.payments) ≡ ok found
      → ((p : Payment) → found ≡ some p → is_authorized p.status ≡ false)
      → transition env event_type (str ref) w ≡ (ok tt, w)
  unfolding transition ◌>>=◌
  transition-idle event_type ref w found one idle =
      ground (arith, one, transition_found-idle event_type ref found w idle)

  process_event-fresh :
      (raw_body event_id : String) (ev : ParsedEvent) (w : World)
      → AcceptsAll env
      → ev.event_id ≡ str event_id
      → has_event event_id w.webhook_events ≡ false
      → process_event env raw_body ev w
        ≡ transition env ev.event_type ev.psp_reference (recorded env raw_body event_id w)
  unfolding process_event record_event recorded ◌>>=◌
  process_event-fresh raw_body event_id ev w accepts id unseen =
      let d = (recorded env raw_body event_id w).db in rw (id, unseen, accepts (suc w.calls) d) refl

  -- If no payment has an event's reference, or a single one that is not AUTHORIZED, and the
  -- database takes every write, an event that is new is recorded, its delivery returns, and no
  -- other row of any table changes.
  pub unauthorized_untouched :
      (raw_body event_id ref : String) (ev : ParsedEvent) (w : World) (found : Option Payment)
      → AcceptsAll env
      → ev.event_id ≡ str event_id
      → ev.psp_reference ≡ str ref
      → has_event event_id w.webhook_events ≡ false
      → scalar_one_or_none (payments_with ref w.payments) ≡ ok found
      → ((p : Payment) → found ≡ some p → is_authorized p.status ≡ false)
      → process_event env raw_body ev w ≡ (ok tt, recorded env raw_body event_id w)
  unfolding recorded
  unauthorized_untouched raw_body event_id ref ev w found accepts id reference unseen one idle =
      let u = recorded env raw_body event_id w in
      let e = transition-idle ev.event_type ref u found one idle in
      process_event-fresh raw_body event_id ev w accepts id unseen ∙ (rw reference e)
