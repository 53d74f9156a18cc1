-- ===== src/Webhooks/Delivery.antt =====
-- The delivery of an event: it is recorded once, and moves a payment that is AUTHORIZED.
use apex_payments_engine.Prelude.{
  suc, ◌≡◌, refl, ap, ◌∙◌, inl, inr, String, true, Option, none, some, List, [], ◌∷◌, ◌++◌, arith,
  Bool-cases, str_eq, str_eq_refl,
}
use apex_payments_engine.Domain.Enums.{WebhookStatus}
use apex_payments_engine.Domain.Exceptions.{Uuid}
use apex_payments_engine.Domain.Models.{Payment, WebhookEvent, Database}
use apex_payments_engine.Session.{Environment, Json, str, World, ok, ◌>>=◌}
use apex_payments_engine.Session.Ensures.{IsPreorder, Ensures, ensures_rules}
use apex_payments_engine.Saga.{settle, reverse}
use apex_payments_engine.Saga.Transitions.{settle-IsTransition, reverse-IsTransition}
use apex_payments_engine.Webhooks.{
  ParsedEvent, EventKind, capture, fail, other_event, has_event, add_webhook, apply_event,
  transition_found, transition, record_event, process_event,
}

has_event-append :
    (id : String) (ev : WebhookEvent) (evs : List WebhookEvent)
    → str_eq ev.psp_event_id id ≡ true
    → has_event id (evs ++ ev ∷ []) ≡ true
unfolding has_event
has_event-append id ev [] same = ground (arith, same)
has_event-append id ev (x ∷ xs) same = ground (arith, has_event-append id ev xs same)

-- The webhook events are the same.
record SameEvents (d e : Database) : Type 0 where
  webhook_events : e.webhook_events ≡ d.webhook_events

SameEvents-preorder : IsPreorder SameEvents
SameEvents-preorder = record {
  here = λ d. record { webhook_events = refl };
  step = λ d e f h k. record { webhook_events = k.webhook_events ∙ h.webhook_events };
}

module _ (env : Environment) where
  settle-SameEvents : (id : Uuid) (ref : String) → Ensures SameEvents (settle env id ref)
  settle-SameEvents id ref = record {
    at = λ w w' p h.
        let (row, t, found, same, done) = settle-IsTransition env id ref p w w' h in
        record { webhook_events = done.webhook_events };
  }

  reverse-SameEvents : (id : Uuid) → Ensures SameEvents (reverse env id)
  reverse-SameEvents id = record {
    at = λ w w' p h.
        let (row, t, found, same, done) = reverse-IsTransition env id p w w' h in
        record { webhook_events = done.webhook_events };
  }

  apply_event-SameEvents :
      (kind : EventKind) (id : Uuid) (ref : String)
      → Ensures SameEvents (apply_event env kind id ref)
  unfolding apply_event
  apply_event-SameEvents capture id ref =
      search (SameEvents-preorder, ensures_rules, settle-SameEvents)
  apply_event-SameEvents fail id ref =
      search (SameEvents-preorder, ensures_rules, reverse-SameEvents)
  apply_event-SameEvents other_event id ref = search (SameEvents-preorder, ensures_rules)

  transition_found-SameEvents :
      (event_type : Json) (ref : String) (found : Option Payment)
      → Ensures SameEvents (transition_found env event_type ref found)
  unfolding transition_found
  transition_found-SameEvents event_type ref none = search (SameEvents-preorder, ensures_rules)
  transition_found-SameEvents event_type ref (some p) =
      search (SameEvents-preorder, ensures_rules, apply_event-SameEvents) depth 8

  transition-SameEvents :
      (event_type ref : Json) → Ensures SameEvents (transition env event_type ref)
  unfolding transition
  transition-SameEvents event_type ref =
      search (SameEvents-preorder, ensures_rules, transition_found-SameEvents) depth 10

  -- What is recorded, and the state in which the payment is looked up.
  unfoldable pub recorded : String → String → World → World
  recorded raw_body event_id w = record {
    db =
        add_webhook
          (record {
            psp_event_id = event_id;
            payload = raw_body;
            status = WebhookStatus.processed;
            received_at = env.now w.calls;
          })
          w.db;
    calls = suc (suc w.calls);
  }

  record_event-eq-ok :
      (raw_body event_id : String) (ev : ParsedEvent) (w w' : World)
      → record_event env raw_body event_id ev w ≡ (ok tt, w')
      → transition env ev.event_type ev.psp_reference (recorded raw_body event_id w) ≡ (ok tt, w')
  unfolding record_event ◌>>=◌ recorded
  record_event-eq-ok raw_body event_id ev w w' h = ground arith

  record_event-has_event :
      (raw_body event_id : String) (ev : ParsedEvent) (w w' : World)
      → record_event env raw_body event_id ev w ≡ (ok tt, w')
      → has_event event_id w'.webhook_events ≡ true
  unfolding recorded
  record_event-has_event raw_body event_id ev w w' h =
      let u = recorded raw_body event_id w in
      let e = record_event-eq-ok raw_body event_id ev w w' h in
      let same = (transition-SameEvents ev.event_type ev.psp_reference).at u w' tt e in
      ap (has_event event_id) same.webhook_events
      ∙ has_event-append event_id _ w.webhook_events (str_eq_refl event_id)

  -- An event whose id is recorded already changes nothing.
  process_event-seen :
      (raw_body event_id : String) (ev : ParsedEvent) (w : World)
      → ev.event_id ≡ str event_id
      → has_event event_id w.webhook_events ≡ true
      → process_event env raw_body ev w ≡ (ok tt, w)
  unfolding process_event ◌>>=◌
  process_event-seen raw_body event_id ev w id seen = rw (id, seen) refl

  process_event-has_event :
      (raw_body event_id : String) (ev : ParsedEvent) (w w' : World)
      → ev.event_id ≡ str event_id
      → process_event env raw_body ev w ≡ (ok tt, w')
      → has_event event_id w'.webhook_events ≡ true
  unfolding process_event ◌>>=◌
  process_event-has_event raw_body event_id ev w w' id h =
      elim (Bool-cases (has_event event_id w.webhook_events)) [
        | inl seen ↦ ground (arith, seen, process_event-seen raw_body event_id ev w id seen)
        | inr unseen ↦ record_event-has_event raw_body event_id ev w w' (ground arith)
      ]

  -- When an event has been handled without a raise, it is recorded, and a further delivery of an
  -- event with its id, in that state, changes nothing.
  pub redelivery_ignored :
      (raw_body again event_id : String) (ev ev' : ParsedEvent) (w w' : World)
      → ev.event_id ≡ str event_id
      → ev'.event_id ≡ str event_id
      → process_event env raw_body ev w ≡ (ok tt, w')
      → (has_event event_id w'.webhook_events ≡ true)
        × (process_event env again ev' w' ≡ (ok tt, w'))
  redelivery_ignored raw_body again event_id ev ev' w w' id id' h =
      let there = process_event-has_event raw_body event_id ev w w' id h in
      (there, process_event-seen again event_id ev' w' id' there)
