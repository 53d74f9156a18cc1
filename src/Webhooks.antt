-- ===== src/Webhooks.antt =====
-- app/application/webhook_service.py, with the verifiers of app/infrastructure/psp/signature.py and
-- the handler of app/api/webhooks.py.
pub mod Guards
pub mod Delivery
pub mod Effects
use apex_payments_engine.Prelude.{
  ℕ, String, Bool, true, false, not, ◌||◌, Option, none, some, List, [], ◌∷◌, ◌++◌, str_eq,
  if◌then◌else◌,
}
use text.Mathlib.Text.{find?}
use apex_payments_engine.Prelude.Int.{ℤ, pos, eq_ℤ}
use apex_payments_engine.Domain.Enums.{WebhookStatus, is_authorized}
use apex_payments_engine.Domain.Exceptions.{
  Uuid, domain, invalid_signature, invalid_json, malformed_event, multiple_results_found,
}
use apex_payments_engine.Domain.Models.{Payment, WebhookEvent, Database}
use apex_payments_engine.Session.{
  Environment, Json, null, bool, number, str, arr, obj, Items, nil, cons, Fields, end, field,
  Result, ok, err, Action, pure, raise, lift, gets, or_raise, external, ◌>>=◌, ◌>>◌, raise_if,
  update, flush, transaction,
}
use apex_payments_engine.Psp.{Settings}
use apex_payments_engine.Saga.{settle, reverse}

abbrev pub is_blank : String → Bool
is_blank s = str_eq s ""

module _ (env : Environment) (settings : Settings) where
  -- `WebhookSignatureVerifier.is_valid`; `compare_digest` is equality in constant time.
  unfoldable pub hmac_is_valid : String → String → Bool
  hmac_is_valid raw_payload signature_header =
      if is_blank raw_payload || is_blank signature_header
      then false
      else if is_blank settings.psp_webhook_secret
      then false
      else str_eq (env.hmac_sha256_hex settings.psp_webhook_secret raw_payload) signature_header

  -- `StripeWebhookSignatureVerifier.is_valid`, with a tolerance of 300 seconds.
  unfoldable pub stripe_is_valid : String → String → Action Bool
  stripe_is_valid raw_payload signature_header =
      if is_blank raw_payload || is_blank signature_header
      then pure false
      else if is_blank settings.stripe_webhook_secret
      then pure false
      else external (λ n.
        env.construct_event n raw_payload signature_header settings.stripe_webhook_secret 300)

  -- The second verifier is asked only if the first one fails.
  unfoldable pub is_valid_signature : String → String → Action Bool
  is_valid_signature raw_body signature =
      if hmac_is_valid raw_body signature then pure true else stripe_is_valid raw_body signature

-- `key in d` and `d.get(key, default)`
unfoldable pub has_key : String → Fields → Bool
has_key key end = false
has_key key (field name value rest) = str_eq name key || has_key key rest

unfoldable pub get_or : String → Json → Fields → Json
get_or key default end = default
get_or key default (field name value rest) =
    if str_eq name key then value else get_or key default rest

unfoldable pub has_item : String → Items → Bool
has_item key nil = false
has_item key (cons (str s) rest) = str_eq s key || has_item key rest
has_item key (cons other rest) = has_item key rest

-- `"object" in data["data"]`, by the type of the value
unfoldable pub contains_object : Json → Result Bool
contains_object (obj fields) = ok (has_key "object" fields)
contains_object (arr items) = ok (has_item "object" items)
contains_object (str s) = ok (elim (find? s "object") [ none ↦ false | some n ↦ true ])
contains_object other = err malformed_event

-- What the service reads of an event, before it knows the types of the values.
pub record ParsedEvent : Type 0 where
  pub event_id : Json
  pub event_type : Json
  pub psp_reference : Json

-- `data["data"]["object"].get("id", "")`; what is no dictionary raises.
unfoldable pub object_id : Json → Result Json
object_id (obj fields) = elim (get_or "object" null fields) [
  | obj inner ↦ ok (get_or "id" (str "") inner)
  | _ ↦ err malformed_event
]
object_id other = err malformed_event

unfoldable pub stripe_event : String → Fields → Result ParsedEvent
stripe_event new_id fields = elim (object_id (get_or "data" null fields)) [
  | ok reference ↦ ok (record {
    event_id = get_or "id" (str new_id) fields;
    event_type = get_or "type" (str "") fields;
    psp_reference = reference;
  })
  | err e ↦ err e
]

unfoldable pub generic_event : String → Fields → ParsedEvent
generic_event new_id fields = record {
  event_id = get_or "pspEventId" (get_or "eventId" (str new_id) fields) fields;
  event_type = get_or "type" (get_or "eventType" (str "") fields) fields;
  psp_reference = get_or "pspReference" (str "") fields;
}

choose_format : String → Fields → Result Bool → Result ParsedEvent
choose_format new_id fields (ok true) = stripe_event new_id fields
choose_format new_id fields (ok false) = ok (generic_event new_id fields)
choose_format new_id fields (err e) = err e

-- `new_id` is the random id that an event with none is given.
unfoldable pub parse_event : String → Json → Result ParsedEvent
unfolding choose_format
parse_event new_id (obj fields) =
    if has_key "data" fields
    then choose_format new_id fields (contains_object (get_or "data" null fields))
    else ok (generic_event new_id fields)
parse_event new_id other = err malformed_event

-- A column of text is compared with texts only: another value fails in the database driver.
abbrev pub as_text : Json → Result String
as_text (str s) = ok s
as_text other = err malformed_event

-- Python's truth of a value
abbrev pub is_truthy : Json → Bool
is_truthy null = false
is_truthy (bool b) = b
is_truthy (number n) = not (eq_ℤ n (pos 0))
is_truthy (str s) = not (is_blank s)
is_truthy (arr nil) = false
is_truthy (arr (cons x xs)) = true
is_truthy (obj end) = false
is_truthy (obj (field k v rest)) = true

pub data EventKind : Type 0 where
  capture fail other_event : EventKind

abbrev is_capture : String → Bool
is_capture s =
    str_eq s "payment.captured"
    || str_eq s "payment_intent.succeeded"
    || str_eq s "payment_intent.amount_capturable_updated"
    || str_eq s "charge.captured"

abbrev is_fail : String → Bool
is_fail s =
    str_eq s "payment.failed"
    || str_eq s "payment_intent.payment_failed"
    || str_eq s "payment_intent.canceled"

-- Membership in the two sets of event types; a list or a dictionary has no hash and raises.
unfoldable pub event_kind : Json → Result EventKind
event_kind (str s) = ok (if is_capture s then capture else if is_fail s then fail else other_event)
event_kind (arr items) = err malformed_event
event_kind (obj fields) = err malformed_event
event_kind other = ok other_event

abbrev pub has_reference : String → Payment → Bool
has_reference reference p = elim p.psp_reference [ none ↦ false | some r ↦ str_eq r reference ]

-- `select(Payment).where(Payment.psp_reference == reference)`
unfoldable pub payments_with : String → List Payment → List Payment
payments_with reference [] = []
payments_with reference (p ∷ ps) =
    let rest = payments_with reference ps in if has_reference reference p then p ∷ rest else rest

unfoldable pub scalar_one_or_none : List Payment → Result (Option Payment)
scalar_one_or_none [] = ok none
scalar_one_or_none (p ∷ []) = ok (some p)
scalar_one_or_none (p ∷ q ∷ ps) = err multiple_results_found

unfoldable pub has_event : String → List WebhookEvent → Bool
has_event id [] = false
has_event id (ev ∷ evs) = str_eq ev.psp_event_id id || has_event id evs

abbrev pub add_webhook : WebhookEvent → Database → Database
add_webhook ev d = record d { webhook_events = d.webhook_events ++ ev ∷ [] }

module _ (env : Environment) where
  unfoldable pub apply_event : EventKind → Uuid → String → Action Unit
  apply_event capture id reference = do settle env id reference; pure tt
  apply_event fail id reference = do reverse env id; pure tt
  apply_event other_event id reference = pure tt

  -- Step 5: only a payment in AUTHORIZED is moved.
  unfoldable pub transition_found : Json → String → Option Payment → Action Unit
  transition_found event_type reference none = pure tt
  transition_found event_type reference (some p) =
      if is_authorized p.status
      then (do kind ← lift (event_kind event_type); apply_event kind p.id reference)
      else pure tt

  unfoldable pub transition : Json → Json → Action Unit
  transition event_type psp_reference =
      if is_truthy psp_reference
      then (do
        reference ← lift (as_text psp_reference)
        rows ← gets (λ d. payments_with reference d.payments)
        found ← lift (scalar_one_or_none rows)
        transition_found event_type reference found)
      else pure tt

  -- Steps 4 and 5, for an event that is new.
  unfoldable pub record_event : String → String → ParsedEvent → Action Unit
  record_event raw_body event_id ev = do
    t ← external env.now
    update (
        add_webhook (record {
          psp_event_id = event_id;
          payload = raw_body;
          status = WebhookStatus.processed;
          received_at = t;
        }))
    flush env
    transition ev.event_type ev.psp_reference

  -- Steps 3 to 5.
  unfoldable pub process_event : String → ParsedEvent → Action Unit
  process_event raw_body ev = do
    event_id ← lift (as_text ev.event_id)
    seen ← gets (λ d. has_event event_id d.webhook_events)
    if seen then pure tt else record_event raw_body event_id ev

  -- The random id is drawn also where the event has one.
  unfoldable pub parse_and_process : String → Action Unit
  parse_and_process raw_body = do
    json ← or_raise (env.loads raw_body) invalid_json
    new_id ← external env.uuid4
    ev ← lift (parse_event (env.uuid_str new_id) json)
    process_event raw_body ev

-- `stripe_signature or default`
abbrev pub first_of : Option String → String → String
first_of none default = default
first_of (some s) default = if is_blank s then default else s

module _ (env : Environment) (settings : Settings) where
  unfoldable pub handle : String → String → Action Unit
  handle raw_body signature = do
    raise_if (is_blank signature) (domain invalid_signature)
    valid ← is_valid_signature env settings raw_body signature
    raise_if (not valid) (domain invalid_signature)
    parse_and_process env raw_body

  unfoldable pub handle_webhook : String → Option String → Option String → Action Unit
  handle_webhook raw_body stripe_signature x_psp_signature =
      transaction env (handle raw_body (first_of stripe_signature (first_of x_psp_signature "")))
