-- ===== src/System.antt =====
-- The service as a whole: the calls of `PaymentService.create` that wait for the provider, between
-- their two transactions, and the transactions of all services in any order.
pub mod Lifecycle
pub mod Escrow
pub mod Statuses
pub mod Phases
pub mod Services
pub mod Expiry
pub mod Opening
pub mod Finishing
pub mod Invariant
pub mod Histories
pub mod Safety
pub mod Answers
pub mod Creation
use apex_payments_engine.Prelude.{
  ℕ, suc, String, Bool, true, false, Option, none, some, List, [], ◌∷◌, ◌==◌, if◌then◌else◌,
}
use apex_payments_engine.Prelude.Int.{ℤ}
use apex_payments_engine.Prelude.Table.{find}
use apex_payments_engine.Domain.Exceptions.{Uuid}
use apex_payments_engine.Schemas.{CreatePaymentRequest}
use apex_payments_engine.Session.{Environment, World, Result, ok, err}
use apex_payments_engine.Psp.{AuthorizationResult, Settings}
use apex_payments_engine.Payments.{Opened, replayed, held, open_payment, finish_payment}
use apex_payments_engine.Reconciliation.Runs.{
  Step, refund_step, webhook_step, expire_step, drain_step, step,
}

-- A call of `create` that has held its payment and waits for the provider.
pub record Flight : Type 0 where
  pub key : String
  pub request : CreatePaymentRequest
  pub id : Uuid

abbrev pub flight_key : Flight → Uuid
flight_key f = f.id

pub record System : Type 0 where
  pub world : World
  pub flights : List Flight

-- What may happen next: a call of `create` arrives, the provider answers one that waits, or raises,
-- or another transaction runs.
pub data Event : Type 0 where
  arrival : Bool → String → CreatePaymentRequest → Event
  answer : Uuid → AuthorizationResult → Event
  failure : Uuid → Event
  refund_call : Bool → String → Uuid → ℤ → Event
  webhook_call : String → Option String → Option String → Event
  expiry : ℕ → Event
  relay : (Uuid → Bool) → ℕ → Event

-- A call of code outside the repository has been made.
abbrev pub called : World → World
called w = record w { calls = suc w.calls }

abbrev pub drop_flight : Uuid → List Flight → List Flight
drop_flight id [] = []
drop_flight id (f ∷ fs) = if f.id == id then fs else f ∷ drop_flight id fs

abbrev pub add_flight :
    String → CreatePaymentRequest → Uuid → Result Opened → List Flight → List Flight
add_flight key request id (ok (held p)) fs = record { key = key; request = request; id = id } ∷ fs
add_flight key request id (ok (replayed code response)) fs = fs
add_flight key request id (err e) fs = fs

module _ (env : Environment) where
  -- The id is drawn and the first transaction runs.
  unfoldable pub arrive : Bool → String → CreatePaymentRequest → System → System
  arrive lock key request s =
      let id = env.uuid4 s.world.calls in
      let (r, u) = open_payment env lock key request id (called s.world) in
      record { world = u; flights = add_flight key request id r s.flights }

  abbrev pub land : Option Flight → AuthorizationResult → System → System
  land none auth_result s = s
  land (some f) auth_result s = record {
    world = (finish_payment env f.key f.request f.id auth_result (called s.world)).1;
    flights = drop_flight f.id s.flights;
  }

module _ (env : Environment) (settings : Settings) where
  abbrev pub other : Step → System → System
  other x s = record { world = step env settings x s.world; flights = s.flights }

  unfoldable pub advance : Event → System → System
  advance (arrival lock key request) s = arrive env lock key request s
  advance (answer id auth_result) s = land env (find flight_key id s.flights) auth_result s
  advance (failure id) s = record { world = called s.world; flights = drop_flight id s.flights }
  advance (refund_call lock key id amount) s = other (refund_step lock key id amount) s
  advance (webhook_call raw_body stripe_signature psp_signature) s =
      other (webhook_step raw_body stripe_signature psp_signature) s
  advance (expiry timeout_minutes) s = other (expire_step timeout_minutes) s
  advance (relay locked batch_size) s = other (drain_step locked batch_size) s

  unfoldable pub advance_all : List Event → System → System
  advance_all [] s = s
  advance_all (x ∷ xs) s = advance_all xs (advance x s)
