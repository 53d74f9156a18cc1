-- ===== src/System/Safety.antt =====
-- What holds of the service as a whole, whatever happens in whatever order.
use apex_payments_engine.Prelude.{
  ℕ, ◌≡◌, refl, sym, ◌∙◌, String, Bool, true, some, List, [], ◌∷◌, All, ◌==◌, ==_iff,
}
use apex_payments_engine.Prelude.Int.{ℤ, pos, ◌-ℤ◌, ◌<ℤ◌, ◌≤ℤ◌, int_laws}
use apex_payments_engine.Prelude.Table.{find}
use apex_payments_engine.Domain.Enums.{PaymentStatus}
use apex_payments_engine.Domain.Exceptions.{Uuid}
use apex_payments_engine.Domain.Models.{Payment}
use apex_payments_engine.Schemas.{CreatePaymentRequest, PaymentResponse}
use apex_payments_engine.Session.{Environment, World, Result, ok, err, pure, continue, ◌>>=◌}
use apex_payments_engine.Psp.{AuthorizationResult, PaymentProvider, Settings}
use apex_payments_engine.Saga.{payment_row, psp_suspense_account_id}
use apex_payments_engine.Ledger.Postings.{balance_of}
use apex_payments_engine.Payments.{
  Opened, replayed, held, open_payment, finish_payment, authorize_and_finish, create,
}
use apex_payments_engine.System.{
  Flight, flight_key, System, Event, arrival, answer, failure, called, add_flight, arrive, land,
  advance, advance_all,
}
use apex_payments_engine.System.Escrow.{held_total, held_total-find, find-All, IsApart}
use apex_payments_engine.System.Opening.{EnforcesIds}
use apex_payments_engine.System.Invariant.{
  IsConsistent, IsApartEvent, advance-IsConsistent, flight_processing,
}

covered : (b h amount : ℤ) → pos 0 ≤ℤ b -ℤ h → amount ≤ℤ h → amount ≤ℤ b
covered b h amount nonneg below = omega int_laws

module _ (env : Environment) (settings : Settings) (x : ℤ) where
  -- If the database accepts no two payments with one id and no request names the suspense account
  -- as a party, whatever happens in whatever order keeps the service consistent: the suspense
  -- account still has exactly `x` more than the amounts of the payments that are PROCESSING or
  -- AUTHORIZED, payments have ids of their own, positive amounts and parties apart from that
  -- account, and the payment of each call that waits for the provider is PROCESSING and its own.
  pub advance_all-IsConsistent :
      EnforcesIds env
      → (events : List Event) (s : System) → All IsApartEvent events
      → IsConsistent x s
      → IsConsistent x (advance_all env settings events s)
  unfolding advance_all
  advance_all-IsConsistent enforces [] s apart c = c
  advance_all-IsConsistent enforces (event ∷ events) s apart c =
      advance_all-IsConsistent enforces events (advance env settings event s) apart.1
        (advance-IsConsistent env settings x enforces event s apart.0 c)

module _ (x : ℤ) where
  -- In a state that is consistent, with a suspense account that has no less than what it holds,
  -- each call that waits for the provider has a payment that is PROCESSING, has a positive amount,
  -- and whose amount the suspense account covers.
  pub flight_is_covered :
      (s : System) (id : Uuid) (f : Flight)
      → pos 0 ≤ℤ x
      → IsConsistent x s
      → find flight_key id s.flights ≡ some f
      → (row : Payment) × (payment_row f.id s.world.db ≡ some row)
        × (row.status ≡ PaymentStatus.processing)
        × (pos 0 <ℤ row.amount)
        × (row.amount ≤ℤ balance_of psp_suspense_account_id s.world.db)
  flight_is_covered s id f nonneg c found =
      let (row, there, status) = flight_processing id s.world.db f s.flights found c.processing in
      let ps = s.world.payments in
      (
        row,
        there,
        status,
        (find-All IsApart f.id row ps c.sound.apart there).2,
        covered (balance_of psp_suspense_account_id s.world.db) (held_total ps) row.amount
            (rw c.surplus_lem nonneg)
            (held_total-find f.id row ps c.sound.apart there (rw status refl)),
      )

-- What follows the arrival of a call: nothing, or the answer of the provider.
abbrev answered : Uuid → Result AuthorizationResult → Event
answered id (ok auth_result) = answer id auth_result
answered id (err e) = failure id

abbrev events_after : PaymentProvider → Uuid → Result Opened → World → List Event
events_after psp id (ok (held p)) w = answered id (psp.authorize w.calls p) ∷ []
events_after psp id (ok (replayed code response)) w = []
events_after psp id (err e) w = []

-- A value that is only wrapped leaves the world.
wrapped :
    {A B : Type 0} (f : A → B) (r : Result A) (u : World) → (continue r (λ a. pure (f a)) u).1 ≡ u
unfolding ◌>>=◌
wrapped f (ok a) u = refl
wrapped f (err e) u = refl

module _ (env : Environment) (settings : Settings) (psp : PaymentProvider) (key : String)
    (request : CreatePaymentRequest) where
  land_lem :
      (id : Uuid) (auth_result : AuthorizationResult) (u : World) (fs : List Flight)
      → let f : Flight = record { key = key; request = request; id = id } in
        (land env
          (find flight_key id (f ∷ fs))
          auth_result
          (record { world = u; flights = f ∷ fs })).world
        ≡ (finish_payment env key request id auth_result (called u)).1
  land_lem id auth_result u fs =
      let here : (id == id) ≡ true = (==_iff id id).1 refl in rw here refl

  answered_lem :
      (id : Uuid) (a : Result AuthorizationResult) (u : World) (fs : List Flight)
      → (continue {B = ℕ × PaymentResponse} a
          (λ auth_result. (do
            response ← finish_payment env key request id auth_result
            pure (201, response)))
          (called u)).1
        ≡ (advance env settings (answered id a) (record {
          world = u;
          flights = record { key = key; request = request; id = id } ∷ fs;
        })).world
  unfolding advance ◌>>=◌
  answered_lem id (err e) u fs = refl
  answered_lem id (ok auth_result) u fs =
      let finished = finish_payment env key request id auth_result (called u) in
      wrapped {B = ℕ × PaymentResponse} (λ (response : PaymentResponse). (201, response)) finished.0
        finished.1
      ∙ sym (land_lem id auth_result u fs)

  opened_lem :
      (id : Uuid) (r : Result Opened) (u : World) (fs : List Flight)
      → (continue r (λ o. authorize_and_finish env psp key request id o) u).1
        ≡ (advance_all env settings
            (events_after psp id r u)
            (record { world = u; flights = add_flight key request id r fs })).world
  unfolding advance_all authorize_and_finish ◌>>=◌
  opened_lem id (ok (held p)) u fs = answered_lem id (psp.authorize u.calls p) u fs
  opened_lem id (ok (replayed code response)) u fs = refl
  opened_lem id (err e) u fs = refl

  -- A call of `create` does what its arrival and, if it has held a payment, the answer or the
  -- failure of the provider right after it do.
  create_is_events :
      (lock : Bool) (s : System)
      → let id : Uuid = env.uuid4 s.world.calls in
        let opened : Result Opened × World =
          open_payment env lock key request id (called s.world) in
        (create env lock psp key request s.world).1
        ≡ (advance_all env settings
            (arrival lock key request ∷ events_after psp id opened.0 opened.1)
            s).world
  unfolding advance_all advance arrive create ◌>>=◌
  create_is_events lock s =
      let id = env.uuid4 s.world.calls in
      let opened = open_payment env lock key request id (called s.world) in
      opened_lem id opened.0 opened.1 s.flights
