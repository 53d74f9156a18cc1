-- ===== src/System/Invariant.antt =====
-- Each event keeps the escrow and the calls that wait consistent.
use apex_payments_engine.Prelude.{
  ◌≡◌, ◌≢◌, refl, ◌∙◌, subst, String, Bool, Option, none, some, some_eq, List, [], ◌∷◌, All, arith,
  ◌==◌, inl, inr, Bool-cases,
}
use apex_payments_engine.Prelude.Int.{ℤ}
use apex_payments_engine.Prelude.Table.{IsKeyed, find}
use apex_payments_engine.Domain.Exceptions.{Uuid}
use apex_payments_engine.Domain.Models.{Database}
use apex_payments_engine.Schemas.{CreatePaymentRequest}
use apex_payments_engine.Session.{Environment, World, Result, ok, err}
use apex_payments_engine.Session.Ensures.{transaction_keeps}
use apex_payments_engine.Psp.{AuthorizationResult, Settings}
use apex_payments_engine.Saga.{payment_row}
use apex_payments_engine.Payments.{Opened, replayed, held, open_payment, finish_payment}
use apex_payments_engine.Webhooks.{handle_webhook, first_of}
use apex_payments_engine.OutboxRelay.{drain_batch}
use apex_payments_engine.Reconciliation.Runs.{
  Step, refund_step, webhook_step, expire_step, drain_step, step,
}
use apex_payments_engine.System.{
  Flight, flight_key, System, Event, arrival, answer, failure, refund_call, webhook_call, expiry,
  relay, called, drop_flight, add_flight, arrive, land, advance,
}
use apex_payments_engine.System.Escrow.{
  surplus, IsProcessing, IsSound, IsKept, KeepsEscrow, KeepsEscrow-preorder,
}
use apex_payments_engine.System.Services.{
  handle-KeepsEscrow, refund-KeepsEscrow, draining-KeepsEscrow,
}
use apex_payments_engine.System.Expiry.{expire_stale_holds-KeepsEscrow}
use apex_payments_engine.System.Opening.{
  EnforcesIds, IsApartRequest, IsOpened, open_payment-IsOpened,
}
use apex_payments_engine.System.Finishing.{finish_payment-IsAdvanced}

abbrev pub IsDistinct : List Flight → Type 0
IsDistinct = IsKeyed flight_key

abbrev pub AllProcessing : List Flight → Database → Type 0
AllProcessing fs d = All (λ (f : Flight). IsProcessing f.id d) fs

-- The payments have ids of their own, positive amounts, and parties apart from the suspense
-- account; the account has `x` more than the payments that it holds; and the payment of each call
-- that waits is PROCESSING, two calls never having one payment.
pub record IsConsistent (x : ℤ) (s : System) : Type 0 where
  pub sound : IsSound s.world.db
  pub surplus_lem : surplus s.world.db ≡ x
  pub processing : AllProcessing s.flights s.world.db
  pub distinct : IsDistinct s.flights

abbrev pub IsApartEvent : Event → Type 0
IsApartEvent (arrival lock key request) = IsApartRequest request
IsApartEvent _ = Unit

kept_processing :
    (d e : Database) → IsKept d e → (fs : List Flight) → AllProcessing fs d → AllProcessing fs e
kept_processing d e kept [] h = tt
kept_processing d e kept (f ∷ fs) h = (kept.processing f.id h.0, kept_processing d e kept fs h.1)

kept-IsConsistent :
    (x : ℤ) (s : System) (w : World)
    → IsKept s.world.db w.db
    → IsConsistent x s
    → IsConsistent x (record { world = w; flights = s.flights })
kept-IsConsistent x s w kept c = record {
  sound = kept.sound;
  surplus_lem = kept.surplus_lem ∙ c.surplus_lem;
  processing = kept_processing s.world.db w.db kept s.flights c.processing;
  distinct = c.distinct;
}

-- A payment that is not in the table is no call's.
unknown :
    (id : Uuid) (d : Database) (fs : List Flight)
    → payment_row id d ≡ none
    → AllProcessing fs d
    → find flight_key id fs ≡ none
unknown id d [] fresh h = refl
unknown id d (f ∷ fs) fresh ((row, found, status), rest) = elim (Bool-cases (f.id == id)) [
  | inl here ↦ absurd (ground arith)
  | inr there ↦ rw there (unknown id d fs fresh rest)
]

arrived-IsConsistent :
    (x : ℤ) (s : System) (key : String) (request : CreatePaymentRequest) (id : Uuid)
    (r : Result Opened) (w : World)
    → IsOpened id r s.world.db w.db
    → IsConsistent x s
    → IsConsistent x (record { world = w; flights = add_flight key request id r s.flights })
arrived-IsConsistent x s key request id (ok (held p)) w (kept, processing, fresh) c =
    let k = kept-IsConsistent x s w kept c in
    record {
      sound = k.sound;
      surplus_lem = k.surplus_lem;
      processing = (processing, k.processing);
      distinct = (unknown id s.world.db s.flights fresh c.processing, c.distinct);
    }
arrived-IsConsistent x s key request id (ok (replayed code response)) w kept c =
    kept-IsConsistent x s w kept c
arrived-IsConsistent x s key request id (err e) w kept c = kept-IsConsistent x s w kept c

module _ (id : Uuid) where
  drop-none :
      (k : Uuid) (fs : List Flight)
      → find flight_key k fs ≡ none
      → find flight_key k (drop_flight id fs) ≡ none
  drop-none k [] h = refl
  drop-none k (f ∷ fs) h = ground (arith, drop-none k fs)

  drop-IsDistinct : (fs : List Flight) → IsDistinct fs → IsDistinct (drop_flight id fs)
  drop-IsDistinct [] h = tt
  drop-IsDistinct (f ∷ fs) h = elim (Bool-cases (f.id == id)) [
    | inl here ↦ rw here h.1
    | inr there ↦ rw there (drop-none f.id fs h.0, drop-IsDistinct fs h.1)
  ]

  module _ (d e : Database)
      (others : (j : Uuid) → j ≢ id → IsProcessing j d → IsProcessing j e) where
    others_processing :
        (fs : List Flight) → find flight_key id fs ≡ none → AllProcessing fs d → AllProcessing fs e
    others_processing [] absent h = tt
    others_processing (f ∷ fs) absent h =
        let ne : f.id ≢ id = λ here. ground arith in
        (others f.id ne h.0, others_processing fs (ground arith) h.1)

    -- The calls that still wait after one has been answered.
    drop_processing :
        (fs : List Flight)
        → IsDistinct fs
        → AllProcessing fs d
        → AllProcessing (drop_flight id fs) e
    drop_processing [] distinct h = tt
    drop_processing (f ∷ fs) distinct h = elim (Bool-cases (f.id == id)) [
      | inl here ↦ rw here (others_processing fs (ground arith) h.1)
      | inr there ↦
          let ne : f.id ≢ id = λ here. ground arith in
          rw there (others f.id ne h.0, drop_processing fs distinct.1 h.1)
    ]

  pub flight_processing :
      (d : Database) (f : Flight) (fs : List Flight)
      → find flight_key id fs ≡ some f
      → AllProcessing fs d
      → IsProcessing f.id d
  flight_processing d f [] found h = absurd (ground arith)
  flight_processing d f (g ∷ fs) found h = elim (Bool-cases (g.id == id)) [
    | inl here ↦ subst (λ (f : Flight). IsProcessing f.id d) (some_eq (rw here at found)) h.0
    | inr there ↦ flight_processing d f fs (rw there at found) h.1
  ]

land-IsConsistent :
    (env : Environment) (x : ℤ) (s : System) (id : Uuid) (found : Option Flight)
    (auth_result : AuthorizationResult)
    → find flight_key id s.flights ≡ found
    → IsConsistent x s
    → IsConsistent x (land env found auth_result s)
land-IsConsistent env x s id none auth_result e c = c
land-IsConsistent env x s id (some f) auth_result e c =
    let waits = flight_processing id s.world.db f s.flights e c.processing in
    let a =
      finish_payment-IsAdvanced env f.key f.request f.id auth_result (called s.world) waits
        c.sound in
    record {
      sound = a.sound;
      surplus_lem = a.surplus_lem ∙ c.surplus_lem;
      processing =
          drop_processing f.id s.world.db
            (finish_payment env f.key f.request f.id auth_result (called s.world)).1.db a.others
            s.flights c.distinct c.processing;
      distinct = drop-IsDistinct f.id s.flights c.distinct;
    }

module _ (env : Environment) (settings : Settings) (x : ℤ) (enforces : EnforcesIds env) where
  arrive-IsConsistent :
      (lock : Bool) (key : String) (request : CreatePaymentRequest) (s : System)
      → IsApartRequest request
      → IsConsistent x s
      → IsConsistent x (arrive env lock key request s)
  unfolding arrive
  arrive-IsConsistent lock key request s apart c =
      let id = env.uuid4 s.world.calls in
      let r = open_payment env lock key request id (called s.world) in
      arrived-IsConsistent x s key request id r.0 r.1
        (open_payment-IsOpened env key request id lock (called s.world) enforces apart c.sound) c

  other-IsConsistent :
      (y : Step) (s : System)
      → KeepsEscrow s.world.db (step env settings y s.world).db
      → IsConsistent x s
      → IsConsistent x (record { world = step env settings y s.world; flights = s.flights })
  other-IsConsistent y s keeps c =
      kept-IsConsistent x s (step env settings y s.world) (keeps.keeps c.sound) c

  pub advance-IsConsistent :
      (event : Event) (s : System)
      → IsApartEvent event
      → IsConsistent x s
      → IsConsistent x (advance env settings event s)
  unfolding advance step handle_webhook drain_batch
  advance-IsConsistent (arrival lock key request) s apart c =
      arrive-IsConsistent lock key request s apart c
  advance-IsConsistent (answer id auth_result) s apart c =
      land-IsConsistent env x s id (find flight_key id s.flights) auth_result refl c
  advance-IsConsistent (failure id) s apart c = record {
    sound = c.sound;
    surplus_lem = c.surplus_lem;
    processing =
        drop_processing id s.world.db s.world.db (λ j ne p. p) s.flights c.distinct c.processing;
    distinct = drop-IsDistinct id s.flights c.distinct;
  }
  advance-IsConsistent (refund_call lock key id amount) s apart c =
      other-IsConsistent (refund_step lock key id amount) s
        (transaction_keeps KeepsEscrow-preorder env _ (refund-KeepsEscrow env lock key id amount)
          s.world)
        c
  advance-IsConsistent (webhook_call raw_body stripe_signature psp_signature) s apart c =
      other-IsConsistent (webhook_step raw_body stripe_signature psp_signature) s
        (transaction_keeps KeepsEscrow-preorder env _
          (handle-KeepsEscrow env settings raw_body
            (first_of stripe_signature (first_of psp_signature "")))
          s.world)
        c
  advance-IsConsistent (expiry timeout_minutes) s apart c =
      other-IsConsistent (expire_step timeout_minutes) s
        (transaction_keeps KeepsEscrow-preorder env _
          (expire_stale_holds-KeepsEscrow env timeout_minutes) s.world)
        c
  advance-IsConsistent (relay locked batch_size) s apart c =
      other-IsConsistent (drain_step locked batch_size) s
        (transaction_keeps KeepsEscrow-preorder env _ (draining-KeepsEscrow env locked batch_size)
          s.world)
        c
