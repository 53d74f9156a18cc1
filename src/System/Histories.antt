-- ===== src/System/Histories.antt =====
-- What becomes of each payment, whatever happens in whatever order.
use apex_payments_engine.Prelude.{◌≡◌, refl, Option, none, some, List, [], ◌∷◌, All}
use apex_payments_engine.Prelude.Int.{ℤ}
use apex_payments_engine.Prelude.Table.{find}
use apex_payments_engine.Domain.Exceptions.{Uuid}
use apex_payments_engine.Domain.Models.{Database}
use apex_payments_engine.Session.{Environment, Result, ok, err}
use apex_payments_engine.Session.Ensures.{transaction_keeps}
use apex_payments_engine.Psp.{AuthorizationResult, Settings}
use apex_payments_engine.Payments.{Opened, replayed, held, open_payment}
use apex_payments_engine.Webhooks.{handle_webhook, first_of}
use apex_payments_engine.OutboxRelay.{drain_batch}
use apex_payments_engine.Reconciliation.Runs.{step}
use apex_payments_engine.System.{
  Flight, flight_key, System, Event, arrival, answer, failure, refund_call, webhook_call, expiry,
  relay, called, arrive, land, advance, advance_all,
}
use apex_payments_engine.System.Escrow.{KeepsEscrow-preorder}
use apex_payments_engine.System.Lifecycle.{IsFollowed, IsFollowed-refl, IsFollowed-trans}
use apex_payments_engine.System.Services.{
  handle-KeepsEscrow, refund-KeepsEscrow, draining-KeepsEscrow,
}
use apex_payments_engine.System.Expiry.{expire_stale_holds-KeepsEscrow}
use apex_payments_engine.System.Opening.{EnforcesIds, IsOpened, open_payment-IsOpened}
use apex_payments_engine.System.Finishing.{finish_payment-IsAdvanced}
use apex_payments_engine.System.Invariant.{
  IsConsistent, IsApartEvent, advance-IsConsistent, flight_processing,
}

IsOpened-IsFollowed :
    (id : Uuid) (r : Result Opened) (d e : Database) → IsOpened id r d e → IsFollowed d e
IsOpened-IsFollowed id (ok (held p)) d e h = h.0.followed
IsOpened-IsFollowed id (ok (replayed code response)) d e h = h.followed
IsOpened-IsFollowed id (err x) d e h = h.followed

land-IsFollowed :
    (env : Environment) (x : ℤ) (s : System) (id : Uuid) (found : Option Flight)
    (auth_result : AuthorizationResult)
    → find flight_key id s.flights ≡ found
    → IsConsistent x s
    → IsFollowed s.world.db (land env found auth_result s).world.db
land-IsFollowed env x s id none auth_result e c = IsFollowed-refl s.world.db
land-IsFollowed env x s id (some f) auth_result e c =
    (finish_payment-IsAdvanced env f.key f.request f.id auth_result (called s.world)
      (flight_processing id s.world.db f s.flights e c.processing) c.sound).followed

module _ (env : Environment) (settings : Settings) (x : ℤ) (enforces : EnforcesIds env) where
  advance-IsFollowed :
      (event : Event) (s : System)
      → IsApartEvent event
      → IsConsistent x s
      → IsFollowed s.world.db (advance env settings event s).world.db
  unfolding advance arrive step handle_webhook drain_batch
  advance-IsFollowed (arrival lock key request) s apart c =
      let id = env.uuid4 s.world.calls in
      let r = open_payment env lock key request id (called s.world) in
      IsOpened-IsFollowed id r.0 s.world.db r.1.db
        (open_payment-IsOpened env key request id lock (called s.world) enforces apart c.sound)
  advance-IsFollowed (answer id auth_result) s apart c =
      land-IsFollowed env x s id (find flight_key id s.flights) auth_result refl c
  advance-IsFollowed (failure id) s apart c = IsFollowed-refl s.world.db
  advance-IsFollowed (refund_call lock key id amount) s apart c =
      ((transaction_keeps KeepsEscrow-preorder env _ (refund-KeepsEscrow env lock key id amount)
          s.world).keeps
        c.sound).followed
  advance-IsFollowed (webhook_call raw_body stripe_signature psp_signature) s apart c =
      ((transaction_keeps KeepsEscrow-preorder env _
          (handle-KeepsEscrow env settings raw_body
            (first_of stripe_signature (first_of psp_signature "")))
          s.world).keeps
        c.sound).followed
  advance-IsFollowed (expiry timeout_minutes) s apart c =
      ((transaction_keeps KeepsEscrow-preorder env _
          (expire_stale_holds-KeepsEscrow env timeout_minutes) s.world).keeps
        c.sound).followed
  advance-IsFollowed (relay locked batch_size) s apart c =
      ((transaction_keeps KeepsEscrow-preorder env _ (draining-KeepsEscrow env locked batch_size)
          s.world).keeps
        c.sound).followed

  -- If the database accepts no two payments with one id and no request names the suspense account
  -- as a party, then from a consistent state, whatever happens in whatever order, each payment stays
  -- in the tables with its amount and its parties, and its status changes only by steps of the state
  -- machine: a PROCESSING payment becomes SUCCEEDED, FAILED or AUTHORIZED, an AUTHORIZED one SUCCEEDED
  -- or FAILED, and a SUCCEEDED one or one that is REFUND_PENDING becomes REFUNDED.
  pub advance_all-IsFollowed :
      (events : List Event) (s : System)
      → All IsApartEvent events
      → IsConsistent x s
      → IsFollowed s.world.db (advance_all env settings events s).world.db
  unfolding advance_all
  advance_all-IsFollowed [] s apart c = IsFollowed-refl s.world.db
  advance_all-IsFollowed (event ∷ events) s apart c =
      let t = advance env settings event s in
      IsFollowed-trans s.world.db t.world.db (advance_all env settings events t).world.db
        (advance-IsFollowed event s apart.0 c)
        (advance_all-IsFollowed events t apart.1
          (advance-IsConsistent env settings x enforces event s apart.0 c))
