-- ===== src/OutboxRelay/Loop.antt =====
-- `OutboxRelay.run_loop` between two of its sleeps: rounds of `drain_batch` until one drains nothing
-- or raises.
pub mod Rounds
pub mod Idle
use apex_payments_engine.Prelude.{
  ℕ, zero, suc, ◌+◌, ◌≡◌, ◌≢◌, ◌≤◌, ◌<◌, refl, sym, ap, ◌∙◌, subst, Bool, true, false, not, ◌&&◌,
  Option, none, some, some_eq, List, [], ◌∷◌, length, take, ltb, All, arith, Bool-cases, inl, inr,
  ◌==◌, if◌then◌else◌,
}
use apex_payments_engine.Prelude.Table.{find, modify, IsKeyed, IsRowOf, rows_found, modify-IsKeyed}
use apex_payments_engine.Domain.Exceptions.{Uuid, Time, Error}
use apex_payments_engine.Domain.Models.{Outbox}
use apex_payments_engine.Session.{AcceptsAll, Environment, World, Result, ok, err, ◌>>=◌}
use apex_payments_engine.OutboxRelay.{
  outbox_key, is_unpublished, selected, insert_event, order_by_created_at, batch, published,
  publish_each, publish_batch, drain_batch,
}
use apex_payments_engine.OutboxRelay.Batches.{
  IsFree, selected-IsFree, All-order_by_created_at, All-take,
}

-- No other relay has locked an event.
abbrev pub unlocked : Uuid → Bool
unlocked id = false

abbrev pub idle_or : Result ℕ → World → Option World → Option World
idle_or (ok zero) w rest = some w
idle_or (ok (suc n)) w rest = rest
idle_or (err e) w rest = some w

-- `none` if the rounds given are too few.
unfoldable pub run_until_idle : Environment → ℕ → ℕ → World → Option World
run_until_idle env batch_size zero w = none
run_until_idle env batch_size (suc rounds) w =
    let (drained, u) = drain_batch env unlocked batch_size w in
    let rest = run_until_idle env batch_size rounds u in idle_or drained u rest
