-- ===== src/OutboxRelay/Loop/Idle.antt =====
-- The rounds end, with every event published.
use apex_payments_engine.Prelude.{
  ℕ, zero, suc, ◌≡◌, ◌≤◌, ◌<◌, refl, ap, ◌∙◌, true, false, some, List, [], ◌∷◌, length, All, arith,
  Bool-cases, inl, inr,
}
use apex_payments_engine.Prelude.Table.{modify, IsKeyed, IsRowOf, rows_found}
use apex_payments_engine.Domain.Models.{Outbox, Database}
use apex_payments_engine.Session.{AcceptsAll, Environment, World, ok, ◌>>=◌}
use apex_payments_engine.OutboxRelay.{
  outbox_key, is_unpublished, selected, batch, published, publish_each, publish_batch, drain_batch,
}
use apex_payments_engine.OutboxRelay.Batches.{IsFree, selected-IsFree}
use apex_payments_engine.Session.Transactions.{transaction-returns}
use apex_payments_engine.OutboxRelay.Loop.{unlocked, run_until_idle}
use apex_payments_engine.OutboxRelay.Loop.Rounds.{
  unpublished_count, modify-count_lt, publish_each-count, publish_each-IsKeyed, selected-All,
  batch-empty, batch-All,
}

-- An event of a batch: the row of its id, not yet published.
abbrev IsDue : List Outbox → Outbox → Type 0
IsDue rows ev = IsRowOf outbox_key rows ev × (is_unpublished ev ≡ true)

-- A round that drains nothing leaves the outbox; any other one leaves fewer events that wait.
abbrev IsRound : ℕ → List Outbox → List Outbox → Type 0
IsRound zero rows rows' = rows' ≡ rows
IsRound (suc n) rows rows' = unpublished_count rows' < unpublished_count rows

both : (P Q : Outbox → Type 0) (xs : List Outbox) → All P xs → All Q xs → All (λ x. P x × Q x) xs
both P Q [] h k = tt
both P Q (x ∷ xs) h k = ((h.0, k.0), both P Q xs h.1 k.1)

unpublished_of_free :
    (xs : List Outbox) → All (IsFree unlocked) xs → All (λ x. is_unpublished x ≡ true) xs
unpublished_of_free [] h = tt
unpublished_of_free (x ∷ xs) h = (h.0.0, unpublished_of_free xs h.1)

batch-IsDue :
    (n : ℕ) (rows : List Outbox)
    → IsKeyed outbox_key rows
    → All (IsDue rows) (batch unlocked n rows)
batch-IsDue n rows keyed =
    let xs = selected unlocked rows in
    batch-All (IsDue rows) n rows (
      both (IsRowOf outbox_key rows) (λ x. is_unpublished x ≡ true) xs
        (selected-All (IsRowOf outbox_key rows) rows (rows_found outbox_key rows keyed))
        (unpublished_of_free xs (selected-IsFree unlocked rows)))

none_waits :
    (rows : List Outbox) → unpublished_count rows ≡ 0 → All (λ x. is_unpublished x ≡ false) rows
unfolding unpublished_count
none_waits [] h = tt
none_waits (x ∷ xs) h = elim (Bool-cases (is_unpublished x)) [
  | inl new ↦ absurd (ground arith)
  | inr old ↦ (old, none_waits xs (rw old at h))
]

module _ (env : Environment) (batch_size : ℕ) where
  publish-IsRound :
      (evs : List Outbox) (w : World)
      → All (IsDue w.outbox) evs
      → IsKeyed outbox_key w.outbox
      → (u : World) × (publish_batch env evs w ≡ (ok (length evs), u))
        × (u.db ≡ record w.db { outbox = u.outbox })
        × IsKeyed outbox_key u.outbox
        × IsRound (length evs) w.outbox u.outbox
  unfolding publish_batch publish_each ◌>>=◌
  publish-IsRound [] w due keyed = (w, refl, refl, keyed, refl)
  publish-IsRound (ev ∷ evs) w due keyed =
      let t = env.now w.calls in
      let next = modify outbox_key ev.id (published t) w.outbox in
      let fewer = modify-count_lt t ev.id ev w.outbox due.0.0 due.0.1 in
      let rest = publish_each-count t evs next in
      (_, refl, refl, publish_each-IsKeyed t (ev ∷ evs) w.outbox keyed, omega arith)

  module _ (accepts : AcceptsAll env) (positive : 1 ≤ batch_size) where
    drain-IsRound :
        (w : World)
        → IsKeyed outbox_key w.outbox
        → (u : World) × (drain_batch env unlocked batch_size w
            ≡ (ok (length (batch unlocked batch_size w.outbox)), u))
          × (u.db ≡ record w.db { outbox = u.outbox })
          × IsKeyed outbox_key u.outbox
          × IsRound (length (batch unlocked batch_size w.outbox)) w.outbox u.outbox
    unfolding drain_batch ◌>>=◌
    drain-IsRound w keyed =
        let evs = batch unlocked batch_size w.outbox in
        let (u, e, same, keyed', round) =
          publish-IsRound evs w (batch-IsDue batch_size w.outbox keyed) keyed in
        (
          record u { calls = suc u.calls },
          transaction-returns env _ w u (length evs) accepts e,
          same,
          keyed',
          round,
        )

    abbrev Idles : ℕ → World → Type 0
    Idles rounds w =
        (w' : World) × (run_until_idle env batch_size rounds w ≡ some w')
        × (unpublished_count w'.outbox ≡ 0)
        × (w'.db ≡ record w.db { outbox = w'.outbox })

    after_round :
        (m rounds : ℕ) (w u : World)
        → drain_batch env unlocked batch_size w ≡ (ok m, u)
        → (u.db ≡ record w.db { outbox = u.outbox })
        → IsRound m w.outbox u.outbox
        → (m ≡ 0 → unpublished_count w.outbox ≡ 0)
        → unpublished_count w.outbox < suc rounds
        → (unpublished_count u.outbox < rounds → Idles rounds u)
        → Idles (suc rounds) w
    unfolding run_until_idle
    after_round zero rounds w u e same round none_left enough rest =
        (u, rw e refl, ap unpublished_count round ∙ none_left refl, same)
    after_round (suc m) rounds w u e same round none_left enough rest =
        let (w', f, done, same') = rest (omega arith) in
        (w', rw e f, done, same' ∙ ap (λ (d : Database). record d { outbox = w'.outbox }) same)

    idles :
        (rounds : ℕ) (w : World)
        → IsKeyed outbox_key w.outbox
        → unpublished_count w.outbox < rounds
        → Idles rounds w
    idles zero w keyed enough = absurd (omega arith)
    idles (suc rounds) w keyed enough =
        let (u, e, same, keyed', round) = drain-IsRound w keyed in
        after_round (length (batch unlocked batch_size w.outbox)) rounds w u e same round
          (batch-empty batch_size w.outbox positive) enough (λ fewer. idles rounds u keyed' fewer)

    -- If the database takes every write, no two events have one id, and a batch may have an event,
    -- more rounds than events wait are enough: the relay comes to a round that drains nothing, every
    -- event is then published, and no other table has changed.
    pub relay_idles :
        (rounds : ℕ) (w : World)
        → IsKeyed outbox_key w.outbox
        → unpublished_count w.outbox < rounds
        → (w' : World) × (run_until_idle env batch_size rounds w ≡ some w')
          × All (λ ev. is_unpublished ev ≡ false) w'.outbox
          × (w'.db ≡ record w.db { outbox = w'.outbox })
    relay_idles rounds w keyed enough =
        let (w', e, done, same) = idles rounds w keyed enough in
        (w', e, none_waits w'.outbox done, same)
