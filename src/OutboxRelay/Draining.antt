-- ===== src/OutboxRelay/Draining.antt =====
-- What `drain_batch` does to the outbox.
use native.Mathlib.Decide.{ℕ_discrete}
use apex_payments_engine.Prelude.{
  ℕ, suc, ◌≡◌, refl, ◌∙◌, Bool, false, not, ◌&&◌, some, List, [], ◌∷◌, length, All, arith,
  Bool-cases, inl, inr, ◌==◌,
}
use apex_payments_engine.Prelude.Table.{find, modify, find-modify_self, find-modify_ne}
use apex_payments_engine.Domain.Exceptions.{Uuid, Time}
use apex_payments_engine.Domain.Models.{Outbox}
use apex_payments_engine.Session.{AcceptsAll, Environment, World, ok, ◌>>=◌}
use apex_payments_engine.Session.Transactions.{transaction-returns}
use apex_payments_engine.OutboxRelay.{
  outbox_key, is_unpublished, selected, order_by_created_at, batch, published, publish_each,
  publish_batch, drain_batch,
}
use apex_payments_engine.OutboxRelay.Batches.{All-order_by_created_at, All-take}

-- The outbox has an event of this id; and it is marked as published.
abbrev IsThere : List Outbox → Outbox → Type 0
IsThere rows ev = (row : Outbox) × (find outbox_key ev.id rows ≡ some row)

abbrev pub IsPublished : List Outbox → Outbox → Type 0
IsPublished rows ev =
    (row : Outbox) × (find outbox_key ev.id rows ≡ some row) × (is_unpublished row ≡ false)

All-weaken :
    (P Q : Outbox → Type 0) (xs : List Outbox) → ((x : Outbox) → P x → Q x) → All P xs → All Q xs
All-weaken P Q [] f h = tt
All-weaken P Q (x ∷ xs) f h = (f x h.0, All-weaken P Q xs f h.1)

IsThere-cons : (x ev : Outbox) (rows : List Outbox) → IsThere rows ev → IsThere (x ∷ rows) ev
IsThere-cons x ev rows (row, h) = elim (Bool-cases (x.id == ev.id)) [
  | inl same ↦ (x, rw same refl)
  | inr other ↦ (row, rw other h)
]

IsThere-self : (x : Outbox) (rows : List Outbox) → IsThere (x ∷ rows) x
IsThere-self x rows = (x, ground arith)

selected-IsThere :
    (locked : Uuid → Bool) (rows : List Outbox) → All (IsThere rows) (selected locked rows)
unfolding selected
selected-IsThere locked [] = tt
selected-IsThere locked (x ∷ xs) =
    let rest =
      All-weaken (IsThere xs) (IsThere (x ∷ xs)) (selected locked xs)
        (λ ev h. IsThere-cons x ev xs h) (selected-IsThere locked xs) in
    elim (Bool-cases (is_unpublished x && not (locked x.id))) [
      | inl free ↦ rw free (IsThere-self x xs, rest)
      | inr taken ↦ rw taken rest
    ]

batch-IsThere :
    (locked : Uuid → Bool) (n : ℕ) (rows : List Outbox) → All (IsThere rows) (batch locked n rows)
unfolding batch
batch-IsThere locked n rows =
    All-take (IsThere rows) n (order_by_created_at (selected locked rows))
      (All-order_by_created_at (IsThere rows) (selected locked rows) (selected-IsThere locked rows))

modify-IsThere :
    (t : Time) (k : Uuid) (ev : Outbox) (rows : List Outbox)
    → IsThere rows ev
    → IsThere (modify outbox_key k (published t) rows) ev
modify-IsThere t k ev rows (row, h) = elim (ℕ_discrete ev.id k) [
  | yes e ↦ (
    published t row,
    rw (← e) (find-modify_self outbox_key ev.id (published t) row rows (λ y. refl) h),
  )
  | no ne ↦ (row, find-modify_ne outbox_key ev.id k (published t) rows (λ y. refl) ne ∙ h)
]

modify-IsPublished :
    (t : Time) (k : Uuid) (ev : Outbox) (rows : List Outbox)
    → IsPublished rows ev
    → IsPublished (modify outbox_key k (published t) rows) ev
modify-IsPublished t k ev rows (row, h, p) = elim (ℕ_discrete ev.id k) [
  | yes e ↦ (
    published t row,
    rw (← e) (find-modify_self outbox_key ev.id (published t) row rows (λ y. refl) h),
    refl,
  )
  | no ne ↦ (row, find-modify_ne outbox_key ev.id k (published t) rows (λ y. refl) ne ∙ h, p)
]

publish_each-IsPublished :
    (t : Time) (evs : List Outbox) (ev : Outbox) (rows : List Outbox)
    → IsPublished rows ev
    → IsPublished (publish_each t evs rows) ev
unfolding publish_each
publish_each-IsPublished t [] ev rows h = h
publish_each-IsPublished t (x ∷ xs) ev rows h =
    publish_each-IsPublished t xs ev (modify outbox_key x.id (published t) rows)
      (modify-IsPublished t x.id ev rows h)

publish_each-All :
    (t : Time) (evs rows : List Outbox)
    → All (IsThere rows) evs
    → All (IsPublished (publish_each t evs rows)) evs
unfolding publish_each
publish_each-All t [] rows h = tt
publish_each-All t (x ∷ xs) rows h =
    let next = modify outbox_key x.id (published t) rows in
    let (row, found) = h.0 in
    (
      publish_each-IsPublished t xs x next (
        published t row,
        find-modify_self outbox_key x.id (published t) row rows (λ y. refl) found,
        refl,
      ),
      publish_each-All t xs next (
          All-weaken (IsThere rows) (IsThere next) xs (λ ev k. modify-IsThere t x.id ev rows k)
            h.1),
    )

module _ (env : Environment) where
  publish_batch_lem :
      (evs : List Outbox) (w : World)
      → All (IsThere w.outbox) evs
      → (u : World) × (publish_batch env evs w ≡ (ok (length evs), u))
        × (u.db ≡ record w.db { outbox = u.outbox })
        × All (IsPublished u.outbox) evs
  unfolding publish_batch ◌>>=◌
  publish_batch_lem [] w h = (w, refl, refl, tt)
  publish_batch_lem (ev ∷ evs) w h =
      (_, refl, refl, publish_each-All (env.now w.calls) (ev ∷ evs) w.outbox h)

  -- If the database takes every write, draining returns the number of events of the batch, each of
  -- which is in the outbox and published afterwards, and no other table changes.
  drain_publishes :
      (locked : Uuid → Bool) (batch_size : ℕ) (w : World)
      → AcceptsAll env
      → (w' : World) × (drain_batch env locked batch_size w
          ≡ (ok (length (batch locked batch_size w.outbox)), w'))
        × (w'.db ≡ record w.db { outbox = w'.outbox })
        × All (IsPublished w'.outbox) (batch locked batch_size w.outbox)
  unfolding drain_batch ◌>>=◌
  drain_publishes locked batch_size w accepts =
      let evs = batch locked batch_size w.outbox in
      let (u, e, same, done) = publish_batch_lem evs w (batch-IsThere locked batch_size w.outbox) in
      (
        record u { calls = suc u.calls },
        transaction-returns env _ w u (length evs) accepts e,
        same,
        done,
      )
