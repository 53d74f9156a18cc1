-- ===== src/OutboxRelay.antt =====
-- app/application/outbox_relay.py: `OutboxRelay.drain_batch`. OutboxRelay/Loop has the loop around it.
pub mod Batches
pub mod Draining
pub mod Loop
use apex_payments_engine.Prelude.{
  ℕ, Bool, true, false, not, ◌&&◌, Option, none, some, List, [], ◌∷◌, length, is_empty, take, ltb,
  if◌then◌else◌,
}
use apex_payments_engine.Prelude.Table.{modify}
use apex_payments_engine.Domain.Exceptions.{Uuid, Time}
use apex_payments_engine.Domain.Models.{Outbox, Database}
use apex_payments_engine.Session.{
  Environment, Action, pure, gets, external, ◌>>=◌, ◌>>◌, update, transaction,
}

abbrev pub outbox_key : Outbox → Uuid
outbox_key ev = ev.id

-- `published_at IS NULL`
abbrev pub is_unpublished : Outbox → Bool
is_unpublished ev = elim ev.published_at [ none ↦ true | some t ↦ false ]

-- The events that are unpublished and that no other transaction has locked.
unfoldable pub selected : (Uuid → Bool) → List Outbox → List Outbox
selected locked [] = []
selected locked (ev ∷ evs) =
    let rest = selected locked evs in
    if is_unpublished ev && not (locked ev.id) then ev ∷ rest else rest

-- ORDER BY created_at ASC; events of the same time keep the order of the table.
unfoldable pub insert_event : Outbox → List Outbox → List Outbox
insert_event ev [] = ev ∷ []
insert_event ev (x ∷ xs) =
    let rest = insert_event ev xs in
    if ltb x.created_at ev.created_at then x ∷ rest else ev ∷ x ∷ xs

unfoldable pub order_by_created_at : List Outbox → List Outbox
order_by_created_at [] = []
order_by_created_at (ev ∷ evs) = insert_event ev (order_by_created_at evs)

-- The query, with LIMIT and SKIP LOCKED.
unfoldable pub batch : (Uuid → Bool) → ℕ → List Outbox → List Outbox
batch locked batch_size evs = take batch_size (order_by_created_at (selected locked evs))

abbrev pub published : Time → Outbox → Outbox
published t ev = record ev { published_at = some t }

-- The loop `ev.published_at = now`
unfoldable pub publish_each : Time → List Outbox → List Outbox → List Outbox
publish_each now [] rows = rows
publish_each now (ev ∷ evs) rows =
    publish_each now evs (modify outbox_key ev.id (published now) rows)

module _ (env : Environment) where
  unfoldable pub publish_batch : List Outbox → Action ℕ
  publish_batch [] = pure 0
  publish_batch (ev ∷ evs) = do
    now ← external env.now
    update (λ d. record d { outbox = publish_each now (ev ∷ evs) d.outbox })
    pure (length (ev ∷ evs))

  -- `locked` says which events other transactions hold.
  unfoldable pub drain_batch : (Uuid → Bool) → ℕ → Action ℕ
  drain_batch locked batch_size =
      transaction env
        (do events ← gets (λ d. batch locked batch_size d.outbox); publish_batch events)
