-- ===== src/OutboxRelay/Loop/Rounds.antt =====
-- How the events that wait get fewer.
use apex_payments_engine.Prelude.{
  ℕ, zero, suc, ◌≡◌, ◌≤◌, ◌<◌, refl, sym, ap, ◌∙◌, true, not, ◌&&◌, some, some_eq, List, [], ◌∷◌,
  length, take, All, arith, Bool-cases, inl, inr, ◌==◌, if◌then◌else◌,
}
use apex_payments_engine.Prelude.Table.{find, modify, IsKeyed, modify-IsKeyed}
use apex_payments_engine.Domain.Exceptions.{Uuid, Time}
use apex_payments_engine.Domain.Models.{Outbox}
use apex_payments_engine.OutboxRelay.{
  outbox_key, is_unpublished, selected, insert_event, order_by_created_at, batch, published,
  publish_each,
}
use apex_payments_engine.OutboxRelay.Batches.{All-order_by_created_at, All-take}
use apex_payments_engine.OutboxRelay.Loop.{unlocked}

-- The events that wait.
unfoldable pub unpublished_count : List Outbox → ℕ
unpublished_count [] = 0
unpublished_count (x ∷ xs) =
    if is_unpublished x then suc (unpublished_count xs) else unpublished_count xs

module _ (t : Time) (k : Uuid) where
  modify-count :
      (rows : List Outbox)
      → unpublished_count (modify outbox_key k (published t) rows) ≤ unpublished_count rows
  unfolding unpublished_count
  modify-count [] = omega arith
  modify-count (x ∷ xs) = let rest = modify-count xs in ground arith

  -- Publishing an event that was not published.
  pub modify-count_lt :
      (ev : Outbox) (rows : List Outbox)
      → find outbox_key k rows ≡ some ev
      → is_unpublished ev ≡ true
      → unpublished_count (modify outbox_key k (published t) rows) < unpublished_count rows
  unfolding unpublished_count
  modify-count_lt ev [] found new = absurd (ground arith)
  modify-count_lt ev (x ∷ xs) found new = elim (Bool-cases (x.id == k)) [
    | inl here ↦
        let same : x ≡ ev = some_eq (rw here at found) in
        let new' : is_unpublished x ≡ true = rw same new in rw (here, new') (omega arith)
    | inr there ↦
        let rest = modify-count_lt ev xs (rw there at found) new in rw there (ground arith)
  ]

pub publish_each-count :
    (t : Time) (evs rows : List Outbox)
    → unpublished_count (publish_each t evs rows) ≤ unpublished_count rows
unfolding publish_each
publish_each-count t [] rows = omega arith
publish_each-count t (ev ∷ evs) rows =
    let first = modify-count t ev.id rows in
    let rest = publish_each-count t evs (modify outbox_key ev.id (published t) rows) in omega arith

pub publish_each-IsKeyed :
    (t : Time) (evs rows : List Outbox)
    → IsKeyed outbox_key rows
    → IsKeyed outbox_key (publish_each t evs rows)
unfolding publish_each
publish_each-IsKeyed t [] rows h = h
publish_each-IsKeyed t (ev ∷ evs) rows h =
    publish_each-IsKeyed t evs (modify outbox_key ev.id (published t) rows)
      (modify-IsKeyed outbox_key ev.id (published t) (λ x. refl) rows h)

-- The batch of a table in which no event is locked.
pub selected-All :
    (P : Outbox → Type 0) (rows : List Outbox) → All P rows → All P (selected unlocked rows)
unfolding selected
selected-All P [] h = tt
selected-All P (x ∷ xs) h = elim (Bool-cases (is_unpublished x && not (unlocked x.id))) [
  | inl free ↦ rw free (h.0, selected-All P xs h.1)
  | inr taken ↦ rw taken (selected-All P xs h.1)
]

length-selected : (rows : List Outbox) → length (selected unlocked rows) ≡ unpublished_count rows
unfolding selected unpublished_count
length-selected [] = refl
length-selected (x ∷ xs) = let rest = length-selected xs in ground arith

length-insert_event :
    (ev : Outbox) (xs : List Outbox) → length (insert_event ev xs) ≡ suc (length xs)
unfolding insert_event
length-insert_event ev [] = refl
length-insert_event ev (x ∷ xs) = let rest = length-insert_event ev xs in ground arith

length-order_by_created_at : (xs : List Outbox) → length (order_by_created_at xs) ≡ length xs
unfolding order_by_created_at
length-order_by_created_at [] = refl
length-order_by_created_at (x ∷ xs) =
    length-insert_event x (order_by_created_at xs) ∙ ap suc (length-order_by_created_at xs)

take-empty : (n : ℕ) (xs : List Outbox) → 1 ≤ n → length (take n xs) ≡ 0 → length xs ≡ 0
take-empty zero xs positive h = absurd (omega arith)
take-empty (suc n) [] positive h = refl
take-empty (suc n) (x ∷ xs) positive h = absurd (omega arith)

pub batch-empty :
    (n : ℕ) (rows : List Outbox)
    → 1 ≤ n
    → length (batch unlocked n rows) ≡ 0
    → unpublished_count rows ≡ 0
unfolding batch
batch-empty n rows positive h =
    sym (length-selected rows)
    ∙ sym (length-order_by_created_at (selected unlocked rows))
    ∙ take-empty n (order_by_created_at (selected unlocked rows)) positive h

pub batch-All :
    (P : Outbox → Type 0) (n : ℕ) (rows : List Outbox)
    → All P (selected unlocked rows)
    → All P (batch unlocked n rows)
unfolding batch
batch-All P n rows h =
    All-take P n (order_by_created_at (selected unlocked rows))
      (All-order_by_created_at P (selected unlocked rows) h)
