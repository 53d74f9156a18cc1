-- ===== src/OutboxRelay/Batches.antt =====
-- What a batch of the outbox relay is, and what draining it does.
use apex_payments_engine.Prelude.{
  ℕ, suc, zero, ◌≡◌, ◌≤◌, Bool, true, false, not, ◌&&◌, List, [], ◌∷◌, length, take, ltb, All,
  arith, Bool-cases, inl, inr,
}
use apex_payments_engine.Domain.Exceptions.{Uuid}
use apex_payments_engine.Domain.Models.{Outbox}
use apex_payments_engine.OutboxRelay.{
  is_unpublished, selected, insert_event, order_by_created_at, batch,
}

-- An event that may be drained.
abbrev pub IsFree : (Uuid → Bool) → Outbox → Type 0
IsFree locked ev = (is_unpublished ev ≡ true) × (locked ev.id ≡ false)

abbrev pub IsNotOlder : ℕ → List Outbox → Type 0
IsNotOlder t [] = Unit
IsNotOlder t (x ∷ xs) = t ≤ x.created_at

-- The oldest first.
abbrev pub IsOrdered : List Outbox → Type 0
IsOrdered [] = Unit
IsOrdered (x ∷ xs) = IsNotOlder x.created_at xs × IsOrdered xs

pub selected-IsFree :
    (locked : Uuid → Bool) (evs : List Outbox) → All (IsFree locked) (selected locked evs)
unfolding selected
selected-IsFree locked [] = tt
selected-IsFree locked (ev ∷ evs) = elim (Bool-cases (is_unpublished ev && not (locked ev.id))) [
  | inl free ↦ rw free ((ground arith, ground arith), selected-IsFree locked evs)
  | inr taken ↦ rw taken (selected-IsFree locked evs)
]

module _ (P : Outbox → Type 0) where
  All-insert_event : (ev : Outbox) (xs : List Outbox) → P ev → All P xs → All P (insert_event ev xs)
  unfolding insert_event
  All-insert_event ev [] p h = (p, tt)
  All-insert_event ev (x ∷ xs) p h = elim (Bool-cases (ltb x.created_at ev.created_at)) [
    | inl older ↦ rw older (h.0, All-insert_event ev xs p h.1)
    | inr newer ↦ rw newer (p, h)
  ]

  pub All-order_by_created_at : (xs : List Outbox) → All P xs → All P (order_by_created_at xs)
  unfolding order_by_created_at
  All-order_by_created_at [] h = tt
  All-order_by_created_at (x ∷ xs) h =
      All-insert_event x (order_by_created_at xs) h.0 (All-order_by_created_at xs h.1)

  pub All-take : (n : ℕ) (xs : List Outbox) → All P xs → All P (take n xs)
  All-take zero xs h = tt
  All-take (suc n) [] h = tt
  All-take (suc n) (x ∷ xs) h = (h.0, All-take n xs h.1)

insert_event-IsNotOlder :
    (t : ℕ) (ev : Outbox) (xs : List Outbox)
    → t ≤ ev.created_at
    → IsNotOlder t xs
    → IsNotOlder t (insert_event ev xs)
unfolding insert_event
insert_event-IsNotOlder t ev [] h k = h
insert_event-IsNotOlder t ev (x ∷ xs) h k = ground arith

insert_event-IsOrdered :
    (ev : Outbox) (xs : List Outbox) → IsOrdered xs → IsOrdered (insert_event ev xs)
unfolding insert_event
insert_event-IsOrdered ev [] h = (tt, tt)
insert_event-IsOrdered ev (x ∷ xs) h = elim (Bool-cases (ltb x.created_at ev.created_at)) [
  | inl older ↦ rw older (
    insert_event-IsNotOlder x.created_at ev xs (ground arith) h.0,
    insert_event-IsOrdered ev xs h.1,
  )
  | inr newer ↦ rw newer (ground arith, h)
]

order_by_created_at-IsOrdered : (xs : List Outbox) → IsOrdered (order_by_created_at xs)
unfolding order_by_created_at
order_by_created_at-IsOrdered [] = tt
order_by_created_at-IsOrdered (x ∷ xs) =
    insert_event-IsOrdered x (order_by_created_at xs) (order_by_created_at-IsOrdered xs)

take-IsNotOlder : (t n : ℕ) (xs : List Outbox) → IsNotOlder t xs → IsNotOlder t (take n xs)
take-IsNotOlder t zero xs h = tt
take-IsNotOlder t (suc n) [] h = tt
take-IsNotOlder t (suc n) (x ∷ xs) h = h

take-IsOrdered : (n : ℕ) (xs : List Outbox) → IsOrdered xs → IsOrdered (take n xs)
take-IsOrdered zero xs h = tt
take-IsOrdered (suc n) [] h = tt
take-IsOrdered (suc n) (x ∷ xs) h = (take-IsNotOlder x.created_at n xs h.0, take-IsOrdered n xs h.1)

length-take : (n : ℕ) (xs : List Outbox) → length (take n xs) ≤ n
length-take zero xs = omega arith
length-take (suc n) [] = omega arith
length-take (suc n) (x ∷ xs) = omega (arith, length-take n xs)

-- A batch has at most `batch_size` events, the oldest first, each of them unpublished and held by
-- no other transaction.
batch_lem :
    (locked : Uuid → Bool) (batch_size : ℕ) (evs : List Outbox)
    → (length (batch locked batch_size evs) ≤ batch_size)
      × IsOrdered (batch locked batch_size evs)
      × All (IsFree locked) (batch locked batch_size evs)
unfolding batch
batch_lem locked batch_size evs =
    let xs = order_by_created_at (selected locked evs) in
    (
      length-take batch_size xs,
      take-IsOrdered batch_size xs (order_by_created_at-IsOrdered (selected locked evs)),
      All-take (IsFree locked) batch_size xs (
          All-order_by_created_at (IsFree locked) (selected locked evs)
            (selected-IsFree locked evs)),
    )
