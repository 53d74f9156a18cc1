-- ===== src/Ledger/Deadlock.antt =====
-- The posts of concurrent transactions never wait for each other in a circle: the theorems about
-- the row locks of `LedgerService.post` (app/application/ledger_service.py).
use apex_payments_engine.Prelude.{
  ℕ, zero, suc, ◌+◌, ◌≤◌, ◌<◌, ◌≡◌, ◌≢◌, ◌⊎◌, inl, inr, refl, subst, false, true, Bool, List, [],
  ◌∷◌, ◌||◌, All, arith, Bool-cases,
}
use apex_payments_engine.Domain.Exceptions.{Uuid}
use apex_payments_engine.Ledger.Locks.{contains, IsBelow}
use apex_payments_engine.Ledger.Waiting.{Txn, ended, is_locked, Move, lock, commit, other, Reach}
use apex_payments_engine.Ledger.Ordered.{IsOrdered, Reach-IsOrdered}

abbrev pub IsEnded : Txn → Type 0
IsEnded t = (t.held ≡ []) × (t.wants ≡ [])

-- A transaction that cannot move: it has ended, or another one holds the next row.
abbrev IsStuck : List Txn → Txn → Type 0
IsStuck all t =
    IsEnded t ⊎ ((a : Uuid) × (ids : List Uuid) × (t.wants ≡ a ∷ ids) × (is_locked a all ≡ true))

List-cases : (xs : List Uuid) → (xs ≡ []) ⊎ ((a : Uuid) × (ys : List Uuid) × (xs ≡ a ∷ ys))
List-cases [] = inl refl
List-cases (a ∷ ys) = inr (a, ys, refl)

cons_neq : (a : Uuid) (xs ys : List Uuid) → xs ≡ a ∷ ys → xs ≢ []
cons_neq a xs ys e h = cc

wants_none :
    (all : List Txn) (t : Txn) (ts : List Txn)
    → t.wants ≡ []
    → IsStuck all t ⊎ ((us : List Txn) × Move all (t ∷ ts) us)
wants_none all t ts none_left = elim (List-cases t.held) [
  | inl free ↦ inl (inl (free, none_left))
  | inr (h, hs, e) ↦ inr (ended ∷ ts, commit t ts none_left (cons_neq h t.held hs e))
]

wants_some :
    (all : List Txn) (t : Txn) (ts : List Txn) (a : Uuid) (ids : List Uuid)
    → t.wants ≡ a ∷ ids
    → IsStuck all t ⊎ ((us : List Txn) × Move all (t ∷ ts) us)
wants_some all t ts a ids e = elim (Bool-cases (is_locked a all)) [
  | inl locked ↦ inl (inr (a, ids, e, locked))
  | inr free ↦ inr (record { held = a ∷ t.held; wants = ids } ∷ ts, lock t a ids ts e free)
]

txn_moves :
    (all : List Txn) (t : Txn) (ts : List Txn)
    → IsStuck all t ⊎ ((us : List Txn) × Move all (t ∷ ts) us)
txn_moves all t ts = elim (List-cases t.wants) [
  | inl e ↦ wants_none all t ts e
  | inr (a, ids, e) ↦ wants_some all t ts a ids e
]

some_move : (all ts : List Txn) → All (IsStuck all) ts ⊎ ((us : List Txn) × Move all ts us)
some_move all [] = inl tt
some_move all (t ∷ ts) = elim (txn_moves all t ts) [
  | inr m ↦ inr m
  | inl stuck ↦ elim (some_move all ts) [
    | inl rest ↦ inl (stuck, rest)
    | inr (us, m) ↦ inr (t ∷ us, other t m)
  ]
]

clash : false ≢ true
clash h = cc

or_true : (x y : Bool) → x || y ≡ true → (x ≡ true) ⊎ (y ≡ true)
or_true true y h = inl refl
or_true false y h = inr h

-- A bound on the locked rows.
total : List Uuid → ℕ
total [] = 0
total (a ∷ ids) = a + total ids

total_held : List Txn → ℕ
total_held [] = 0
total_held (t ∷ ts) = total t.held + total_held ts

contains_le : (a : Uuid) (ids : List Uuid) → contains a ids ≡ true → a ≤ total ids
unfolding total
contains_le a [] h = cc
contains_le a (b ∷ ids) h = ground (arith, contains_le a ids)

locked_le : (a : Uuid) (ts : List Txn) → is_locked a ts ≡ true → a ≤ total_held ts
unfolding total_held
locked_le a [] h = cc
locked_le a (t ∷ ts) h = ground (arith, contains_le a t.held, locked_le a ts)

held_below :
    (a b : Uuid) (ids hs : List Uuid)
    → contains a hs ≡ true
    → All (λ h. IsBelow h (b ∷ ids)) hs
    → a < b
held_below a b ids [] h k = cc
held_below a b ids (c ∷ hs) h k = ground (arith, k.0.0, held_below a b ids hs, k.1)

-- What the holder of a row waits for, when it is stuck.
IsAwaited : List Txn → Uuid → Type 0
IsAwaited all a = (b : Uuid) × (a < b) × (is_locked b all ≡ true)

waits_above :
    (all : List Txn) (t : Txn) (a : Uuid)
    → IsStuck all t
    → IsOrdered t
    → contains a t.held ≡ true
    → IsAwaited all a
unfolding IsAwaited
waits_above all t a (inl done) ordered mine =
    absurd (clash (subst (λ hs. contains a hs ≡ true) done.0 mine))
waits_above all t a (inr (b, ids, e, locked)) ordered mine =
    let k = subst (λ ws. All (λ x. IsBelow x ws) t.held) e ordered.1 in
    (b, held_below a b ids t.held mine k, locked)

holder_waits :
    (all ts : List Txn) (a : Uuid)
    → All (IsStuck all) ts
    → All IsOrdered ts
    → is_locked a ts ≡ true
    → IsAwaited all a
holder_waits all [] a stuck ordered locked = absurd (clash locked)
holder_waits all (t ∷ ts) a stuck ordered locked =
    elim (or_true (contains a t.held) (is_locked a ts) locked) [
      | inl mine ↦ waits_above all t a stuck.0 ordered.0 mine
      | inr theirs ↦ holder_waits all ts a stuck.1 ordered.1 theirs
    ]

-- From holder to holder the awaited rows go up, and some row is the highest.
chase :
    (n : ℕ) (ts : List Txn) (a : Uuid)
    → All (IsStuck ts) ts
    → All IsOrdered ts
    → total_held ts < a + n
    → is_locked a ts ≢ true
unfolding IsAwaited
chase zero ts a stuck ordered enough locked = omega (arith, locked_le a ts locked)
chase (suc n) ts a stuck ordered enough locked =
    let (b, up, held) = holder_waits ts ts a stuck ordered locked in
    chase n ts b stuck ordered (omega arith) held

none_awaited :
    (all ts : List Txn)
    → All (IsStuck all) all
    → All IsOrdered all
    → All (IsStuck all) ts
    → All IsEnded ts
none_awaited all [] every ordered stuck = tt
none_awaited all (t ∷ ts) every ordered (inl done, stuck) =
    (done, none_awaited all ts every ordered stuck)
none_awaited all (t ∷ ts) every ordered (inr (a, ids, e, locked), stuck) =
    absurd (chase (suc (total_held all)) all a every ordered (omega arith) locked)

-- In whatever order transactions begin, lock the rows of their postings, commit and fail, one that
-- has not ended never waits in vain: unless all have ended, some transaction can lock its next row
-- or commit.
pub post_deadlock_free :
    {ts : List Txn} → Reach ts → All IsEnded ts ⊎ ((us : List Txn) × Move ts ts us)
post_deadlock_free {ts} r = elim (some_move ts ts) [
  | inl stuck ↦ inl (none_awaited ts ts stuck (Reach-IsOrdered r) stuck)
  | inr m ↦ inr m
]
