-- ===== src/Ledger/Completion.antt =====
-- The posts of concurrent transactions come to their end, and never share a lock: the loop of `LedgerService.post` that
-- locks the balance rows, and the commits that free them (app/application/ledger_service.py).
use apex_payments_engine.Prelude.{
  ℕ, refl, Bool-cases, zero, suc, ◌+◌, ◌≤◌, ◌<◌, ◌≡◌, ◌≢◌, inl, inr, ap, false, true, if◌then◌else◌,
  List, [], ◌∷◌, All, length, arith,
}
use apex_payments_engine.Domain.Exceptions.{Uuid}
use apex_payments_engine.Ledger.Locks.{contains}
use apex_payments_engine.Ledger.Waiting.{
  Txn, is_locked, Move, lock, commit, other, Abort, abort, other_abort, Reach, idle, begin, move,
  fail, Run, stay, then_on, work,
}
use apex_payments_engine.Ledger.Deadlock.{IsEnded, post_deadlock_free}

length_pos : (ids : List Uuid) → ids ≢ [] → 1 ≤ length ids
length_pos [] h = absurd (h refl)
length_pos (a ∷ ids) h = omega arith

work_lem : {all ts us : List Txn} → Move all ts us → 1 + work us ≤ work ts
work_lem (lock t a ids ts e free) = omega (arith, ap length e)
work_lem (commit t ts e some_held) = omega (arith, length_pos t.held some_held)
work_lem (other t m) = omega (arith, work_lem m)

Run-work : {n : ℕ} {ts us : List Txn} → Run n ts us → n + work us ≤ work ts
Run-work stay = omega arith
Run-work (then_on m r) = omega (arith, work_lem m, Run-work r)

lt_zero : (n : ℕ) → ¬ (n < 0)
lt_zero n h = omega arith

IsEnding : List Txn → Type 0
IsEnding ts = (n : ℕ) × (us : List Txn) × Run n ts us × All IsEnded us

runs_on : (k : ℕ) (ts : List Txn) → work ts < k → Reach ts → IsEnding ts
unfolding IsEnding
runs_on zero ts enough r = absurd (lt_zero (work ts) enough)
runs_on (suc k) ts enough r = elim (post_deadlock_free r) [
  | inl done ↦ (0, ts, stay, done)
  | inr (us, m) ↦
      let (n, vs, run, done) = runs_on k us (omega (arith, work_lem m)) (move r m) in
      (1 + n, vs, then_on m run, done)
]

Run-Reach : {n : ℕ} {ts us : List Txn} → Reach ts → Run n ts us → Reach us
Run-Reach r stay = r
Run-Reach r (then_on m run) = Run-Reach (move r m) run

-- However concurrent posts go on from a state that they have come to, the number of moves is at most
-- the work that was left, two for each row wanted and one for each held; and from where they are
-- then, there are moves after which all have ended.
pub posts_complete :
    {n : ℕ} {ts us : List Txn}
    → Reach ts
    → Run n ts us
    → (n ≤ work ts) × ((m : ℕ) × (vs : List Txn) × Run m us vs × All IsEnded vs)
unfolding IsEnding
posts_complete {ts} {us} r run =
    (omega (arith, Run-work run), runs_on (suc (work us)) us (omega arith) (Run-Reach r run))

-- The number of transactions that hold the row.
abbrev pub holders : Uuid → List Txn → ℕ
holders a [] = 0
holders a (t ∷ ts) = (if contains a t.held then 1 else 0) + holders a ts

holders_none : (a : Uuid) (ts : List Txn) → is_locked a ts ≡ false → holders a ts ≡ 0
holders_none a [] h = refl
holders_none a (t ∷ ts) h = ground (arith, holders_none a ts)

-- A row that is locked gets no further holder, and a move adds at most one.
kept :
    {all ts us : List Txn} (b : Uuid)
    → is_locked b all ≡ true
    → Move all ts us
    → holders b us ≤ holders b ts
kept b held (lock t a ids ts e free) = ground (arith, e)
kept b held (commit t ts e some_held) = ground arith
kept b held (other t m) = omega (arith, kept b held m)

grows : {all ts us : List Txn} (b : Uuid) → Move all ts us → holders b us ≤ 1 + holders b ts
grows b (lock t a ids ts e free) = ground arith
grows b (commit t ts e some_held) = ground arith
grows b (other t m) = omega (arith, grows b m)

freed : {ts us : List Txn} (b : Uuid) → Abort ts us → holders b us ≤ holders b ts
freed b (abort t ts) = ground arith
freed b (other_abort t m) = omega (arith, freed b m)

-- No row lock is ever held by two transactions.
post-IsExclusive : {ts : List Txn} (b : Uuid) → Reach ts → holders b ts ≤ 1
post-IsExclusive b idle = omega arith
post-IsExclusive b (begin ps r) = omega (arith, post-IsExclusive b r)
post-IsExclusive b (move {ts} r m) = elim (Bool-cases (is_locked b ts)) [
  | inl held ↦ omega (arith, kept b held m, post-IsExclusive b r)
  | inr free ↦ omega (arith, grows b m, holders_none b ts free)
]
post-IsExclusive b (fail r m) = omega (arith, freed b m, post-IsExclusive b r)
