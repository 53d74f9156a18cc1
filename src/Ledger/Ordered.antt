-- ===== src/Ledger/Ordered.antt =====
-- Concurrent posts lock rows in one order: what holds of every transaction that runs the loop of
-- `LedgerService.post` (app/application/ledger_service.py).
use apex_payments_engine.Prelude.{◌≡◌, subst, List, [], ◌∷◌, All}
use apex_payments_engine.Domain.Exceptions.{Uuid}
use apex_payments_engine.Ledger.Locks.{IsBelow, IsIncreasing, sorted_account_ids-IsIncreasing}
use apex_payments_engine.Ledger.Waiting.{
  Txn, Move, lock, commit, other, Abort, abort, other_abort, Reach, idle, begin, move, fail,
}

-- Every row that the transaction still wants comes after all it holds, and they increase.
abbrev pub IsOrdered : Txn → Type 0
IsOrdered t = IsIncreasing t.wants × All (λ a. IsBelow a t.wants) t.held

All-IsBelow :
    (a : Uuid) (ids hs : List Uuid)
    → All (λ h. IsBelow h (a ∷ ids)) hs
    → All (λ h. IsBelow h ids) hs
All-IsBelow a ids [] k = tt
All-IsBelow a ids (h ∷ hs) k = (k.0.1, All-IsBelow a ids hs k.1)

lock-IsOrdered :
    (t : Txn) (a : Uuid) (ids : List Uuid)
    → t.wants ≡ a ∷ ids
    → IsOrdered t
    → IsOrdered (record { held = a ∷ t.held; wants = ids })
lock-IsOrdered t a ids e h =
    let k = subst (λ ws. IsIncreasing ws × All (λ x. IsBelow x ws) t.held) e h in
    (k.0.1, (k.0.0, All-IsBelow a ids t.held k.1))

Move-IsOrdered : {all ts us : List Txn} → Move all ts us → All IsOrdered ts → All IsOrdered us
Move-IsOrdered (lock t a ids ts e free) h = (lock-IsOrdered t a ids e h.0, h.1)
Move-IsOrdered (commit t ts e some_held) h = ((tt, tt), h.1)
Move-IsOrdered (other t m) h = (h.0, Move-IsOrdered m h.1)

Abort-IsOrdered : {ts us : List Txn} → Abort ts us → All IsOrdered ts → All IsOrdered us
Abort-IsOrdered (abort t ts) h = ((tt, tt), h.1)
Abort-IsOrdered (other_abort t m) h = (h.0, Abort-IsOrdered m h.1)

pub Reach-IsOrdered : {ts : List Txn} → Reach ts → All IsOrdered ts
Reach-IsOrdered idle = tt
Reach-IsOrdered (begin ps r) = ((sorted_account_ids-IsIncreasing ps, tt), Reach-IsOrdered r)
Reach-IsOrdered (move r m) = Move-IsOrdered m (Reach-IsOrdered r)
Reach-IsOrdered (fail r m) = Abort-IsOrdered m (Reach-IsOrdered r)
