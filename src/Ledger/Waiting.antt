-- ===== src/Ledger/Waiting.antt =====
-- Transactions that post at the same time and wait for each other's row locks: the loop of
-- `LedgerService.post` that selects the balance rows FOR UPDATE one after the other, and the end of
-- the transaction, which frees them (app/application/ledger_service.py,
-- app/infrastructure/database.py). A row lock is the account of its row.
use apex_payments_engine.Prelude.{ℕ, ◌+◌, ◌*◌, ◌≡◌, ◌≢◌, false, Bool, List, [], ◌∷◌, ◌||◌, length}
use apex_payments_engine.Domain.Exceptions.{Uuid}
use apex_payments_engine.Ledger.{Posting, sorted_account_ids}
use apex_payments_engine.Ledger.Locks.{contains}

-- A transaction: the rows it holds, the last one first, and those the loop has still to lock.
pub record Txn : Type 0 where
  pub held : List Uuid
  pub wants : List Uuid

-- A transaction that comes to the loop of `post`.
abbrev pub posting_txn : List Posting → Txn
posting_txn ps = record { held = []; wants = sorted_account_ids ps }

abbrev pub ended : Txn
ended = record { held = []; wants = [] }

abbrev pub is_locked : Uuid → List Txn → Bool
is_locked a [] = false
is_locked a (t ∷ ts) = contains a t.held || is_locked a ts

-- A move of one of the transactions, where `all` are those that run: it locks the next row, which
-- no transaction holds, or it has all its rows, and commits.
pub data Move (all : List Txn) : List Txn → List Txn → Type 0 where
  lock :
      (t : Txn) (a : Uuid) (ids : List Uuid) (ts : List Txn)
      → t.wants ≡ a ∷ ids
      → is_locked a all ≡ false
      → Move all (t ∷ ts) (record { held = a ∷ t.held; wants = ids } ∷ ts)
  commit : (t : Txn) (ts : List Txn) → t.wants ≡ [] → t.held ≢ [] → Move all (t ∷ ts) (ended ∷ ts)
  other : (t : Txn) {ts us : List Txn} → Move all ts us → Move all (t ∷ ts) (t ∷ us)

-- A transaction that fails, of whatever reason, and is rolled back.
pub data Abort : List Txn → List Txn → Type 0 where
  abort : (t : Txn) (ts : List Txn) → Abort (t ∷ ts) (ended ∷ ts)
  other_abort : (t : Txn) {ts us : List Txn} → Abort ts us → Abort (t ∷ ts) (t ∷ us)

-- The states that posts which begin, move and fail in any order come to.
pub data Reach : List Txn → Type 0 where
  idle : Reach []
  begin : {ts : List Txn} (ps : List Posting) → Reach ts → Reach (posting_txn ps ∷ ts)
  move : {ts us : List Txn} → Reach ts → Move ts ts us → Reach us
  fail : {ts us : List Txn} → Reach ts → Abort ts us → Reach us

-- A number of moves, one after the other.
pub data Run : ℕ → List Txn → List Txn → Type 0 where
  stay : {ts : List Txn} → Run 0 ts ts
  then_on : {n : ℕ} {ts us vs : List Txn} → Move ts ts us → Run n us vs → Run (1 + n) ts vs

-- What a transaction has still to do: each row counts until it is freed.
abbrev pub work : List Txn → ℕ
work [] = 0
work (t ∷ ts) = 2 * length t.wants + length t.held + work ts
