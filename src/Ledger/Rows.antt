-- ===== src/Ledger/Rows.antt =====
-- The balance rows that exist while `post` runs.

use native.Mathlib.Decide.{ℕ_discrete}
use apex_payments_engine.Prelude.{◌≡◌, refl, sym, ◌∙◌, subst, true, none, some, List, ◌∷◌, arith}
use apex_payments_engine.Prelude.Table.{find-append, find-modify_self, find-modify_ne}
use apex_payments_engine.Domain.Exceptions.{Uuid}
use apex_payments_engine.Domain.Models.{AccountBalance, Database}
use apex_payments_engine.Ledger.{
  Posting, touch, add_entry, balance_key, balance_row, add_balance_row, set_balance_row,
}
use apex_payments_engine.Ledger.Locks.{contains, has_posting}
use apex_payments_engine.Ledger.Postings.{shift_row, entry_at, IsPosted}
use apex_payments_engine.Ledger.Applied.{shift_row-account_id}

abbrev pub HasRow : Uuid → Database → Type 0
HasRow a d = (row : AccountBalance) × (balance_row a d ≡ some row)

abbrev pub HasRows : List Uuid → Database → Type 0
HasRows ids d = (a : Uuid) → contains a ids ≡ true → HasRow a d

-- A row that is there is there, unchanged.
abbrev pub KeepsRows : Database → Database → Type 0
KeepsRows d e =
    (a : Uuid) (row : AccountBalance) → balance_row a d ≡ some row → balance_row a e ≡ some row

pub add_balance_row-KeepsRows :
    (r : AccountBalance) (d : Database) → KeepsRows d (add_balance_row r d)
add_balance_row-KeepsRows r d a row h = find-append balance_key a r d.balances ∙ ground arith

pub find-add_balance_row :
    (r : AccountBalance) (d : Database)
    → balance_row r.account_id d ≡ none
    → balance_row r.account_id (add_balance_row r d) ≡ some r
find-add_balance_row r d h = find-append balance_key r.account_id r d.balances ∙ ground arith

pub set_balance_row-HasRow :
    (a k : Uuid) (f : AccountBalance → AccountBalance) (d : Database)
    → ((r : AccountBalance) → (f r).account_id ≡ r.account_id)
    → HasRow a d
    → HasRow a (set_balance_row k f d)
set_balance_row-HasRow a k f d same (row, h) = elim (ℕ_discrete a k) [
  | yes e ↦ (f row, rw (← e) (find-modify_self balance_key a f row d.balances same h))
  | no ne ↦ (row, find-modify_ne balance_key a k f d.balances same ne ∙ h)
]

pub IsPosted-HasRow :
    (a txn_id : Uuid) (p : Posting) (d e : Database)
    → IsPosted txn_id p d e
    → HasRow a d
    → HasRow a e
IsPosted-HasRow a txn_id p d e posted row =
    let k = p.account_id in
    let c = add_entry (entry_at posted.n txn_id p posted.t) d in
    let shifted = shift_row p.direction p.amount in
    subst (HasRow a) (sym posted.after) (
      set_balance_row-HasRow a k (touch posted.t') (set_balance_row k shifted c) (λ r. refl)
        (set_balance_row-HasRow a k shifted c (λ r. shift_row-account_id p.direction p.amount r)
          row))

pub has_posting-cons :
    (a : Uuid) (p : Posting) (ps : List Posting)
    → has_posting a ps ≡ true
    → has_posting a (p ∷ ps) ≡ true
has_posting-cons a p ps h = ground arith

pub has_posting_self : (p : Posting) (ps : List Posting) → has_posting p.account_id (p ∷ ps) ≡ true
has_posting_self p ps = ground arith

pub rows_cons :
    (a : Uuid) (ids : List Uuid) (d : Database) → HasRow a d → HasRows ids d → HasRows (a ∷ ids) d
rows_cons a ids d row rows b h = elim (ℕ_discrete b a) [
  | yes e ↦ rw e row
  | no ne ↦ rows b (ground arith)
]
