-- ===== src/Ledger/Applied.antt =====
-- The loop over the postings: what it has done when it returns.
use apex_payments_engine.Prelude.{◌≡◌, refl, sym, ap, subst, ◌∙◌, List, [], ◌∷◌, ◌++◌, All}
use mathlib.Core.Path.{fun_ext}
use mathlib.Core.List.{append-nil, append_assoc}
use apex_payments_engine.Prelude.Int.{ℤ, pos, ◌+ℤ◌, ◌-ℤ◌, ◌≤ℤ◌, ◌<ℤ◌, int_laws}
use apex_payments_engine.Domain.Enums.{Direction, debit, credit}
use apex_payments_engine.Domain.Exceptions.{Uuid}
use apex_payments_engine.Domain.Models.{AccountBalance, LedgerEntry, Database}
use apex_payments_engine.Session.{Environment, World, ok}
use apex_payments_engine.Session.Ensures.{>>=-eq-ok, pure-eq-ok}
use apex_payments_engine.Ledger.{
  Posting, touch, add_entry, set_balance_row, apply_posting, apply_postings,
}
use apex_payments_engine.Ledger.Validation.{IsPositive, debits, credits}
use apex_payments_engine.Ledger.Postings.{
  IsPosted, apply_posting-IsPosted, balance_of, Covers, shift_row, entry_at,
}
use apex_payments_engine.Ledger.Balances.{
  moved, movement, total, NoOverdraft, IsShifted, set_balance_row-IsShifted, find-NoOverdraft,
  CanApply,
}

-- The entry `x` is the journal's record of the posting `p`.
pub record IsEntryOf (txn_id : Uuid) (p : Posting) (x : LedgerEntry) : Type 0 where
  pub transaction_id : x.transaction_id ≡ txn_id
  pub account_id : x.account_id ≡ p.account_id
  pub direction : x.direction ≡ p.direction
  pub amount : x.amount ≡ p.amount

-- The entries record the postings, one each and in their order.
abbrev pub Records : Uuid → List Posting → List LedgerEntry → Type 0
Records txn_id [] [] = Unit
Records txn_id [] (x ∷ xs) = ⊥
Records txn_id (p ∷ ps) [] = ⊥
Records txn_id (p ∷ ps) (x ∷ xs) = IsEntryOf txn_id p x × Records txn_id ps xs

pub record IsApplied (txn_id : Uuid) (ps : List Posting) (d e : Database) : Type 0 where
  pub new : List LedgerEntry
  pub entries : e.entries ≡ d.entries ++ new
  pub recorded : Records txn_id ps new
  pub transactions : e.transactions ≡ d.transactions
  pub balances : (b : Uuid) → balance_of b e ≡ balance_of b d +ℤ movement b ps
  pub total_lem : total e ≡ total d +ℤ (credits ps -ℤ debits ps)
  pub no_overdraft : NoOverdraft d → NoOverdraft e
  pub can : CanApply (λ a. balance_of a d) ps

-- A shift and the touch after it are one shift.
IsShifted-touch :
    (k : Uuid) (x : ℤ) (c d e : Database)
    → IsShifted k x c d
    → IsShifted k (pos 0) d e
    → IsShifted k x c e
IsShifted-touch k x c d e s t = record {
  row = t.row;
  found = t.found;
  balances = λ b. t.balances b ∙ rw (s.balances b) (grind int_laws);
  total_lem = t.total_lem ∙ rw s.total_lem (omega int_laws);
  no_overdraft =
      λ enough h. t.no_overdraft (rw (s.balances k) (grind int_laws)) (s.no_overdraft enough h);
}

pub shift_row-account_id :
    (dir : Direction) (amount : ℤ) (r : AccountBalance)
    → (shift_row dir amount r).account_id ≡ r.account_id
shift_row-account_id debit amount r = refl
shift_row-account_id credit amount r = refl

balance-shift_row :
    (dir : Direction) (amount : ℤ) (r : AccountBalance)
    → (shift_row dir amount r).balance ≡ r.balance +ℤ moved dir amount
balance-shift_row debit amount r = omega int_laws
balance-shift_row credit amount r = omega int_laws

-- A posting that went through moved the balance of its account by its amount.
pub IsPosted-IsShifted :
    (txn_id : Uuid) (p : Posting) (d e : Database)
    → IsPosted txn_id p d e
    → IsShifted p.account_id (moved p.direction p.amount) d e
IsPosted-IsShifted txn_id p d e h =
    let k = p.account_id in
    let c = add_entry (entry_at h.n txn_id p h.t) d in
    let m = set_balance_row k (shift_row p.direction p.amount) c in
    let first =
      set_balance_row-IsShifted k (shift_row p.direction p.amount) h.row c
        (moved p.direction p.amount) h.found (λ r. shift_row-account_id p.direction p.amount r)
        (λ r. balance-shift_row p.direction p.amount r) in
    let second =
      set_balance_row-IsShifted k (touch h.t') first.row m (pos 0) first.found (λ r. refl)
        (λ r. omega int_laws) in
    let x = moved p.direction p.amount in
    let both = IsShifted-touch k x c m (set_balance_row k (touch h.t') m) first second in
    subst (IsShifted k x d) (sym h.after) (record {
      row = both.row;
      found = both.found;
      balances = both.balances;
      total_lem = both.total_lem;
      no_overdraft = both.no_overdraft;
    })

enough_of_covers :
    (dir : Direction) (amount b : ℤ)
    → pos 0 <ℤ amount
    → Covers dir amount b
    → pos 0 ≤ℤ b
    → pos 0 ≤ℤ b +ℤ moved dir amount
enough_of_covers debit amount b positive c h = omega int_laws
enough_of_covers credit amount b positive c h = omega int_laws

-- A posting that went through is the loop over it alone.
IsPosted-IsApplied :
    (txn_id : Uuid) (p : Posting) (d e : Database)
    → IsPositive p
    → IsPosted txn_id p d e
    → IsApplied txn_id (p ∷ []) d e
IsPosted-IsApplied txn_id p d e positive h =
    let s = IsPosted-IsShifted txn_id p d e h in
    record {
      new = entry_at h.n txn_id p h.t ∷ [];
      entries = ap (λ (c : Database). c.entries) h.after;
      recorded = (
        record { transaction_id = refl; account_id = refl; direction = refl; amount = refl },
        tt,
      );
      transactions = ap (λ (c : Database). c.transactions) h.after;
      balances = λ b. s.balances b ∙ grind int_laws;
      total_lem = s.total_lem ∙ omega int_laws;
      no_overdraft = λ all.
          s.no_overdraft
            (rw h.found (
              enough_of_covers p.direction p.amount h.row.balance positive h.covered
                (find-NoOverdraft p.account_id h.row d.balances all h.found)))
            all;
      can = (rw h.found h.covered, tt);
    }

Records-append :
    (txn_id : Uuid) (ps qs : List Posting) (xs ys : List LedgerEntry)
    → Records txn_id ps xs
    → Records txn_id qs ys
    → Records txn_id (ps ++ qs) (xs ++ ys)
Records-append txn_id [] qs [] ys h k = k
Records-append txn_id [] qs (x ∷ xs) ys h k = absurd h
Records-append txn_id (p ∷ ps) qs [] ys h k = absurd h
Records-append txn_id (p ∷ ps) qs (x ∷ xs) ys h k = (h.0, Records-append txn_id ps qs xs ys h.1 k)

IsApplied-nil : (txn_id : Uuid) (d : Database) → IsApplied txn_id [] d d
IsApplied-nil txn_id d = record {
  new = [];
  entries = sym (append-nil d.entries);
  recorded = tt;
  transactions = refl;
  balances = λ b. omega int_laws;
  total_lem = omega int_laws;
  no_overdraft = λ h. h;
  can = tt;
}

IsApplied-cons :
    (txn_id : Uuid) (p : Posting) (ps : List Posting) (c d e : Database)
    → IsApplied txn_id (p ∷ []) c d
    → IsApplied txn_id ps d e
    → IsApplied txn_id (p ∷ ps) c e
IsApplied-cons txn_id p ps c d e h k = record {
  new = h.new ++ k.new;
  entries = k.entries ∙ rw h.entries (append_assoc c.entries h.new k.new);
  recorded = Records-append txn_id (p ∷ []) ps h.new k.new h.recorded k.recorded;
  transactions = k.transactions ∙ h.transactions;
  balances = λ b. k.balances b ∙ rw (h.balances b) (omega int_laws);
  total_lem = k.total_lem ∙ rw h.total_lem (omega int_laws);
  no_overdraft = λ all. k.no_overdraft (h.no_overdraft all);
  can = (h.can.0, subst (λ b. CanApply b ps) (fun_ext λ a. h.balances a ∙ omega int_laws) k.can);
}

-- When the loop returns, each posting has its entry and has moved its account.
pub apply_postings-IsApplied :
    (env : Environment) (txn_id : Uuid) (ps : List Posting) (w w' : World)
    → All IsPositive ps
    → apply_postings env txn_id ps w ≡ (ok tt, w')
    → IsApplied txn_id ps w.db w'.db
unfolding apply_postings
apply_postings-IsApplied env txn_id [] w w' positive h =
    subst (IsApplied txn_id [] w.db) (ap (λ (u : World). u.db) (pure-eq-ok tt tt w w' h).1)
      (IsApplied-nil txn_id w.db)
apply_postings-IsApplied env txn_id (p ∷ ps) w w' positive h =
    let b = >>=-eq-ok (apply_posting env txn_id p) (λ _. apply_postings env txn_id ps) w w' h in
    IsApplied-cons txn_id p ps w.db b.1.db w'.db
      (IsPosted-IsApplied txn_id p w.db b.1.db positive.0
        (apply_posting-IsPosted env txn_id p w b.1 b.2))
      (apply_postings-IsApplied env txn_id ps b.1 w' positive.1 b.3)
