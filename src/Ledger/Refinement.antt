-- ===== src/Ledger/Refinement.antt =====
-- The ledger as a client sees it, a balance for each account, and `LedgerService.post` as an
-- implementation of it.
use mathlib.Core.Path.{fun_ext}
use apex_payments_engine.Prelude.{
  ◌≡◌, refl, sym, ap, ◌∙◌, subst, Bool, true, ◌&&◌, Option, none, some, List, [], ◌∷◌, length, leb,
  All, arith, ◌⊎◌, ◌==◌, if◌then◌else◌, inl, inr, Bool-cases, Option-cases,
}
use apex_payments_engine.Prelude.Int.{ℤ, pos, ◌+ℤ◌, leb_ℤ, ltb_ℤ, eq_ℤ, eq_of_parts, int_laws}
use apex_payments_engine.Domain.Enums.{Direction, debit, credit, TransactionType}
use apex_payments_engine.Domain.Exceptions.{Uuid}
use apex_payments_engine.Domain.Models.{LedgerTransaction, Database}
use apex_payments_engine.Session.{AcceptsAll, Environment, World, Result, ok, err}
use apex_payments_engine.Ledger.{Posting, post}
use apex_payments_engine.Ledger.Validation.{IsPositive, IsBalanced, debits, credits}
use apex_payments_engine.Ledger.Postings.{balance_of, Covers, shift}
use apex_payments_engine.Ledger.Balances.{movement, moved, CanApply, shift_lem}
use apex_payments_engine.Ledger.Post.{post-IsRecorded}
use apex_payments_engine.Ledger.Success.{post-returns}

abbrev pub Accounts : Type 0
Accounts = Uuid → ℤ

abbrev pub view : Database → Accounts
view d a = balance_of a d

abbrev pub is_covered : Direction → ℤ → ℤ → Bool
is_covered debit amount balance = leb_ℤ amount balance
is_covered credit amount balance = true

abbrev pub is_positive : Posting → Bool
is_positive p = ltb_ℤ (pos 0) p.amount

abbrev pub all_positive : List Posting → Bool
all_positive [] = true
all_positive (p ∷ ps) = is_positive p && all_positive ps

abbrev pub is_balanced : List Posting → Bool
is_balanced ps = leb 2 (length ps) && all_positive ps && eq_ℤ (debits ps) (credits ps)

-- The balances with one posting booked, and with a list of them in their order.
abbrev pub book_posting : Posting → Accounts → Accounts
book_posting p b a = if p.account_id == a then shift p.direction p.amount (b a) else b a

pub book : List Posting → Accounts → Option Accounts
book [] b = some b
book (p ∷ ps) b =
    let rest = book ps (book_posting p b) in
    if is_covered p.direction p.amount (b p.account_id) then rest else none

-- What a client is promised.
abbrev pub post_spec : List Posting → Accounts → Option Accounts
post_spec ps b = if is_balanced ps then book ps b else none

-- What a client sees of a call.
abbrev pub observed : Result LedgerTransaction × World → Option Accounts
observed (ok txn, w) = some (view w.db)
observed (err e, w) = none

covered_iff :
    (dir : Direction) (amount balance : ℤ)
    → ((is_covered dir amount balance ≡ true) → Covers dir amount balance)
      × (Covers dir amount balance → is_covered dir amount balance ≡ true)
covered_iff debit amount balance = (λ h. ground arith, λ h. ground arith)
covered_iff credit amount balance = (λ h. tt, λ h. refl)

all_positive_iff :
    (ps : List Posting)
    → ((all_positive ps ≡ true) → All IsPositive ps) × (All IsPositive ps → all_positive ps ≡ true)
all_positive_iff [] = (λ h. tt, λ h. refl)
all_positive_iff (p ∷ ps) =
    let r = all_positive_iff ps in
    (λ h. (ground arith, r.0 (ground arith)), λ h. ground (arith, h.0, r.1 h.1))

is_balanced_iff :
    (ps : List Posting)
    → ((is_balanced ps ≡ true) → IsBalanced ps) × (IsBalanced ps → is_balanced ps ≡ true)
is_balanced_iff ps = (
  λ h. record {
    at_least_two = ground arith;
    positive = (all_positive_iff ps).0 (ground arith);
    equal_sums = eq_of_parts (debits ps) (credits ps) (ground arith);
  },
  λ h. rw ((all_positive_iff ps).1 h.positive, h.equal_sums) (ground (arith, h.at_least_two)),
)

book_posting_lem :
    (p : Posting) (b : Accounts)
    → book_posting p b
      ≡ (λ a. b a +ℤ (if p.account_id == a then moved p.direction p.amount else pos 0))
book_posting_lem p b = fun_ext λ a. elim (Bool-cases (p.account_id == a)) [
  | inl here ↦ rw here (shift_lem p.direction p.amount (b a))
  | inr there ↦ rw there (omega int_laws)
]

-- Booking succeeds exactly where each debit is covered at its turn, and moves each account by its
-- postings.
book-CanApply : (ps : List Posting) (b c : Accounts) → book ps b ≡ some c → CanApply b ps
unfolding book
book-CanApply [] b c h = tt
book-CanApply (p ∷ ps) b c h =
    elim (Bool-cases (is_covered p.direction p.amount (b p.account_id))) [
      | inl covered ↦ (
        (covered_iff p.direction p.amount (b p.account_id)).0 covered,
        subst (λ f. CanApply f ps) (book_posting_lem p b)
            (book-CanApply ps (book_posting p b) c (rw covered at h)),
      )
      | inr short ↦ absurd (ground arith)
    ]

book_lem :
    (ps : List Posting) (b : Accounts)
    → CanApply b ps
    → book ps b ≡ some (λ a. b a +ℤ movement a ps)
unfolding book
book_lem [] b h = ap some (fun_ext λ a. omega int_laws)
book_lem (p ∷ ps) b h =
    let step = book_posting_lem p b in
    rw ((covered_iff p.direction p.amount (b p.account_id)).1 h.0, step)
      (book_lem ps (λ a. b a +ℤ (if p.account_id == a then moved p.direction p.amount else pos 0))
          h.1
        ∙ ap some (fun_ext λ a. omega int_laws))

post_spec_lem :
    (ps : List Posting) (b : Accounts)
    → IsBalanced ps
    → CanApply b ps
    → post_spec ps b ≡ some (λ a. b a +ℤ movement a ps)
post_spec_lem ps b balanced can = rw ((is_balanced_iff ps).1 balanced) (book_lem ps b can)

-- Where the specification gives balances, the postings are balanced and can be booked.
post_spec-eq-some :
    (ps : List Posting) (b c : Accounts) → post_spec ps b ≡ some c → IsBalanced ps × CanApply b ps
post_spec-eq-some ps b c h = elim (Bool-cases (is_balanced ps)) [
  | inl balanced ↦ ((is_balanced_iff ps).0 balanced, book-CanApply ps b c (rw balanced at h))
  | inr other ↦ absurd (ground arith)
]

observed_cases :
    (o : Result LedgerTransaction × World)
    → (observed o ≡ none) ⊎ ((txn : LedgerTransaction) × (w : World) × (o ≡ (ok txn, w)))
observed_cases (ok txn, w) = inr (txn, w, refl)
observed_cases (err e, w) = inl refl

module _ (env : Environment) (kind : TransactionType) (ref : Uuid) (ps : List Posting)
    (w : World) where
  -- A call that returns shows what the specification gives.
  observed_of_ok :
      (txn : LedgerTransaction) (w' : World)
      → post env kind ref ps w ≡ (ok txn, w')
      → observed (post env kind ref ps w) ≡ post_spec ps (view w.db)
  observed_of_ok txn w' h =
      let r = post-IsRecorded env kind ref ps w w' txn h in
      ap observed h
      ∙ ap some (fun_ext λ a. r.balances a)
      ∙ sym (post_spec_lem ps (view w.db) r.balanced r.can)

  -- If the database takes every write, a client of `post` sees what the abstract ledger promises:
  -- the balances in which the postings are booked one after the other, or a refusal where the
  -- postings are not balanced or a debit is not covered at its turn.
  pub post_refines : AcceptsAll env → observed (post env kind ref ps w) ≡ post_spec ps (view w.db)
  post_refines accepts = elim (Option-cases (post_spec ps (view w.db))) [
    | inr (c, booked) ↦
        let (balanced, can) = post_spec-eq-some ps (view w.db) c booked in
        let (txn, w', h) = post-returns env accepts kind ref ps w balanced can in
        observed_of_ok txn w' h
    | inl refused ↦ elim (observed_cases (post env kind ref ps w)) [
      | inl raised ↦ raised ∙ sym refused
      | inr (txn, w', h) ↦ observed_of_ok txn w' h
    ]
  ]
