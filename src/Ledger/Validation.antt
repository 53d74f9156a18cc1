-- ===== src/Ledger/Validation.antt =====
-- `LedgerService.validate_balanced` against the definition of a balanced set of postings.
use apex_payments_engine.Prelude.{
  ◌≤◌, ◌≡◌, ◌≢◌, ◌↔◌, inl, inr, sym, ap, ◌∙◌, List, [], ◌∷◌, arith, length, All, Bool-cases,
}
use apex_payments_engine.Prelude.Int.{
  ℤ, pos, pos_part, neg_part, ◌+ℤ◌, ◌-ℤ◌, ◌<ℤ◌, leb_ℤ, eq_ℤ, int_laws,
}
use apex_payments_engine.Domain.Enums.{Direction, debit, credit}
use apex_payments_engine.Domain.Exceptions.{domain, ledger_imbalance}
use apex_payments_engine.Session.{Result, ok, err}
use apex_payments_engine.Ledger.{Posting, add_signed, net_from, check_net, validate_balanced}

-- The part of an amount that a posting in the direction `dir` adds to the debits, or the credits.
abbrev pub debited : Direction → ℤ → ℤ
debited debit amount = amount
debited credit amount = pos 0

abbrev pub credited : Direction → ℤ → ℤ
credited debit amount = pos 0
credited credit amount = amount

abbrev pub debits : List Posting → ℤ
debits [] = pos 0
debits (p ∷ ps) = debited p.direction p.amount +ℤ debits ps

abbrev pub credits : List Posting → ℤ
credits [] = pos 0
credits (p ∷ ps) = credited p.direction p.amount +ℤ credits ps

abbrev pub IsPositive : Posting → Type 0
IsPositive p = pos 0 <ℤ p.amount

ok-injective : {A : Type 0} {a b : A} → ok a ≡ ok b → a ≡ b
ok-injective h = ground arith

-- The double-entry rule.
pub record IsBalanced (ps : List Posting) : Type 0 where
  pub at_least_two : 2 ≤ length ps
  pub positive : All IsPositive ps
  pub equal_sums : debits ps ≡ credits ps

add_signed_lem :
    (dir : Direction) (net amount : ℤ)
    → add_signed dir net amount ≡ net +ℤ debited dir amount -ℤ credited dir amount
add_signed_lem debit net amount = omega int_laws
add_signed_lem credit net amount = omega int_laws

-- Over positive amounts the loop returns the debits less the credits.
net_from-positive :
    (net : ℤ) (ps : List Posting)
    → All IsPositive ps
    → net_from net ps ≡ ok (net +ℤ debits ps -ℤ credits ps)
unfolding net_from
net_from-positive net [] h = ap ok (omega int_laws)
net_from-positive net (p ∷ ps) h = elim (Bool-cases (leb_ℤ p.amount (pos 0))) [
  | inl bad ↦ absurd (ground arith)
  | inr good ↦ rw good (
      rw (net_from-positive (add_signed p.direction net p.amount) ps h.1)
        (ap ok (rw (add_signed_lem p.direction net p.amount) (omega int_laws))))
]

-- The loop returns only where every amount is positive.
IsPositive-of_net_from :
    (net n : ℤ) (ps : List Posting) → net_from net ps ≡ ok n → All IsPositive ps
unfolding net_from
IsPositive-of_net_from net n [] h = tt
IsPositive-of_net_from net n (p ∷ ps) h =
    ground (arith, IsPositive-of_net_from (add_signed p.direction net p.amount) n ps)

check_net-eq-ok : (r : Result ℤ) → check_net r ≡ ok tt → r ≡ ok (pos 0)
unfolding check_net
check_net-eq-ok (ok n) h = ground arith
check_net-eq-ok (err e) h = ground arith

validate_balanced_long :
    (p q : Posting) (ps : List Posting)
    → validate_balanced (p ∷ q ∷ ps) ≡ check_net (net_from (pos 0) (p ∷ q ∷ ps))
unfolding validate_balanced
validate_balanced_long p q ps = ground arith

-- Over positive amounts the check compares the sums and reports their difference.
validate_balanced_positive :
    (p q : Posting) (ps : List Posting)
    → All IsPositive (p ∷ q ∷ ps)
    → let all : List Posting = p ∷ q ∷ ps in
      validate_balanced all ≡ check_net (ok (pos 0 +ℤ debits all -ℤ credits all))
validate_balanced_positive p q ps h =
    validate_balanced_long p q ps ∙ ap check_net (net_from-positive (pos 0) (p ∷ q ∷ ps) h)

eq_sums : (a b : ℤ) → pos 0 +ℤ a -ℤ b ≡ pos 0 → a ≡ b
eq_sums a b h = omega (int_laws, ap pos_part h, ap neg_part h)

check_net-zero : (a b : ℤ) → a ≡ b → check_net (ok (pos 0 +ℤ a -ℤ b)) ≡ ok tt
unfolding check_net
check_net-zero a b h = let e : pos 0 +ℤ a -ℤ b ≡ pos 0 = rw h (omega int_laws) in rw e

check_net-nonzero : (n : ℤ) → n ≢ pos 0 → check_net (ok n) ≡ err (domain (ledger_imbalance n))
unfolding check_net
check_net-nonzero n ne = elim (Bool-cases (eq_ℤ n (pos 0))) [
  | inl same ↦ absurd (ne (ground arith))
  | inr differs ↦ rw differs
]

pub IsBalanced-of_ok : (ps : List Posting) → validate_balanced ps ≡ ok tt → IsBalanced ps
unfolding validate_balanced
IsBalanced-of_ok [] h = ground arith
IsBalanced-of_ok (p ∷ []) h = ground arith
IsBalanced-of_ok (p ∷ q ∷ ps) h =
    let all : List Posting = p ∷ q ∷ ps in
    let e = check_net-eq-ok (net_from (pos 0) all) (sym (validate_balanced_long p q ps) ∙ h) in
    let positive = IsPositive-of_net_from (pos 0) (pos 0) all e in
    record {
      at_least_two = omega arith;
      positive = positive;
      equal_sums =
          eq_sums (debits all) (credits all)
            (ok-injective (sym (net_from-positive (pos 0) all positive) ∙ e));
    }

pub ok_of_IsBalanced : (ps : List Posting) → IsBalanced ps → validate_balanced ps ≡ ok tt
ok_of_IsBalanced [] b = absurd (omega (arith, b.at_least_two))
ok_of_IsBalanced (p ∷ []) b = absurd (omega (arith, b.at_least_two))
ok_of_IsBalanced (p ∷ q ∷ ps) b =
    validate_balanced_positive p q ps b.positive
    ∙ check_net-zero (debits (p ∷ q ∷ ps)) (credits (p ∷ q ∷ ps)) b.equal_sums

-- The check passes exactly for two or more postings, each of a positive amount, whose debits and
-- credits have equal sums.
validate_balanced_iff : (ps : List Posting) → (validate_balanced ps ≡ ok tt) ↔ IsBalanced ps
validate_balanced_iff ps = (IsBalanced-of_ok ps, ok_of_IsBalanced ps)

-- Two or more positive postings with unequal sums are refused, with the debits less the credits
-- as the reported net amount.
validate_balanced_unequal :
    (ps : List Posting)
    → 2 ≤ length ps
    → All IsPositive ps
    → debits ps ≢ credits ps
    → validate_balanced ps ≡ err (domain (ledger_imbalance (debits ps -ℤ credits ps)))
validate_balanced_unequal [] two positive ne = absurd (omega arith)
validate_balanced_unequal (p ∷ []) two positive ne = absurd (omega arith)
validate_balanced_unequal (p ∷ q ∷ ps) two positive ne =
    let a = debits (p ∷ q ∷ ps) in
    let b = credits (p ∷ q ∷ ps) in
    let e : pos 0 +ℤ a -ℤ b ≡ a -ℤ b = omega int_laws in
    validate_balanced_positive p q ps positive
    ∙ ap (λ n. check_net (ok n)) e
    ∙ check_net-nonzero (a -ℤ b) (λ z. ne (eq_sums a b (e ∙ z)))
