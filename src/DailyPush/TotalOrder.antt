-- ===== src/DailyPush/TotalOrder.antt =====
-- Of two files of the queue of scripts/daily_push.py one comes first: the order of strings and of the
-- keys of `sort_key` is total.
use Prim.Native.Nat.{compare as compare_ℕ, Ordering}
use Prim.Native.Char.{code}
use Prim.Native.String.{compare, then as first_of, [] as nil, ◌∷◌ as ◌▹◌}
use Prim.Native.String.compare
use apex_payments_engine.Prelude.{ℕ, ◌≡◌, refl, ap, sym, ◌∙◌, String, true, false, arith}
use apex_payments_engine.DailyPush.Order.{SortKey, preferred, named, not_gt, leb_text, leb_key}

flip : Ordering → Ordering
flip Ordering.lt = Ordering.gt
flip Ordering.eq = Ordering.eq
flip Ordering.gt = Ordering.lt

compare_ℕ-flip : (a b : ℕ) → compare_ℕ b a ≡ flip (compare_ℕ a b)
unfolding flip
compare_ℕ-flip a b = ground arith

flip-then : (o p : Ordering) → flip (first_of o p) ≡ first_of (flip o) (flip p)
unfolding flip
flip-then Ordering.lt p = refl
flip-then Ordering.eq p = refl
flip-then Ordering.gt p = refl

compare-flip : (s t : String) → compare t s ≡ flip (compare s t)
unfolding flip
compare-flip nil nil = rw (compare.nil-nil, compare.nil-nil) refl
compare-flip nil (d ▹ t) = rw (compare.nil-cons d t, compare.cons-nil d t) refl
compare-flip (c ▹ s) nil = rw (compare.nil-cons c s, compare.cons-nil c s) refl
compare-flip (c ▹ s) (d ▹ t) =
    compare.cons-cons d c t s
    ∙ ap (λ o. first_of o (compare t s)) (compare_ℕ-flip (code c) (code d))
    ∙ ap (first_of (flip (compare_ℕ (code c) (code d)))) (compare-flip s t)
    ∙ sym (flip-then (compare_ℕ (code c) (code d)) (compare s t))
    ∙ ap flip (sym (compare.cons-cons c d s t))

flip-total : (o : Ordering) → not_gt o ≡ false → not_gt (flip o) ≡ true
unfolding flip
flip-total Ordering.lt h = cc
flip-total Ordering.eq h = refl
flip-total Ordering.gt h = refl

leb_text-total : (s t : String) → leb_text s t ≡ false → leb_text t s ≡ true
leb_text-total s t h = ap not_gt (compare-flip s t) ∙ flip-total (compare s t) h

pub leb_key-total : (k l : SortKey) → leb_key k l ≡ false → leb_key l k ≡ true
leb_key-total (preferred i) (preferred j) h = ground arith
leb_key-total (preferred i) (named t) h = cc
leb_key-total (named s) (preferred j) h = refl
leb_key-total (named s) (named t) h = leb_text-total s t h
