-- ===== src/DailyPush/Unique.antt =====
-- `dict.fromkeys` in scripts/daily_push.py keeps each file once, and sorting keeps that.
use apex_payments_engine.Prelude.{
  ◌≡◌, refl, ap, sym, ◌∙◌, subst, String, str_eq, str_eq_iff, Bool, true, false, ◌||◌, inl, inr,
  Bool-cases, List, [], ◌∷◌, arith,
}
use apex_payments_engine.DailyPush.Order.{without, fromkeys}

abbrev pub has : String → List String → Bool
has file [] = false
has file (f ∷ fs) = str_eq file f || has file fs

-- No file stands twice.
abbrev pub IsUnique : List String → Type 0
IsUnique [] = Unit
IsUnique (f ∷ fs) = (has f fs ≡ false) × IsUnique fs

equal : (f g : String) → str_eq f g ≡ true → f ≡ g
equal f g h = (str_eq_iff f g).0 h

pub str_eq_sym : (f g : String) → str_eq f g ≡ false → str_eq g f ≡ false
str_eq_sym f g h = elim (Bool-cases (str_eq g f)) [
  | inl same ↦
      subst (λ x. str_eq x f ≡ false) (sym (equal g f same))
        (subst (λ x. str_eq f x ≡ false) (equal g f same) h)
  | inr other ↦ other
]

has-without_self : (f : String) (gs : List String) → has f (without f gs) ≡ false
unfolding without
has-without_self f [] = refl
has-without_self f (g ∷ gs) = elim (Bool-cases (str_eq f g)) [
  | inl same ↦ rw same (has-without_self f gs)
  | inr other ↦ rw (other, other, has-without_self f gs) refl
]

has-without_none :
    (file f : String) (gs : List String) → has file gs ≡ false → has file (without f gs) ≡ false
unfolding without
has-without_none file f [] h = refl
has-without_none file f (g ∷ gs) h = ground (arith, has-without_none file f gs)

IsUnique-without : (f : String) (gs : List String) → IsUnique gs → IsUnique (without f gs)
unfolding without
IsUnique-without f [] u = tt
IsUnique-without f (g ∷ gs) u = elim (Bool-cases (str_eq f g)) [
  | inl same ↦ rw same (IsUnique-without f gs u.1)
  | inr other ↦ rw other (has-without_none g f gs u.0, IsUnique-without f gs u.1)
]

pub fromkeys-IsUnique : (fs : List String) → IsUnique (fromkeys fs)
unfolding fromkeys
fromkeys-IsUnique [] = tt
fromkeys-IsUnique (f ∷ fs) =
    (has-without_self f (fromkeys fs), IsUnique-without f (fromkeys fs) (fromkeys-IsUnique fs))

pub or_swap : (x y z : Bool) → x || (y || z) ≡ y || (x || z)
or_swap true true z = refl
or_swap true false z = refl
or_swap false true z = refl
or_swap false false z = refl

or_same : (x y z : Bool) → x ≡ y → x || z ≡ x || (y || z)
or_same true y z e = refl
or_same false y z e = rw (sym e) refl

has-without :
    (file f : String) (gs : List String)
    → (str_eq file f || has file (without f gs)) ≡ (str_eq file f || has file gs)
unfolding without
has-without file f [] = refl
has-without file f (g ∷ gs) = elim (Bool-cases (str_eq f g)) [
  | inl same ↦ rw same (
      has-without file f gs
      ∙ or_same (str_eq file f) (str_eq file g) (has file gs) (ap (str_eq file) (equal f g same)))
  | inr other ↦ rw other (
      or_swap (str_eq file f) (str_eq file g) (has file (without f gs))
      ∙ ap (λ b. str_eq file g || b) (has-without file f gs)
      ∙ or_swap (str_eq file g) (str_eq file f) (has file gs))
]

pub has-fromkeys : (file : String) (fs : List String) → has file (fromkeys fs) ≡ has file fs
unfolding fromkeys
has-fromkeys file [] = refl
has-fromkeys file (f ∷ fs) =
    has-without file f (fromkeys fs) ∙ ap (λ b. str_eq file f || b) (has-fromkeys file fs)
