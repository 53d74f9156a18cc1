-- ===== src/Prelude/Table.antt =====
-- A table as the list of its rows, in the order of insertion, with a key that is a number.
use apex_payments_engine.Prelude.Tests.{◌==◌, if◌then◌else◌, Bool-cases}
use apex_payments_engine.Prelude.Lists.{All}
use mathlib.Core.Logic.{inl, inr}
use Prim.Native.Nat.{ℕ}
use mathlib.Core.Path.{◌≡◌, refl}
use mathlib.Core.Option.{Option, none, some}
use mathlib.Core.List.{List, [], ◌∷◌, ◌++◌}
use native.Mathlib.Omega.{arith}

module _ {A : Type 0} (key : A → ℕ) where
  -- The row of a key, of which there is at most one.
  abbrev pub find : ℕ → List A → Option A
  find k [] = none
  find k (x ∷ xs) = if key x == k then some x else find k xs

  -- The row of the key replaced by what `f` makes of it.
  abbrev pub modify : ℕ → (A → A) → List A → List A
  modify k f [] = []
  modify k f (x ∷ xs) = if key x == k then f x ∷ xs else x ∷ modify k f xs

  pub key-find : (k : ℕ) (x : A) (xs : List A) → find k xs ≡ some x → key x ≡ k
  key-find k x [] h = ground arith
  key-find k x (y ∷ xs) h = ground (arith, key-find k x xs)

  pub find-modify_self :
      (k : ℕ) (f : A → A) (x : A) (xs : List A)
      → ((y : A) → key (f y) ≡ key y)
      → find k xs ≡ some x
      → find k (modify k f xs) ≡ some (f x)
  find-modify_self k f x [] same h = ground arith
  find-modify_self k f x (y ∷ xs) same h = ground (arith, same y, find-modify_self k f x xs same)

  pub find-modify_ne :
      (j k : ℕ) (f : A → A) (xs : List A)
      → ((y : A) → key (f y) ≡ key y)
      → ¬ (j ≡ k)
      → find j (modify k f xs) ≡ find j xs
  find-modify_ne j k f [] same ne = refl
  find-modify_ne j k f (y ∷ xs) same ne = ground (arith, same y, find-modify_ne j k f xs same ne)

  pub find-append :
      (j : ℕ) (x : A) (xs : List A)
      → find j (xs ++ x ∷ [])
        ≡ (elim (find j xs) [ some y ↦ some y | none ↦ if key x == j then some x else none ])
  find-append j x [] = ground arith
  find-append j x (y ∷ xs) = ground (arith, find-append j x xs)

  -- No two rows have one key.
  abbrev pub IsKeyed : List A → Type 0
  IsKeyed [] = Unit
  IsKeyed (x ∷ xs) = (find (key x) xs ≡ none) × IsKeyed xs

  -- A row that its key finds.
  abbrev pub IsRowOf : List A → A → Type 0
  IsRowOf xs x = find (key x) xs ≡ some x

  rows_found-cons :
      (x : A) (xs ys : List A)
      → find (key x) xs ≡ none
      → All (IsRowOf xs) ys
      → All (IsRowOf (x ∷ xs)) ys
  rows_found-cons x xs [] fresh h = tt
  rows_found-cons x xs (y ∷ ys) fresh h = (ground (arith, h.0), rows_found-cons x xs ys fresh h.1)

  pub rows_found : (xs : List A) → IsKeyed xs → All (IsRowOf xs) xs
  rows_found [] h = tt
  rows_found (x ∷ xs) h = (ground arith, rows_found-cons x xs xs h.0 (rows_found xs h.1))

  module _ (k : ℕ) (f : A → A) (same : (x : A) → key (f x) ≡ key x) where
    find-modify-none : (j : ℕ) (xs : List A) → find j xs ≡ none → find j (modify k f xs) ≡ none
    find-modify-none j [] h = refl
    find-modify-none j (x ∷ xs) h = ground (arith, same x, find-modify-none j xs)

    pub modify-IsKeyed : (xs : List A) → IsKeyed xs → IsKeyed (modify k f xs)
    modify-IsKeyed [] h = tt
    modify-IsKeyed (x ∷ xs) h = elim (Bool-cases (key x == k)) [
      | inl here ↦ rw here (rw (same x) h.0, h.1)
      | inr there ↦ rw there (find-modify-none (key x) xs h.0, modify-IsKeyed xs h.1)
    ]
