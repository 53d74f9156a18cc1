-- ===== src/Schema/Keys.antt =====
-- What the constraints of the tables say of their rows.
use apex_payments_engine.Prelude.{
  ℕ, ◌≡◌, ◌≢◌, ◌∙◌, refl, sym, ap, true, false, none, List, [], ◌∷◌, ◌++◌, arith, ◌==◌,
}
use apex_payments_engine.Prelude.Table.{IsKeyed, find}
use apex_payments_engine.Session.{Environment}
use apex_payments_engine.Saga.{payment_key}
use apex_payments_engine.Schema.{any, primary_key, references, satisfies, payments_table, Enforces}
use apex_payments_engine.System.Opening.{EnforcesIds}

module _ {A : Type 0} (key : A → ℕ) where
  any-find : (k : ℕ) (xs : List A) → any (λ y. key y == k) xs ≡ false → find key k xs ≡ none
  any-find k [] h = refl
  any-find k (x ∷ xs) h = ground (arith, any-find k xs)

  pub primary_key-IsKeyed : (xs : List A) → primary_key key xs ≡ true → IsKeyed key xs
  primary_key-IsKeyed [] h = tt
  primary_key-IsKeyed (x ∷ xs) h =
      (any-find (key x) xs (ground arith), primary_key-IsKeyed xs (ground arith))

  -- The key of a row that was appended is no other row's.
  pub primary_key-append :
      (x : A) (xs : List A)
      → primary_key key (xs ++ x ∷ []) ≡ true
      → any (λ y. key y == key x) xs ≡ false
  primary_key-append x [] h = refl
  primary_key-append x (y ∷ xs) h = ground (arith, primary_key-append x xs, any-append y x xs)
    where
      any-append :
          (y x : A) (xs : List A)
          → any (λ z. key z == key y) (xs ++ x ∷ []) ≡ false
          → (key x == key y) ≡ false
      any-append y x [] h = ground arith
      any-append y x (z ∷ xs) h = ground (arith, any-append y x xs)

  pub references-apart :
      (j k : ℕ) (xs : List A)
      → references key xs j ≡ true
      → any (λ y. key y == k) xs ≡ false
      → j ≢ k
  references-apart j k xs there absent same =
      let both : true ≡ false = sym there ∙ ap (λ i. any (λ y. key y == i) xs) same ∙ absent in
      ground arith

-- A database that enforces its constraints accepts no two payments with one id.
pub Enforces-ids : (env : Environment) → Enforces env → EnforcesIds env
unfolding satisfies payments_table
Enforces-ids env h n d accepted =
    let s = h n d accepted in primary_key-IsKeyed payment_key d.payments (ground arith)
