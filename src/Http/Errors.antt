-- ===== src/Http/Errors.antt =====
-- An answer that is an error comes of an exception: app/main.py.
use apex_payments_engine.Prelude.{ℕ, ◌≡◌, refl, true, false}
use apex_payments_engine.Domain.Exceptions.{Error}
use apex_payments_engine.Session.{Environment, Result, ok, err}
use apex_payments_engine.Http.{respond, is_error}

-- What has raised.
unfoldable pub IsRaised : {A : Type 0} → Result A → Type 0
IsRaised r = (e : Error) × (r ≡ err e)

false_or : {A : Type 0} → false ≡ true → A
false_or h = absurd cc

pub respond-IsRaised :
    {A : Type 0} (env : Environment) (starlette : Error → ℕ) (r : Result (ℕ × A))
    → is_error (respond env starlette r) ≡ true
    → IsRaised r
unfolding respond IsRaised
respond-IsRaised env starlette (ok (code, body)) h = false_or h
respond-IsRaised env starlette (err e) h = (e, refl)
