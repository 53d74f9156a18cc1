-- ===== src/Session/Ensures.antt =====
-- Relations between the tables before and after an action that returns, one rule for each way to
-- build an action.
use apex_payments_engine.Prelude.{
  ℕ, suc, ◌≡◌, refl, sym, ap, ◌∙◌, subst, Bool, true, false, Option, none, some, arith,
  if◌then◌else◌,
}
use apex_payments_engine.Domain.Exceptions.{Error}
use apex_payments_engine.Domain.Models.{Database}
use apex_payments_engine.Session.{
  Environment, World, Result, ok, err, Action, pure, raise, lift, gets, or_raise, external,
  continue, ◌>>=◌, raise_if, update, flush, transaction,
}
use apex_payments_engine.Session.Transactions.{transaction-eq-ok, transaction-eq-err}

-- The part of a bind that went on returned.
pub continue-eq-ok :
    {A B : Type 0} (r : Result A) (f : A → Action B) (u w' : World) {b : B}
    → continue r f u ≡ (ok b, w')
    → (a : A) × (r ≡ ok a) × (f a u ≡ (ok b, w'))
continue-eq-ok (ok a) f u w' h = (a, refl, h)
continue-eq-ok (err e) f u w' h = ground arith

pub pure-eq-ok : {A : Type 0} (a b : A) (w w' : World) → pure a w ≡ (ok b, w') → (a ≡ b) × (w ≡ w')
unfolding ◌>>=◌
pure-eq-ok a b w w' h = ground arith

pub lift-eq-ok :
    {A : Type 0} (r : Result A) (b : A) (w w' : World)
    → lift r w ≡ (ok b, w')
    → (r ≡ ok b) × (w ≡ w')
unfolding ◌>>=◌
lift-eq-ok r b w w' h = ground arith

pub gets-eq-ok :
    {A : Type 0} (f : Database → A) (a : A) (w w' : World)
    → gets f w ≡ (ok a, w')
    → (f w.db ≡ a) × (w ≡ w')
unfolding ◌>>=◌
gets-eq-ok f a w w' h = ground arith

pub external-eq-ok :
    {A : Type 0} (f : ℕ → A) (a : A) (w w' : World)
    → external f w ≡ (ok a, w')
    → (f w.calls ≡ a) × (record w { calls = suc w.calls } ≡ w')
unfolding ◌>>=◌
external-eq-ok f a w w' h = ground arith

-- What a bind that returns did: each part returned.
pub >>=-eq-ok :
    {A B : Type 0} (m : Action A) (f : A → Action B) (w w' : World) {b : B}
    → (m >>= f) w ≡ (ok b, w')
    → (a : A) × (u : World) × (m w ≡ (ok a, u)) × (f a u ≡ (ok b, w'))
unfolding ◌>>=◌
>>=-eq-ok m f w w' h =
    let c = continue-eq-ok (m w).0 f (m w).1 w' h in (c.0, (m w).1, ground arith, c.2)

-- A relation that holds of every state of the tables and itself, and along two steps.
pub record IsPreorder (R : Database → Database → Type 0) : Type 0 where
  pub here : (d : Database) → R d d
  pub step : (d e f : Database) → R d e → R e f → R d f

pub record Ensures (R : Database → Database → Type 0) {A : Type 0} (m : Action A) : Type 0 where
  pub at : (w w' : World) (a : A) → m w ≡ (ok a, w') → R w.db w'.db

module _ {R : Database → Database → Type 0} (pre : IsPreorder R) {A : Type 0} where
  -- An action that leaves the tables as they are.
  Ensures-still : (m : Action A) → ((w : World) → (m w).1.db ≡ w.db) → Ensures R m
  Ensures-still m same = record {
    at = λ w w' a e.
        subst (R w.db) (sym (same w) ∙ ap (λ (o : Result A × World). o.1.db) e) (pre.here w.db);
  }

  pub Ensures-pure : (a : A) → Ensures R (pure a)
  unfolding ◌>>=◌
  Ensures-pure a = Ensures-still (pure a) (λ w. refl)

  pub Ensures-raise : (e : Error) → Ensures R (raise {A = A} e)
  unfolding ◌>>=◌
  Ensures-raise e = Ensures-still (raise e) (λ w. refl)

  pub Ensures-lift : (r : Result A) → Ensures R (lift r)
  unfolding ◌>>=◌
  Ensures-lift r = Ensures-still (lift r) (λ w. refl)

  pub Ensures-gets : (f : Database → A) → Ensures R (gets f)
  unfolding ◌>>=◌
  Ensures-gets f = Ensures-still (gets f) (λ w. refl)

  pub Ensures-or_raise : (o : Option A) (e : Error) → Ensures R (or_raise o e)
  unfolding ◌>>=◌
  Ensures-or_raise none e = Ensures-still (or_raise none e) (λ w. refl)
  Ensures-or_raise (some a) e = Ensures-still (or_raise (some a) e) (λ w. refl)

  pub Ensures-external : (f : ℕ → A) → Ensures R (external f)
  unfolding ◌>>=◌
  Ensures-external f = Ensures-still (external f) (λ w. refl)

  pub Ensures-if :
      (c : Bool) (m n : Action A) → Ensures R m → Ensures R n → Ensures R (if c then m else n)
  Ensures-if true m n hm hn = hm
  Ensures-if false m n hm hn = hn

module _ {R : Database → Database → Type 0} (pre : IsPreorder R) where
  pub Ensures-raise_if : (c : Bool) (e : Error) → Ensures R (raise_if c e)
  unfolding ◌>>=◌
  Ensures-raise_if c e = Ensures-still pre (raise_if c e) (λ w. refl)

  pub Ensures-flush : (env : Environment) → Ensures R (flush env)
  unfolding ◌>>=◌
  Ensures-flush env = Ensures-still pre (flush env) (λ w. refl)

  pub Ensures-bind :
      {A B : Type 0} (m : Action A) (f : A → Action B)
      → Ensures R m
      → ((a : A) → Ensures R (f a))
      → Ensures R (m >>= f)
  Ensures-bind m f hm hf = record {
    at = λ w w' b e.
        let c = >>=-eq-ok m f w w' e in
        pre.step w.db c.1.db w'.db (hm.at w c.1 c.0 c.2) ((hf c.0).at c.1 w' b c.3);
  }

pub Ensures-update :
    {R : Database → Database → Type 0} (f : Database → Database)
    → ((d : Database) → R d (f d))
    → Ensures R (update f)
unfolding ◌>>=◌
Ensures-update {R} f h = record {
  at = λ w w' a e. subst (R w.db) (ap (λ (o : Result Unit × World). o.1.db) e) (h w.db);
}

-- What keeps a relation keeps a weaker one.
pub Ensures-weaken :
    {R Q : Database → Database → Type 0} {A : Type 0} (m : Action A)
    → ((d e : Database) → R d e → Q d e)
    → Ensures R m
    → Ensures Q m
Ensures-weaken m weaker h = record { at = λ w w' a e. weaker w.db w'.db (h.at w w' a e) }

-- A transaction keeps what its body keeps.
pub Ensures-transaction :
    {R : Database → Database → Type 0} {A : Type 0} (env : Environment) (m : Action A)
    → Ensures R m
    → Ensures R (transaction env m)
Ensures-transaction {R} env m h = record {
  at = λ w w' a e.
      let t = transaction-eq-ok env m w w' a e in subst (R w.db) (sym t.2) (h.at w t.0 a t.1);
}

-- A transaction that raises leaves the tables, so, whether it commits or rolls back, it keeps what
-- its body keeps.
module _ {R : Database → Database → Type 0} (pre : IsPreorder R) {A : Type 0} (env : Environment)
    (m : Action A) (keeps : Ensures R m) where
  result_keeps : (w u : World) (r : Result A) → transaction env m w ≡ (r, u) → R w.db u.db
  result_keeps w u (ok a) h = (Ensures-transaction env m keeps).at w u a h
  result_keeps w u (err e) h =
      subst (R w.db) (sym (transaction-eq-err env m w u e h)) (pre.here w.db)

  pub transaction_keeps : (w : World) → R w.db (transaction env m w).1.db
  transaction_keeps w = result_keeps w (transaction env m w).1 (transaction env m w).0 refl

pub ruleset ensures_rules = (
  Ensures-pure, Ensures-raise, Ensures-lift, Ensures-gets, Ensures-or_raise, Ensures-external,
  Ensures-if, Ensures-raise_if, Ensures-flush, Ensures-bind, Ensures-update, Ensures-transaction,
)
