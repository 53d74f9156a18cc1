-- ===== src/Session/Transactions.antt =====
-- What `async with session.begin()` does with a return and with a raise.
use apex_payments_engine.Prelude.{suc, ◌≡◌, arith}
use apex_payments_engine.Domain.Exceptions.{Error}
use apex_payments_engine.Domain.Models.{Database}
use apex_payments_engine.Session.{
  AcceptsAll, Environment, World, Result, ok, err, Action, commit, transaction,
}

commit-eq-ok :
    {A : Type 0} (env : Environment) (before : Database) (r : Result A) (u w' : World) (a : A)
    → commit env before r u ≡ (ok a, w')
    → (r ≡ ok a) × (w'.db ≡ u.db)
commit-eq-ok env before (ok b) u w' a h = ground arith
commit-eq-ok env before (err e) u w' a h = ground arith

commit-eq-err :
    {A : Type 0} (env : Environment) (before : Database) (r : Result A) (u w' : World) (e : Error)
    → commit env before r u ≡ (err e, w')
    → w'.db ≡ before
commit-eq-err env before (ok b) u w' e h = ground arith
commit-eq-err env before (err x) u w' e h = ground arith

-- A transaction that returns leaves what its body left.
pub transaction-eq-ok :
    {A : Type 0} (env : Environment) (m : Action A) (w w' : World) (a : A)
    → transaction env m w ≡ (ok a, w')
    → (u : World) × (m w ≡ (ok a, u)) × (w'.db ≡ u.db)
unfolding transaction
transaction-eq-ok env m w w' a h =
    let c = commit-eq-ok env w.db (m w).0 (m w).1 w' a h in ((m w).1, ground arith, c.1)

-- A transaction that raises, in its body or at its commit, leaves the tables as they were.
pub transaction-eq-err :
    {A : Type 0} (env : Environment) (m : Action A) (w w' : World) (e : Error)
    → transaction env m w ≡ (err e, w')
    → w'.db ≡ w.db
unfolding transaction
transaction-eq-err env m w w' e h = commit-eq-err env w.db (m w).0 (m w).1 w' e h

-- A transaction whose body returns, returns its value, if the database accepts the commit.
pub transaction-returns :
    {A : Type 0} (env : Environment) (m : Action A) (w u : World) (a : A)
    → AcceptsAll env
    → m w ≡ (ok a, u)
    → transaction env m w ≡ (ok a, record u { calls = suc u.calls })
unfolding transaction
transaction-returns env m w u a accepts h = rw h (rw (accepts u.calls u.db))

-- A transaction whose body raises, raises the same.
pub transaction-raises :
    {A : Type 0} (env : Environment) (m : Action A) (w u : World) (e : Error)
    → m w ≡ (err e, u)
    → transaction env m w ≡ (err e, record u { db = w.db })
unfolding transaction
transaction-raises env m w u e h = rw h
