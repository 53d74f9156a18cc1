-- ===== src/System/Opening.antt =====
-- The first transaction of `PaymentService.create` and the escrow.
use apex_payments_engine.Prelude.{
  ℕ, suc, ◌≡◌, refl, sym, ap, ◌∙◌, subst, String, Bool, true, false, Option, none, some, arith,
  ◌==◌,
}
use apex_payments_engine.Prelude.Table.{find}
use apex_payments_engine.Domain.Exceptions.{Uuid, Time}
use apex_payments_engine.Domain.Models.{Payment, Database}
use apex_payments_engine.Schemas.{CreatePaymentRequest, PaymentResponse, ResponseBody}
use apex_payments_engine.Session.{
  Environment, World, Result, payment_request, ok, err, Action, pure, lift, external, commit,
  transaction, ◌>>=◌,
}
use apex_payments_engine.Session.Transactions.{transaction-eq-ok, transaction-eq-err}
use apex_payments_engine.Session.Ensures.{>>=-eq-ok, pure-eq-ok, lift-eq-ok, external-eq-ok}
use apex_payments_engine.Idempotency.{claim_or_replay}
use apex_payments_engine.Idempotency.Frame.{claim_or_replay-OnlyKeys}
use apex_payments_engine.Saga.{payment_key, payment_row, psp_suspense_account_id, hold}
use apex_payments_engine.Payments.{
  Opened, replayed, held, new_payment, parse_payment, replay_or_hold, open_payment,
}
use apex_payments_engine.System.Escrow.{
  IsUnique, IsProcessing, IsSound, IsKept, KeepsEscrow, KeepsEscrow-preorder,
}
use apex_payments_engine.System.Lifecycle.{IsFollowed-trans}
use apex_payments_engine.System.Phases.{hold-IsKept}
use apex_payments_engine.System.Services.{same_keys}

-- The database accepts no tables in which two payments have one id: it is their primary key.
abbrev pub EnforcesIds : Environment → Type 0
EnforcesIds env = (n : ℕ) (d : Database) → env.accepts n d ≡ true → IsUnique d.payments

-- Neither party of the request is the suspense account.
abbrev pub IsApartRequest : CreatePaymentRequest → Type 0
IsApartRequest request =
    ((request.payer_account_id == psp_suspense_account_id) ≡ false)
    × ((request.payee_account_id == psp_suspense_account_id) ≡ false)

-- What the first transaction leaves.
abbrev pub IsOpened : Uuid → Result Opened → Database → Database → Type 0
IsOpened id (ok (held p)) d e = IsKept d e × IsProcessing id e × (payment_row id d ≡ none)
IsOpened id (ok (replayed code response)) d e = IsKept d e
IsOpened id (err x) d e = IsKept d e

commit_accepted :
    {A : Type 0} (env : Environment) (before : Database) (r : Result A) (u w' : World) (a : A)
    → commit env before r u ≡ (ok a, w')
    → env.accepts u.calls w'.db ≡ true
commit_accepted env before (ok b) u w' a h = ground arith
commit_accepted env before (err e) u w' a h = ground arith

-- A transaction that returns was accepted.
transaction_accepted :
    {A : Type 0} (env : Environment) (m : Action A) (w w' : World) (a : A)
    → transaction env m w ≡ (ok a, w')
    → (n : ℕ) × (env.accepts n w'.db ≡ true)
unfolding transaction
transaction_accepted env m w w' a h =
    ((m w).1.calls, commit_accepted env w.db (m w).0 (m w).1 w' a h)

join : (d e f : Database) → IsKept d e → IsKept e f → IsKept d f
join d e f a b = record {
  sound = b.sound;
  surplus_lem = b.surplus_lem ∙ a.surplus_lem;
  processing = λ j p. b.processing j (a.processing j p);
  followed = IsFollowed-trans d e f a.followed b.followed;
}

module _ (env : Environment) (key : String) (request : CreatePaymentRequest) (id : Uuid) where
  -- The body of the first transaction once the key is claimed or found.
  replay_or_hold-IsOpened :
      (replay : Option (ℕ × ResponseBody)) (o : Opened) (w w' : World)
      → replay_or_hold env id request replay w ≡ (ok o, w')
      → IsApartRequest request
      → IsUnique w'.payments
      → IsSound w.db
      → IsOpened id (ok o) w.db w'.db
  unfolding replay_or_hold
  replay_or_hold-IsOpened (some (code, body)) o w w' h apart unique sound =
      let go = λ (response : PaymentResponse). pure (replayed code response) in
      let (response, u, e, f) = >>=-eq-ok (lift (parse_payment body)) go w w' h in
      let same : w ≡ w' =
        (lift-eq-ok (parse_payment body) response w u e).1
        ∙ (pure-eq-ok (replayed code response) o u w' f).1 in
      let kept : IsKept w.db w'.db =
        subst (λ (x : World). IsKept w.db x.db) same
          ((KeepsEscrow-preorder.here w.db).keeps sound) in
      subst (λ o. IsOpened id (ok o) w.db w'.db) (pure-eq-ok (replayed code response) o u w' f).0
        kept
  replay_or_hold-IsOpened none o w w' h apart unique sound =
      let last = λ (payment : Payment). pure (held payment) in
      let go = λ (t : Time). hold env (new_payment id request t) >>= last in
      let (t, u, e, f) = >>=-eq-ok (external env.now) go w w' h in
      let drawn : record w { calls = suc w.calls } ≡ u = (external-eq-ok env.now t w u e).1 in
      let (p, v, g, k) = >>=-eq-ok (hold env (new_payment id request t)) last u w' f in
      let end = pure-eq-ok (held p) o v w' k in
      let held_lem : IsOpened id (ok (held p)) u.db v.db =
        hold-IsKept env (new_payment id request t) p u v apart g
          (subst (λ (x : World). IsUnique x.payments) (sym end.1) unique)
          (subst (λ (x : World). IsSound x.db) drawn sound) in
      subst (λ (x : World). IsOpened id (ok o) x.db w'.db) (sym drawn)
        (subst (λ (x : World). IsOpened id (ok o) u.db x.db) end.1
          (subst (λ o. IsOpened id (ok o) u.db v.db) end.0 held_lem))

  -- What keeps the escrow, before the rest of the transaction.
  IsOpened-after :
      (o : Opened) (d e f : Database)
      → KeepsEscrow d e
      → e.payments ≡ d.payments
      → (IsSound e → IsOpened id (ok o) e f)
      → IsSound d
      → IsOpened id (ok o) d f
  IsOpened-after (held p) d e f first same rest sound =
      let h = rest (first.keeps sound).sound in
      (join d e f (first.keeps sound) h.0, h.1, ap (find payment_key id) (sym same) ∙ h.2)
  IsOpened-after (replayed code response) d e f first same rest sound =
      join d e f (first.keeps sound) (rest (first.keeps sound).sound)

  opening-IsOpened :
      (lock : Bool) (o : Opened) (w w' : World)
      → open_payment env lock key request id w ≡ (ok o, w')
      → EnforcesIds env
      → IsApartRequest request
      → IsSound w.db
      → IsOpened id (ok o) w.db w'.db
  unfolding open_payment
  opening-IsOpened lock o w w' h enforces apart sound =
      let claim = claim_or_replay env lock request.merchant_id key (payment_request request) in
      let body = claim >>= replay_or_hold env id request in
      let (u, done, committed) = transaction-eq-ok env body w w' o h in
      let accepted = transaction_accepted env body w w' o h in
      let unique = enforces accepted.0 w'.db accepted.1 in
      let (replay, v, e, f) = >>=-eq-ok claim (replay_or_hold env id request) w u done in
      let frame =
        (claim_or_replay-OnlyKeys env lock request.merchant_id key (payment_request request)).at w v
          replay e in
      subst (IsOpened id (ok o) w.db) (sym committed) (
        IsOpened-after o w.db v.db u.db (same_keys w.db v.db frame)
          (ap (λ (x : Database). x.payments) frame.rest)
          (replay_or_hold-IsOpened replay o v u f apart
            (subst (λ (x : Database). IsUnique x.payments) committed unique))
          sound)

  open_result :
      (lock : Bool) (r : Result Opened) (w w' : World)
      → open_payment env lock key request id w ≡ (r, w')
      → EnforcesIds env
      → IsApartRequest request
      → IsSound w.db
      → IsOpened id r w.db w'.db
  unfolding open_payment
  open_result lock (ok o) w w' h enforces apart sound =
      opening-IsOpened lock o w w' h enforces apart sound
  open_result lock (err x) w w' h enforces apart sound =
      subst (IsKept w.db)
        (sym (
          transaction-eq-err env
            (claim_or_replay env lock request.merchant_id key (payment_request request)
              >>= replay_or_hold env id request)
            w w' x h))
        ((KeepsEscrow-preorder.here w.db).keeps sound)

  -- The first transaction, whether it commits or rolls back.
  pub open_payment-IsOpened :
      (lock : Bool) (w : World)
      → EnforcesIds env
      → IsApartRequest request
      → IsSound w.db
      → IsOpened id
          (open_payment env lock key request id w).0
          w.db
          (open_payment env lock key request id w).1.db
  open_payment-IsOpened lock w =
      open_result lock (open_payment env lock key request id w).0 w
        (open_payment env lock key request id w).1 refl
