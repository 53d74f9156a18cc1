-- ===== src/System/Expiry.antt =====
-- The expiry of stale holds keeps the escrow.
use apex_payments_engine.Prelude.{
  ℕ, suc, ◌≡◌, ◌≢◌, refl, ap, ◌∙◌, subst, true, ◌&&◌, none, List, [], ◌∷◌, All, arith, inl, inr,
  Bool-cases,
}
use apex_payments_engine.Prelude.Table.{IsRowOf, rows_found, find, modify, find-modify_ne}
use apex_payments_engine.Domain.Enums.{is_authorized}
use apex_payments_engine.Domain.Exceptions.{Uuid, Time}
use apex_payments_engine.Domain.Models.{Payment}
use apex_payments_engine.Session.{Environment, World, ok, gets, external, ◌>>=◌}
use apex_payments_engine.Session.Ensures.{
  >>=-eq-ok, pure-eq-ok, gets-eq-ok, Ensures, Ensures-external, Ensures-bind,
}
use apex_payments_engine.Saga.{payment_key, reverse, reversed}
use apex_payments_engine.Saga.Transitions.{reverse-IsTransition}
use apex_payments_engine.Reconciliation.{is_stale, stale_payments, reverse_each, expire_stale_holds}
use apex_payments_engine.Reconciliation.Overdue.{stale-IsKeyed}
use apex_payments_engine.System.Escrow.{
  IsUnique, IsSound, IsKept, KeepsEscrow, KeepsEscrow-preorder,
}
use apex_payments_engine.System.Lifecycle.{IsFollowed-trans}
use apex_payments_engine.System.Services.{reverse-IsKept}

-- A payment that waits for its webhook, with its row.
abbrev IsWaiting : List Payment → Payment → Type 0
IsWaiting ps q = IsRowOf payment_key ps q × (is_authorized q.status ≡ true)

module _ (now : Time) (timeout_minutes : ℕ) where
  stale-IsWaiting :
      (ps qs : List Payment)
      → All (IsRowOf payment_key ps) qs
      → All (IsWaiting ps) (stale_payments now timeout_minutes qs)
  unfolding stale_payments
  stale-IsWaiting ps [] h = tt
  stale-IsWaiting ps (q ∷ qs) h =
      elim (Bool-cases (is_authorized q.status && is_stale now timeout_minutes q)) [
        | inl stale ↦ rw stale ((h.0, ground arith), stale-IsWaiting ps qs h.1)
        | inr kept ↦ rw kept (stale-IsWaiting ps qs h.1)
      ]

-- What is found of the others when one payment has changed.
still-IsWaiting :
    (id : Uuid) (f : Payment → Payment) (ps xs qs : List Payment)
    → ((p : Payment) → (f p).id ≡ p.id)
    → xs ≡ modify payment_key id f ps
    → find payment_key id qs ≡ none
    → All (IsWaiting ps) qs
    → All (IsWaiting xs) qs
still-IsWaiting id f ps xs [] same e other h = tt
still-IsWaiting id f ps xs (q ∷ qs) same e other h =
    let ne : q.id ≢ id = λ here. ground arith in
    (
      (
        ap (find payment_key q.id) e ∙ find-modify_ne payment_key q.id id f ps same ne ∙ h.0.0,
        h.0.1,
      ),
      still-IsWaiting id f ps xs qs same e (ground arith) h.1,
    )

module _ (env : Environment) where
  reverse_each-IsKept :
      (count n : ℕ) (qs : List Payment) (w w' : World)
      → reverse_each env count qs w ≡ (ok n, w')
      → IsUnique qs
      → All (IsWaiting w.payments) qs
      → IsSound w.db
      → IsKept w.db w'.db
  unfolding reverse_each
  reverse_each-IsKept count n [] w w' h unique waiting sound =
      let same : w ≡ w' = (pure-eq-ok count n w w' h).1 in
      subst (λ (x : World). IsKept w.db x.db) same ((KeepsEscrow-preorder.here w.db).keeps sound)
  reverse_each-IsKept count n (q ∷ qs) w w' h unique waiting sound =
      let (p, u, e, e') =
        >>=-eq-ok (reverse env q.id) (λ _. reverse_each env (suc count) qs) w w' h in
      let (row, t, found, made, done) = reverse-IsTransition env q.id p w u e in
      let first = reverse-IsKept env q w u waiting.0.0 waiting.0.1 sound p e in
      let rest =
        reverse_each-IsKept (suc count) n qs u w' e' unique.1
          (still-IsWaiting q.id (reversed t) w.payments u.payments qs (λ p. refl) done.payments_lem
            unique.0 waiting.1)
          first.sound in
      record {
        sound = rest.sound;
        surplus_lem = rest.surplus_lem ∙ first.surplus_lem;
        processing = λ j p. rest.processing j (first.processing j p);
        followed = IsFollowed-trans w.db u.db w'.db first.followed rest.followed;
      }

  expiring-KeepsEscrow :
      (timeout_minutes : ℕ) (now : Time)
      → Ensures KeepsEscrow
          (gets (λ d. stale_payments now timeout_minutes d.payments) >>= reverse_each env 0)
  expiring-KeepsEscrow timeout_minutes now = record {
    at = λ w w' n h. record {
      keeps = λ sound.
          let (stale, u, e, e') =
            >>=-eq-ok (gets (λ d. stale_payments now timeout_minutes d.payments))
              (reverse_each env 0) w w' h in
          let (stale_lem, same) =
            gets-eq-ok (λ d. stale_payments now timeout_minutes d.payments) stale w u e in
          reverse_each-IsKept 0 n (stale_payments now timeout_minutes w.payments) w w'
            (ap (λ qs. reverse_each env 0 qs w) stale_lem
              ∙ ap (λ x. reverse_each env 0 stale x) same
              ∙ e')
            (stale-IsKeyed now timeout_minutes w.payments sound.unique)
            (stale-IsWaiting now timeout_minutes w.payments w.payments
              (rows_found payment_key w.payments sound.unique))
            sound;
    };
  }

  pub expire_stale_holds-KeepsEscrow :
      (timeout_minutes : ℕ) → Ensures KeepsEscrow (expire_stale_holds env timeout_minutes)
  unfolding expire_stale_holds
  expire_stale_holds-KeepsEscrow timeout_minutes =
      Ensures-bind KeepsEscrow-preorder (external env.now) _
        (Ensures-external KeepsEscrow-preorder env.now)
        (λ now. expiring-KeepsEscrow timeout_minutes now)
