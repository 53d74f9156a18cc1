-- ===== src/System/Finishing.antt =====
-- The second transaction of `PaymentService.create` and the escrow.
use apex_payments_engine.Prelude.{◌≡◌, refl, sym, ap, ◌∙◌, subst, String}
use apex_payments_engine.Domain.Exceptions.{Uuid}
use apex_payments_engine.Domain.Models.{Payment, Database}
use apex_payments_engine.Schemas.{CreatePaymentRequest, PaymentResponse, payment_body}
use apex_payments_engine.Session.{Environment, World, Result, ok, err, pure, ◌>>=◌, ◌>>◌}
use apex_payments_engine.Session.Transactions.{transaction-eq-ok, transaction-eq-err}
use apex_payments_engine.Session.Ensures.{>>=-eq-ok, pure-eq-ok}
use apex_payments_engine.Idempotency.{complete}
use apex_payments_engine.Idempotency.Frame.{complete-OnlyKeys}
use apex_payments_engine.Psp.{AuthorizationResult}
use apex_payments_engine.Payments.{to_response, apply_outcome, finish_payment}
use apex_payments_engine.System.Escrow.{
  IsProcessing, IsSound, IsKept, IsAdvanced, KeepsEscrow, KeepsEscrow-preorder,
}
use apex_payments_engine.System.Lifecycle.{IsFollowed-trans}
use apex_payments_engine.System.Phases.{apply_outcome-IsAdvanced}
use apex_payments_engine.System.Services.{same_keys}

IsAdvanced-of_kept : (id : Uuid) (d e : Database) → IsKept d e → IsAdvanced id d e
IsAdvanced-of_kept id d e h = record {
  sound = h.sound;
  surplus_lem = h.surplus_lem;
  others = λ j ne p. h.processing j p;
  followed = h.followed;
}

advance_then :
    (id : Uuid) (d e f : Database) → IsAdvanced id d e → KeepsEscrow e f → IsAdvanced id d f
advance_then id d e f a k =
    let b = k.keeps a.sound in
    record {
      sound = b.sound;
      surplus_lem = b.surplus_lem ∙ a.surplus_lem;
      others = λ j ne p. b.processing j (a.others j ne p);
      followed = IsFollowed-trans d e f a.followed b.followed;
    }

module _ (env : Environment) (key : String) (request : CreatePaymentRequest) (id : Uuid) where
  finishing-IsAdvanced :
      (auth_result : AuthorizationResult) (response : PaymentResponse) (w w' : World)
      → finish_payment env key request id auth_result w ≡ (ok response, w')
      → IsProcessing id w.db
      → IsSound w.db
      → IsAdvanced id w.db w'.db
  unfolding finish_payment
  finishing-IsAdvanced auth_result response w w' h (row, found, status) sound =
      let outcome = apply_outcome env id auth_result.outcome auth_result.psp_reference in
      let end = λ (p : Payment).
        (complete env request.merchant_id key p.id 201 (payment_body (to_response p))
          >> pure (to_response p)) in
      let (u, done, committed) = transaction-eq-ok env (outcome >>= end) w w' response h in
      let (p, v, e, f) = >>=-eq-ok outcome end w u done in
      let (unit, x, g, k) =
        >>=-eq-ok (complete env request.merchant_id key p.id 201 (payment_body (to_response p)))
          (λ _. pure (to_response p)) v u f in
      let frame =
        (complete-OnlyKeys env request.merchant_id key p.id 201 (payment_body (to_response p))).at v
          x unit g in
      let first =
        apply_outcome-IsAdvanced env id row w v p found (rw status refl) sound auth_result.outcome
          auth_result.psp_reference e in
      let same : x ≡ u = (pure-eq-ok (to_response p) response x u k).1 in
      subst (IsAdvanced id w.db) (ap (λ (x : World). x.db) same ∙ sym committed)
        (advance_then id w.db v.db x.db first (same_keys v.db x.db frame))

  finish_result :
      (auth_result : AuthorizationResult) (r : Result PaymentResponse) (w w' : World)
      → finish_payment env key request id auth_result w ≡ (r, w')
      → IsProcessing id w.db
      → IsSound w.db
      → IsAdvanced id w.db w'.db
  unfolding finish_payment
  finish_result auth_result (ok response) w w' h processing sound =
      finishing-IsAdvanced auth_result response w w' h processing sound
  finish_result auth_result (err x) w w' h processing sound =
      subst (IsAdvanced id w.db) (sym (transaction-eq-err env _ w w' x h))
        (IsAdvanced-of_kept id w.db w.db ((KeepsEscrow-preorder.here w.db).keeps sound))

  -- The second transaction, whether it commits or rolls back.
  pub finish_payment-IsAdvanced :
      (auth_result : AuthorizationResult) (w : World)
      → IsProcessing id w.db
      → IsSound w.db
      → IsAdvanced id w.db (finish_payment env key request id auth_result w).1.db
  finish_payment-IsAdvanced auth_result w =
      finish_result auth_result (finish_payment env key request id auth_result w).0 w
        (finish_payment env key request id auth_result w).1 refl
