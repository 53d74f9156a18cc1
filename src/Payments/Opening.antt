-- ===== src/Payments/Opening.antt =====
-- What the first transaction of `create` leaves under its key.
use apex_payments_engine.Prelude.{
  ℕ, suc, ◌≡◌, inl, inr, refl, sym, ap, ◌∙◌, subst, String, Bool, Option, none, some, arith,
  Option-cases,
}
use apex_payments_engine.Domain.Exceptions.{Uuid}
use apex_payments_engine.Schemas.{
  CreatePaymentRequest, PaymentResponse, ResponseBody, empty_body, payment_body, refund_body,
}
use apex_payments_engine.Domain.Models.{Payment, Database}
use apex_payments_engine.Session.{
  Environment, World, payment_request, Result, ok, ◌>>=◌, lift, pure,
}
use apex_payments_engine.Session.Ensures.{>>=-eq-ok, lift-eq-ok, pure-eq-ok}
use apex_payments_engine.Idempotency.{
  find_record, record_of, compute_hash, code_or_200, body_or_empty, claim_or_replay,
}
use apex_payments_engine.Idempotency.Records.{find_record-append_self}
use apex_payments_engine.Idempotency.Claims.{claim-existing, claim-fresh, answer-eq-ok}
use apex_payments_engine.Saga.{hold}
use apex_payments_engine.Saga.Transitions.{hold-IsTransition}
use apex_payments_engine.Payments.{
  Opened, replayed, held, parse_payment, new_payment, replay_or_hold,
}
use apex_payments_engine.Payments.Replay.{IsReplayable, IsClaimed, opening}

parse_payment-eq-ok :
    (body : ResponseBody) (response : PaymentResponse)
    → parse_payment body ≡ ok response
    → body ≡ payment_body response
unfolding parse_payment
parse_payment-eq-ok empty_body response h = ground arith
parse_payment-eq-ok (payment_body x) response h = ground arith
parse_payment-eq-ok (refund_body x) response h = ground arith

module _ (env : Environment) (key : String) (request : CreatePaymentRequest) where
  -- What the first transaction has established for the key.
  abbrev pub OpenedAt : World → Opened → World → Type 0
  OpenedAt w (replayed code response) u =
      IsReplayable env key request code response w.db × (u.db ≡ w.db)
  OpenedAt w (held p) u = IsClaimed env key request u.db

  replay_body :
      (id : Uuid) (code : ℕ) (body : ResponseBody) (o : Opened) (w u : World)
      → replay_or_hold env id request (some (code, body)) w ≡ (ok o, u)
      → (response : PaymentResponse) × (body ≡ payment_body response)
        × (o ≡ replayed code response)
        × (w ≡ u)
  unfolding replay_or_hold
  replay_body id code body o w u h =
      let rest = λ (response : PaymentResponse). pure (replayed code response) in
      let (response, v, e, e') = >>=-eq-ok (lift (parse_payment body)) rest w u h in
      let parsed = lift-eq-ok (parse_payment body) response w v e in
      let same = pure-eq-ok (replayed code response) o v u e' in
      (response, parse_payment-eq-ok body response parsed.0, sym same.0, parsed.1 ∙ same.1)

  hold_fresh :
      (id : Uuid) (o : Opened) (w u : World)
      → replay_or_hold env id request none w ≡ (ok o, u)
      → (p : Payment) × (o ≡ held p) × (u.idempotency_keys ≡ w.idempotency_keys)
  unfolding replay_or_hold ◌>>=◌
  hold_fresh id o w u h =
      let created = new_payment id request (env.now w.calls) in
      let start : World = record { db = w.db; calls = suc w.calls } in
      let rest = λ (p : Payment). pure (held p) in
      let (p, v, e, e') = >>=-eq-ok (hold env created) rest start u h in
      let (t, made, tr) = hold-IsTransition env created p start v e in
      let same = pure-eq-ok (held p) o v u e' in
      (p, sym same.0, ap (λ (x : World). x.idempotency_keys) (sym same.1) ∙ tr.idempotency_keys)

  -- The first transaction returns a stored response and leaves the tables, or it claims the key.
  pub opening-OpenedAt :
      (lock : Bool) (id : Uuid) (o : Opened) (w u : World)
      → opening env key request lock id w ≡ (ok o, u)
      → OpenedAt w o u
  opening-OpenedAt lock id o w u h =
      let m = request.merchant_id in
      let payload = payment_request request in
      let claim = claim_or_replay env lock m key payload in
      let (answered, v, e, e') = >>=-eq-ok claim (replay_or_hold env id request) w u h in
      elim (Option-cases (record_of m key w.db)) [
        | inl missing ↦
            let (r, fresh, added, em, ek, eh, es) =
              claim-fresh env lock m key payload w v answered missing e in
            let (p, o_held, keys) = hold_fresh id o v u (rw fresh at e') in
            subst (λ x. OpenedAt w x u) (sym o_held)
              (record {
                row = r;
                found =
                    ap (find_record m key) (keys ∙ ap (λ (x : Database). x.idempotency_keys) added)
                    ∙ find_record-append_self m key r w.idempotency_keys missing em ek;
                hash = eh;
                status = es;
              })
        | inr (r, found) ↦
            let (c, kept) = claim-existing env lock m key payload w r found in
            let (hash, done, value) =
              answer-eq-ok key (compute_hash env payload) r answered
                (sym c ∙ ap (λ (x : Result (Option (ℕ × ResponseBody)) × World). x.0) e) in
            let (response, body, o_replayed, same) =
              replay_body id (code_or_200 r.response_code) (body_or_empty r.response_body) o v u
                (rw value at e') in
            subst (λ x. OpenedAt w x u) (sym o_replayed)
              (
                record {
                  row = r;
                  found = found;
                  hash = hash;
                  done = done;
                  code_lem = refl;
                  body = body;
                },
                ap (λ (x : World). x.db) (sym same)
                    ∙ ap (λ (x : Result (Option (ℕ × ResponseBody)) × World). x.1.db) (sym e)
                    ∙ kept,
              )
      ]

  pub OpenedAt-committed :
      (o : Opened) (w u v : World) → v.db ≡ u.db → OpenedAt w o u → OpenedAt w o v
  OpenedAt-committed (replayed c r) w u v same h = (h.0, same ∙ h.1)
  OpenedAt-committed (held p) w u v same h = subst (IsClaimed env key request) (sym same) h
