-- ===== src/Refunds/Replay.antt =====
-- The answer of a refund, stored under its key.
use apex_payments_engine.Prelude.{
  ℕ, ◌≡◌, inl, inr, refl, sym, ap, ◌∙◌, String, Bool, Option, none, some, arith, str_eq_refl,
  Option-cases,
}
use apex_payments_engine.Prelude.Int.{ℤ}
use apex_payments_engine.Domain.Enums.{TransactionType, completed}
use apex_payments_engine.Domain.Exceptions.{Uuid}
use apex_payments_engine.Schemas.{
  RefundResponse, ResponseBody, refund_body, empty_body, payment_body,
}
use apex_payments_engine.Domain.Models.{Payment, Refund, IdempotencyRecord, EventPayload, Database}
use apex_payments_engine.Session.{
  Environment, World, refund_request, Result, ok, ◌>>=◌, ◌>>◌, lift, pure,
}
use apex_payments_engine.Session.Ensures.{>>=-eq-ok, lift-eq-ok, pure-eq-ok}
use apex_payments_engine.Ledger.{post}
use apex_payments_engine.Ledger.Frame.{post-SameOutside}
use apex_payments_engine.Idempotency.{
  find_record, record_of, compute_hash, code_or_200, body_or_empty, claim_or_replay, complete,
  complete_with, set_record,
}
use apex_payments_engine.Idempotency.Records.{find_record-append_self, find_record-modify_self}
use apex_payments_engine.Idempotency.Claims.{
  claim-existing, claim-fresh, complete-eq-ok, answer-eq-ok,
}
use apex_payments_engine.Saga.{emit}
use apex_payments_engine.Refunds.{
  refund_postings, refund_payload, refund_response, parse_refund, post_refund, refund_payment,
  replay_or_refund, refund,
}
use apex_payments_engine.Refunds.Effects.{recorded_at, world_at, refund_payment-loads}

abbrev merchant : String
merchant = "merchant_refund"

parse_refund-eq-ok :
    (body : ResponseBody) (response : RefundResponse)
    → parse_refund body ≡ ok response
    → body ≡ refund_body response
unfolding parse_refund
parse_refund-eq-ok empty_body response h = ground arith
parse_refund-eq-ok (payment_body x) response h = ground arith
parse_refund-eq-ok (refund_body x) response h = ground arith

emit-keys :
    (env : Environment) (aggregate : String) (id : Uuid) (event_type : String)
    (payload : EventPayload) (w w' : World)
    → emit env aggregate id event_type payload w ≡ (ok tt, w')
    → w'.idempotency_keys ≡ w.idempotency_keys
unfolding emit ◌>>=◌
emit-keys env aggregate id event_type payload w w' h = ground arith

module _ (env : Environment) (key : String) (id : Uuid) (amount : ℤ) where
  -- The key has a completed row of this refund that replays `answer`.
  pub record IsReplayable (answer : ℕ × RefundResponse) (d : Database) : Type 0 where
    pub row : IdempotencyRecord
    pub found : record_of merchant key d ≡ some row
    pub hash : row.request_hash ≡ compute_hash env (refund_request id amount)
    pub done : row.status ≡ completed
    pub code_lem : code_or_200 row.response_code ≡ answer.0
    pub body : body_or_empty row.response_body ≡ refund_body answer.1

  pub refund-replays :
      (lock : Bool) (answer : ℕ × RefundResponse) (w : World)
      → IsReplayable answer w.db
      → (u : World) × (refund env lock key id amount w ≡ (ok answer, u)) × (u.db ≡ w.db)
  unfolding refund replay_or_refund parse_refund ◌>>=◌
  refund-replays lock answer w h =
      let payload = refund_request id amount in
      let (c, same) = claim-existing env lock merchant key payload w h.row h.found in
      let e : (claim_or_replay env lock merchant key payload w).0
          ≡ ok (some (answer.0, refund_body answer.1)) =
        c ∙ rw (h.hash, str_eq_refl, h.done, h.code_lem, h.body) refl in
      ((claim_or_replay env lock merchant key payload w).1, rw e refl, same)

  -- The end of a refund stores its answer under the key.
  post_refund-completes :
      (row : Payment) (r : Refund) (answer : ℕ × RefundResponse) (found : IdempotencyRecord)
      (w w' : World)
      → record_of merchant key w.db ≡ some found
      → post_refund env key row amount r w ≡ (ok answer, w')
      → (answer ≡ (201, refund_response r))
        × (record_of merchant key w'.db
            ≡ some (complete_with r.id 201 (refund_body (refund_response r)) found))
  unfolding post_refund
  post_refund-completes row r answer found w w' there h =
      let ps = refund_postings row amount in
      let saved = refund_body (refund_response r) in
      let finish =
        complete env merchant key r.id 201 saved
        >> pure {A = ℕ × RefundResponse} (201, refund_response r) in
      let announce = emit env "refund" r.id "refund.completed" (refund_payload r) in
      let (txn, u, e, e') =
        >>=-eq-ok (post env TransactionType.refund r.id ps) (λ _. announce >> finish) w w' h in
      let (x, v, f, f') = >>=-eq-ok announce (λ _. finish) u w' e' in
      let (y, v', g, g') =
        >>=-eq-ok (complete env merchant key r.id 201 saved)
          (λ _. pure {A = ℕ × RefundResponse} (201, refund_response r)) v w' f' in
      let same = pure-eq-ok {A = ℕ × RefundResponse} (201, refund_response r) answer v' w' g' in
      let keys =
        emit-keys env "refund" r.id "refund.completed" (refund_payload r) u v f
        ∙ ((post-SameOutside env TransactionType.refund r.id ps).at w u txn e).idempotency_keys in
      let found' : record_of merchant key v.db ≡ some found =
        ap (find_record merchant key) keys ∙ there in
      let stored = complete_with r.id 201 saved in
      let written : v'.db ≡ set_record merchant key stored v.db =
        complete-eq-ok env merchant key r.id 201 saved v v' g ∙ rw found' in
      (
        sym same.0,
        ap (λ (x : World). record_of merchant key x.db) (sym same.1)
            ∙ ap (record_of merchant key) written
            ∙ find_record-modify_self merchant key stored (λ z. refl) (λ z. refl) found
                v.idempotency_keys found',
      )

  refund_payment-IsReplayable :
      (answer : ℕ × RefundResponse) (found : IdempotencyRecord) (w w' : World)
      → record_of merchant key w.db ≡ some found
      → found.request_hash ≡ compute_hash env (refund_request id amount)
      → refund_payment env key id amount w ≡ (ok answer, w')
      → IsReplayable answer w'.db
  refund_payment-IsReplayable answer found w w' there hash h =
      let (row, loaded, refundable, within, e) =
        refund_payment-loads env key id amount answer w w' h in
      let r = recorded_at env key id amount row w in
      let start = world_at env key id amount row w in
      let (same, stored) = post_refund-completes row r answer found start w' there e in
      record {
        row = complete_with r.id 201 (refund_body (refund_response r)) found;
        found = stored;
        hash = hash;
        done = refl;
        code_lem = ap (λ (x : ℕ × RefundResponse). x.0) (sym same);
        body = ap (λ (x : ℕ × RefundResponse). refund_body x.1) (sym same);
      }

  fresh_refunds :
      (answer : ℕ × RefundResponse) (w w' : World)
      → replay_or_refund env key id amount none w ≡ (ok answer, w')
      → refund_payment env key id amount w ≡ (ok answer, w')
  unfolding replay_or_refund
  fresh_refunds answer w w' h = h

  replay_keeps :
      (code : ℕ) (body : ResponseBody) (answer : ℕ × RefundResponse) (w w' : World)
      → replay_or_refund env key id amount (some (code, body)) w ≡ (ok answer, w')
      → (code ≡ answer.0) × (body ≡ refund_body answer.1) × (w ≡ w')
  unfolding replay_or_refund
  replay_keeps code body answer w w' h =
      let rest = λ (response : RefundResponse). pure {A = ℕ × RefundResponse} (code, response) in
      let (response, v, e, e') = >>=-eq-ok (lift (parse_refund body)) rest w w' h in
      let parsed = lift-eq-ok (parse_refund body) response w v e in
      let same = pure-eq-ok {A = ℕ × RefundResponse} (code, response) answer v w' e' in
      (
        ap (λ (x : ℕ × RefundResponse). x.0) same.0,
        parse_refund-eq-ok body response parsed.0
            ∙ ap (λ (x : ℕ × RefundResponse). refund_body x.1) same.0,
        parsed.1 ∙ same.1,
      )

  pub refund-IsReplayable :
      (lock : Bool) (answer : ℕ × RefundResponse) (w w' : World)
      → refund env lock key id amount w ≡ (ok answer, w')
      → IsReplayable answer w'.db
  unfolding refund
  refund-IsReplayable lock answer w w' h =
      let payload = refund_request id amount in
      let (answered, v, e, e') =
        >>=-eq-ok (claim_or_replay env lock merchant key payload)
          (replay_or_refund env key id amount) w w' h in
      elim (Option-cases (record_of merchant key w.db)) [
        | inl missing ↦
            let (r, fresh, added, em, ek, eh, es) =
              claim-fresh env lock merchant key payload w v answered missing e in
            let there : record_of merchant key v.db ≡ some r =
              rw added (find_record-append_self merchant key r w.idempotency_keys missing em ek) in
            refund_payment-IsReplayable answer r v w' there eh
              (fresh_refunds answer v w' (rw fresh at e'))
        | inr (r, found) ↦
            let (c, kept) = claim-existing env lock merchant key payload w r found in
            let (hash, done, value) =
              answer-eq-ok key (compute_hash env payload) r answered
                (sym c ∙ ap (λ (x : Result (Option (ℕ × ResponseBody)) × World). x.0) e) in
            let (code, body, same) =
              replay_keeps (code_or_200 r.response_code) (body_or_empty r.response_body) answer v w'
                (rw value at e') in
            let still : w'.db ≡ w.db =
              ap (λ (x : World). x.db) (sym same)
              ∙ ap (λ (x : Result (Option (ℕ × ResponseBody)) × World). x.1.db) (sym e)
              ∙ kept in
            record {
              row = r;
              found = ap (record_of merchant key) still ∙ found;
              hash = hash;
              done = done;
              code_lem = code;
              body = body;
            }
      ]
