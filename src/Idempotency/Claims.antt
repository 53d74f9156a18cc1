-- ===== src/Idempotency/Claims.antt =====
-- The outcomes of a claim, and what a completed claim replays.
use apex_payments_engine.Prelude.{
  ℕ, suc, ◌≡◌, refl, ◌∙◌, String, Bool, true, false, not, Option, none, some, arith, str_eq,
  str_eq_iff, str_eq_refl, if◌then◌else◌,
}
use apex_payments_engine.Domain.Enums.{in_progress, completed}
use apex_payments_engine.Domain.Exceptions.{
  Uuid, domain, idempotency_conflict, idempotency_mismatch,
}
use apex_payments_engine.Schemas.{ResponseBody}
use apex_payments_engine.Domain.Models.{IdempotencyRecord}
use apex_payments_engine.Session.{
  AcceptsAll, Environment, RequestPayload, World, Result, ok, err, ◌>>=◌,
}
use apex_payments_engine.Idempotency.{
  record_of, add_record, set_record, code_or_200, body_or_empty, compute_hash, claim_or_replay,
  complete, complete_with,
}
use apex_payments_engine.Idempotency.Records.{find_record-append_self, find_record-modify_self}

-- What a key that has a row answers to a request with the hash `req_hash`.
abbrev pub answer : String → String → IdempotencyRecord → Result (Option (ℕ × ResponseBody))
answer idem_key req_hash r =
    if not (str_eq r.request_hash req_hash)
    then err (domain (idempotency_mismatch idem_key))
    else elim r.status [
      | in_progress ↦ err (domain (idempotency_conflict idem_key))
      | completed ↦ ok (some (code_or_200 r.response_code, body_or_empty r.response_body))
    ]

-- The only row that answers a claim with a stored response is a completed one of the same hash.
pub answer-eq-ok :
    (k hash : String) (r : IdempotencyRecord) (answered : Option (ℕ × ResponseBody))
    → answer k hash r ≡ ok answered
    → (r.request_hash ≡ hash)
      × (r.status ≡ completed)
      × (answered ≡ some (code_or_200 r.response_code, body_or_empty r.response_body))
answer-eq-ok k hash r answered h = ground (arith, str_eq_iff r.request_hash hash)

module _ (env : Environment) (lock : Bool) (m k : String) (payload : RequestPayload)
    (w : World) where
  -- With or without the Redis lock, and whatever it answers: for a key that has a row, a claim
  -- with another payload hash is a mismatch, one on a row in progress is a conflict, one on a
  -- completed row replays its code and body, and no table changes.
  pub claim-existing :
      (r : IdempotencyRecord)
      → record_of m k w.db ≡ some r
      → ((claim_or_replay env lock m k payload w).0 ≡ answer k (compute_hash env payload) r)
        × ((claim_or_replay env lock m k payload w).1.db ≡ w.db)
  unfolding claim_or_replay ◌>>=◌
  claim-existing r found = ground arith

  -- The row that a claim adds; the lock, if there is one, is asked first.
  abbrev claimed : IdempotencyRecord
  claimed = record {
    merchant_id = m;
    idem_key = k;
    request_hash = compute_hash env payload;
    status = in_progress;
    resource_id = none;
    response_code = none;
    response_body = none;
    created_at = env.now (if lock then suc w.calls else w.calls);
  }

  -- A claim of a key with no row returns `none`, if it returns, and has added the row in progress.
  pub claim-fresh :
      (w' : World) (answered : Option (ℕ × ResponseBody))
      → record_of m k w.db ≡ none
      → claim_or_replay env lock m k payload w ≡ (ok answered, w')
      → (r : IdempotencyRecord) × (answered ≡ none)
        × (w'.db ≡ add_record r w.db)
        × (r.merchant_id ≡ m)
        × (r.idem_key ≡ k)
        × (r.request_hash ≡ compute_hash env payload)
        × (r.status ≡ in_progress)
  unfolding claim_or_replay ◌>>=◌
  claim-fresh w' answered missing h = (claimed, ground arith, ground arith, refl, refl, refl, refl)

-- A claim of a key with no row returns `none`, if the database takes every write.
pub claim_fresh-returns :
    (env : Environment) (accepts : AcceptsAll env) (lock : Bool) (m k : String)
    (payload : RequestPayload) (w : World)
    → record_of m k w.db ≡ none
    → (w' : World) × (claim_or_replay env lock m k payload w ≡ (ok none, w'))
unfolding claim_or_replay ◌>>=◌
claim_fresh-returns env accepts true m k payload w missing =
    let u = (claim_or_replay env true m k payload w).1 in
    (u, ground (arith, missing, accepts (suc (suc w.calls)) u.db))
claim_fresh-returns env accepts false m k payload w missing =
    let u = (claim_or_replay env false m k payload w).1 in
    (u, ground (arith, missing, accepts (suc w.calls) u.db))

-- If a key has no row and a claim of it returns, a second claim of the key with the same payload,
-- in the state that the first one leaves, raises a conflict, with or without the lock in either
-- claim.
pub claim_excludes :
    (env : Environment) (lock lock' : Bool) (m k : String) (payload : RequestPayload) (w w' : World)
    (answered : Option (ℕ × ResponseBody))
    → record_of m k w.db ≡ none
    → claim_or_replay env lock m k payload w ≡ (ok answered, w')
    → (claim_or_replay env lock' m k payload w').0 ≡ err (domain (idempotency_conflict k))
claim_excludes env lock lock' m k payload w w' answered missing h =
    let (r, e, added, em, ek, eh, es) = claim-fresh env lock m k payload w w' answered missing h in
    let found : record_of m k w'.db ≡ some r =
      rw added (find_record-append_self m k r w.db.idempotency_keys missing em ek) in
    (claim-existing env lock' m k payload w' r found).0 ∙ rw (eh, es, str_eq_refl) refl

-- What `complete` does to the row that it finds.
pub complete-eq-ok :
    (env : Environment) (m k : String) (id : Uuid) (code : ℕ) (body : ResponseBody) (w w' : World)
    → complete env m k id code body w ≡ (ok tt, w')
    → w'.db ≡ (elim (record_of m k w.db) [
      | none ↦ w.db
      | some r ↦ set_record m k (complete_with id code body) w.db
    ])
unfolding complete ◌>>=◌
complete-eq-ok env m k id code body w w' h = ground arith

-- `complete` writes no other table.
pub complete-keeps :
    (env : Environment) (m k : String) (id : Uuid) (code : ℕ) (body : ResponseBody) (w w' : World)
    → complete env m k id code body w ≡ (ok tt, w')
    → w'.db ≡ record w.db { idempotency_keys = w'.idempotency_keys }
unfolding complete ◌>>=◌
complete-keeps env m k id code body w w' h = ground arith

module _ (env : Environment) (m k : String) (w : World) (r : IdempotencyRecord) where
  -- After a `complete` that returned, on a key that has a row, a claim with the payload of that
  -- row replays the completed code (200 for the code 0) and body, and changes no table.
  pub complete-replays :
      (lock : Bool) (payload : RequestPayload) (id : Uuid) (code : ℕ) (body : ResponseBody)
      (w' : World)
      → record_of m k w.db ≡ some r
      → r.request_hash ≡ compute_hash env payload
      → complete env m k id code body w ≡ (ok tt, w')
      → ((claim_or_replay env lock m k payload w').0 ≡ ok (some (code_or_200 (some code), body)))
        × ((claim_or_replay env lock m k payload w').1.db ≡ w'.db)
  complete-replays lock payload id code body w' found eh h =
      let done = complete_with id code body in
      let written : w'.db ≡ set_record m k done w.db =
        complete-eq-ok env m k id code body w w' h ∙ rw found in
      let found' : record_of m k w'.db ≡ some (done r) =
        rw written (
          find_record-modify_self m k done (λ x. refl) (λ x. refl) r w.db.idempotency_keys found) in
      let c = claim-existing env lock m k payload w' (done r) found' in
      (c.0 ∙ rw (eh, str_eq_refl) refl, c.1)
