-- ===== src/Idempotency.antt =====
-- app/application/idempotency_service.py and the lock of app/infrastructure/redis_client.py.
pub mod Records
pub mod Claims
pub mod Frame
use Prim.Native.String.{◌++◌ as append}
use apex_payments_engine.Prelude.{
  ℕ, String, Bool, true, false, ◌&&◌, not, Option, none, some, List, [], ◌∷◌, ◌++◌, ◌==◌, str_eq,
  if◌then◌else◌,
}
use apex_payments_engine.Domain.Enums.{IdempotencyStatus}
use apex_payments_engine.Domain.Exceptions.{
  Uuid, domain, idempotency_conflict, idempotency_mismatch,
}
use apex_payments_engine.Schemas.{ResponseBody, empty_body}
use apex_payments_engine.Domain.Models.{IdempotencyRecord, Database}
use apex_payments_engine.Session.{
  Environment, RequestPayload, Action, pure, raise, gets, external, ◌>>=◌, ◌>>◌, update, flush,
}

-- The row of a merchant and a key, of which the constraint `uq_idempotency_merchant_key` admits one.
unfoldable pub find_record : String → String → List IdempotencyRecord → Option IdempotencyRecord
find_record m k [] = none
find_record m k (r ∷ rs) =
    if str_eq r.merchant_id m && str_eq r.idem_key k then some r else find_record m k rs

unfoldable pub modify_record :
    String
    → String
    → (IdempotencyRecord → IdempotencyRecord)
    → List IdempotencyRecord
    → List IdempotencyRecord
modify_record m k f [] = []
modify_record m k f (r ∷ rs) =
    if str_eq r.merchant_id m && str_eq r.idem_key k then f r ∷ rs else r ∷ modify_record m k f rs

abbrev pub record_of : String → String → Database → Option IdempotencyRecord
record_of m k d = find_record m k d.idempotency_keys

abbrev pub add_record : IdempotencyRecord → Database → Database
add_record r d = record d { idempotency_keys = d.idempotency_keys ++ r ∷ [] }

abbrev pub set_record :
    String → String → (IdempotencyRecord → IdempotencyRecord) → Database → Database
set_record m k f d = record d { idempotency_keys = modify_record m k f d.idempotency_keys }

-- A stored code and body; Python's `or` takes the default for 0 and for the empty dictionary too.
abbrev pub code_or_200 : Option ℕ → ℕ
code_or_200 none = 200
code_or_200 (some n) = if n == 0 then 200 else n

abbrev pub body_or_empty : Option ResponseBody → ResponseBody
body_or_empty none = empty_body
body_or_empty (some b) = b

abbrev pub complete_with : Uuid → ℕ → ResponseBody → IdempotencyRecord → IdempotencyRecord
complete_with resource_id response_code response_body r = record r {
  status = IdempotencyStatus.completed;
  resource_id = some resource_id;
  response_code = some response_code;
  response_body = some response_body;
}

module _ (env : Environment) where
  unfoldable pub compute_hash : RequestPayload → String
  compute_hash payload = env.sha256_hex (env.dumps payload)

  -- SET NX EX; a failure of Redis counts as a lock that was acquired.
  unfoldable pub acquire : String → String → String → Action Bool
  acquire merchant_id idempotency_key request_hash = do
    let key : String = append "idem:" (append merchant_id (append ":" idempotency_key))
    answer ← external (λ n. env.set_nx n key request_hash 60)
    pure (elim answer [ none ↦ true | some b ↦ b ])

  -- `if self.lock: await self.lock.acquire(...)`: the answer is not used.
  unfoldable pub fast_path : Bool → String → String → String → Action Unit
  fast_path true merchant_id idem_key req_hash = do acquire merchant_id idem_key req_hash; pure tt
  fast_path false merchant_id idem_key req_hash = pure tt

  unfoldable pub new_claim : String → String → String → Action (Option (ℕ × ResponseBody))
  new_claim merchant_id idem_key req_hash = do
    t ← external env.now
    update (
        add_record (record {
          merchant_id = merchant_id;
          idem_key = idem_key;
          request_hash = req_hash;
          status = IdempotencyStatus.in_progress;
          resource_id = none;
          response_code = none;
          response_body = none;
          created_at = t;
        }))
    flush env
    pure none

  unfoldable pub replay_by_status :
      String → IdempotencyStatus → IdempotencyRecord → Action (Option (ℕ × ResponseBody))
  replay_by_status idem_key IdempotencyStatus.in_progress r =
      raise (domain (idempotency_conflict idem_key))
  replay_by_status idem_key IdempotencyStatus.completed r =
      pure (some (code_or_200 r.response_code, body_or_empty r.response_body))

  -- The checks of a row that exists.
  unfoldable pub replay_record :
      String → String → IdempotencyRecord → Action (Option (ℕ × ResponseBody))
  unfolding replay_by_status
  replay_record idem_key req_hash r =
      if not (str_eq r.request_hash req_hash)
      then raise (domain (idempotency_mismatch idem_key))
      else replay_by_status idem_key r.status r

  unfoldable pub check_record :
      String → String → String → Option IdempotencyRecord → Action (Option (ℕ × ResponseBody))
  unfolding replay_record new_claim
  check_record merchant_id idem_key req_hash none = new_claim merchant_id idem_key req_hash
  check_record merchant_id idem_key req_hash (some r) = replay_record idem_key req_hash r

  -- `none`: the caller has claimed the key. `some`: the stored response, to be replayed.
  unfoldable pub claim_or_replay :
      Bool → String → String → RequestPayload → Action (Option (ℕ × ResponseBody))
  unfolding compute_hash fast_path acquire check_record
  claim_or_replay lock merchant_id idem_key payload = do
    let req_hash : String = compute_hash payload
    fast_path lock merchant_id idem_key req_hash
    found ← gets (record_of merchant_id idem_key)
    check_record merchant_id idem_key req_hash found

  unfoldable pub complete_found :
      Option IdempotencyRecord → String → String → Uuid → ℕ → ResponseBody → Action Unit
  complete_found none merchant_id idem_key resource_id response_code response_body = pure tt
  complete_found (some r) merchant_id idem_key resource_id response_code response_body = do
    update (set_record merchant_id idem_key (complete_with resource_id response_code response_body))
    flush env

  unfoldable pub complete : String → String → Uuid → ℕ → ResponseBody → Action Unit
  unfolding complete_found
  complete merchant_id idem_key resource_id response_code response_body = do
    found ← gets (record_of merchant_id idem_key)
    complete_found found merchant_id idem_key resource_id response_code response_body
