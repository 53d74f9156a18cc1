-- ===== src/Idempotency/Frame.antt =====
-- A claim and its completion write the idempotency keys only.
use apex_payments_engine.Prelude.{
  ℕ, ◌≡◌, refl, ap, ◌∙◌, String, Bool, true, false, Option, none, some,
}
use apex_payments_engine.Domain.Enums.{IdempotencyStatus, in_progress, completed}
use apex_payments_engine.Domain.Exceptions.{Uuid}
use apex_payments_engine.Domain.Models.{IdempotencyRecord, Database}
use apex_payments_engine.Schemas.{ResponseBody}
use apex_payments_engine.Session.{Environment, RequestPayload}
use apex_payments_engine.Session.Ensures.{IsPreorder, Ensures, ensures_rules}
use apex_payments_engine.Idempotency.{
  acquire, fast_path, new_claim, replay_by_status, replay_record, check_record, claim_or_replay,
  complete_found, complete,
}

pub record OnlyKeys (d e : Database) : Type 0 where
  pub rest : e ≡ record d { idempotency_keys = e.idempotency_keys }

OnlyKeys-preorder : IsPreorder OnlyKeys
OnlyKeys-preorder = record {
  here = λ d. record { rest = refl };
  step = λ d e f h k. record {
    rest =
        k.rest ∙ ap (λ (x : Database). record x { idempotency_keys = f.idempotency_keys }) h.rest;
  };
}

write_keys :
    (d e : Database) → e ≡ record d { idempotency_keys = e.idempotency_keys } → OnlyKeys d e
write_keys d e h = record { rest = h }

ruleset keys_rules = (OnlyKeys-preorder, ensures_rules, write_keys, refl)

module _ (env : Environment) where
  fast_path-OnlyKeys :
      (lock : Bool) (m k hash : String) → Ensures OnlyKeys (fast_path env lock m k hash)
  unfolding fast_path acquire
  fast_path-OnlyKeys true m k hash = search keys_rules depth 9
  fast_path-OnlyKeys false m k hash = search keys_rules depth 9

  replay_by_status-OnlyKeys :
      (k : String) (s : IdempotencyStatus) (r : IdempotencyRecord)
      → Ensures OnlyKeys (replay_by_status env k s r)
  unfolding replay_by_status
  replay_by_status-OnlyKeys k in_progress r = search keys_rules
  replay_by_status-OnlyKeys k completed r = search keys_rules

  check_record-OnlyKeys :
      (m k hash : String) (found : Option IdempotencyRecord)
      → Ensures OnlyKeys (check_record env m k hash found)
  unfolding check_record new_claim replay_record
  check_record-OnlyKeys m k hash none = search keys_rules depth 9
  check_record-OnlyKeys m k hash (some r) = search (keys_rules, replay_by_status-OnlyKeys) depth 9

  pub claim_or_replay-OnlyKeys :
      (lock : Bool) (m k : String) (payload : RequestPayload)
      → Ensures OnlyKeys (claim_or_replay env lock m k payload)
  unfolding claim_or_replay
  claim_or_replay-OnlyKeys lock m k payload =
      search (keys_rules, fast_path-OnlyKeys, check_record-OnlyKeys) depth 9

  complete_found-OnlyKeys :
      (found : Option IdempotencyRecord) (m k : String) (id : Uuid) (code : ℕ) (body : ResponseBody)
      → Ensures OnlyKeys (complete_found env found m k id code body)
  unfolding complete_found
  complete_found-OnlyKeys none m k id code body = search keys_rules
  complete_found-OnlyKeys (some r) m k id code body = search keys_rules depth 9

  pub complete-OnlyKeys :
      (m k : String) (id : Uuid) (code : ℕ) (body : ResponseBody)
      → Ensures OnlyKeys (complete env m k id code body)
  unfolding complete
  complete-OnlyKeys m k id code body = search (keys_rules, complete_found-OnlyKeys) depth 9
