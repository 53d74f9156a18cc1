-- ===== src/Idempotency/Records.antt =====
-- The table of idempotency keys under an insert and under an update.
use apex_payments_engine.Prelude.{
  ◌≡◌, ◌&&◌, refl, String, Bool, false, none, some, List, [], ◌∷◌, ◌++◌, arith, str_eq, str_eq_iff,
  str_eq_refl,
}
use apex_payments_engine.Domain.Models.{IdempotencyRecord}
use apex_payments_engine.Idempotency.{find_record, modify_record}

abbrev pub same_key : String → String → String → String → Bool
same_key m k m' k' = str_eq m m' && str_eq k k'

module _ (m k : String) where
  pub find_record-append_self :
      (r : IdempotencyRecord) (rs : List IdempotencyRecord)
      → find_record m k rs ≡ none
      → r.merchant_id ≡ m
      → r.idem_key ≡ k
      → find_record m k (rs ++ r ∷ []) ≡ some r
  unfolding find_record
  find_record-append_self r [] h em ek = rw (em, ek, str_eq_refl, str_eq_refl)
  find_record-append_self r (x ∷ rs) h em ek = ground (arith, find_record-append_self r rs)

  pub find_record-append_ne :
      (m' k' : String) (r : IdempotencyRecord) (rs : List IdempotencyRecord)
      → r.merchant_id ≡ m'
      → r.idem_key ≡ k'
      → same_key m' k' m k ≡ false
      → find_record m k (rs ++ r ∷ []) ≡ find_record m k rs
  unfolding find_record
  find_record-append_ne m' k' r [] em ek ne = ground arith
  find_record-append_ne m' k' r (x ∷ rs) em ek ne = ground (arith, find_record-append_ne m' k' r rs)

  module _ (f : IdempotencyRecord → IdempotencyRecord)
      (same_merchant : (r : IdempotencyRecord) → (f r).merchant_id ≡ r.merchant_id)
      (same_idem_key : (r : IdempotencyRecord) → (f r).idem_key ≡ r.idem_key) where
    pub find_record-modify_self :
        (r : IdempotencyRecord) (rs : List IdempotencyRecord)
        → find_record m k rs ≡ some r
        → find_record m k (modify_record m k f rs) ≡ some (f r)
    unfolding find_record modify_record
    find_record-modify_self r [] h = ground arith
    find_record-modify_self r (x ∷ rs) h =
        ground (arith, same_merchant x, same_idem_key x, find_record-modify_self r rs)

    pub find_record-modify_ne :
        (m' k' : String) (rs : List IdempotencyRecord)
        → same_key m k m' k' ≡ false
        → find_record m' k' (modify_record m k f rs) ≡ find_record m' k' rs
    unfolding find_record modify_record
    find_record-modify_ne m' k' [] ne = refl
    find_record-modify_ne m' k' (x ∷ rs) ne = ground (
      arith,
      same_merchant x,
      same_idem_key x,
      str_eq_iff x.merchant_id m,
      str_eq_iff x.idem_key k,
      str_eq_iff x.merchant_id m',
      str_eq_iff x.idem_key k',
      str_eq_iff m m',
      str_eq_iff k k',
      find_record-modify_ne m' k' rs,
    )
