-- ===== src/Ledger/Locks.antt =====
-- The order in which `post` locks the balance rows: increasing, each account of the postings once.
use apex_payments_engine.Prelude.{◌<◌, ◌≡◌, refl, Bool, false, List, [], ◌∷◌, arith, ◌==◌, ◌||◌}
use apex_payments_engine.Domain.Exceptions.{Uuid}
use apex_payments_engine.Ledger.{Posting, insert_id, sorted_account_ids}

abbrev pub contains : Uuid → List Uuid → Bool
contains a [] = false
contains a (b ∷ ids) = a == b || contains a ids

-- `a` is below every id of the list.
abbrev pub IsBelow : Uuid → List Uuid → Type 0
IsBelow a [] = Unit
IsBelow a (b ∷ ids) = (a < b) × IsBelow a ids

abbrev pub IsIncreasing : List Uuid → Type 0
IsIncreasing [] = Unit
IsIncreasing (a ∷ ids) = IsBelow a ids × IsIncreasing ids

-- Some posting is to the account `a`.
abbrev pub has_posting : Uuid → List Posting → Bool
has_posting a [] = false
has_posting a (p ∷ ps) = a == p.account_id || has_posting a ps

IsBelow-trans : (a b : Uuid) (ids : List Uuid) → a < b → IsBelow b ids → IsBelow a ids
IsBelow-trans a b [] h k = tt
IsBelow-trans a b (c ∷ ids) h k = (omega arith, IsBelow-trans a b ids h k.1)

insert_id-IsBelow :
    (a b : Uuid) (ids : List Uuid) → b < a → IsBelow b ids → IsBelow b (insert_id a ids)
unfolding insert_id
insert_id-IsBelow a b [] h k = (h, tt)
insert_id-IsBelow a b (c ∷ ids) h k = ground (arith, insert_id-IsBelow a b ids h k.1)

insert_id-IsIncreasing :
    (a : Uuid) (ids : List Uuid) → IsIncreasing ids → IsIncreasing (insert_id a ids)
unfolding insert_id
insert_id-IsIncreasing a [] h = (tt, tt)
insert_id-IsIncreasing a (b ∷ ids) h =
    ground
      (arith, insert_id-IsIncreasing a ids h.1, insert_id-IsBelow a b ids, IsBelow-trans a b ids)

contains-insert_id :
    (a b : Uuid) (ids : List Uuid) → contains a (insert_id b ids) ≡ (a == b || contains a ids)
unfolding insert_id
contains-insert_id a b [] = ground arith
contains-insert_id a b (c ∷ ids) = ground (arith, contains-insert_id a b ids)

pub sorted_account_ids-IsIncreasing : (ps : List Posting) → IsIncreasing (sorted_account_ids ps)
unfolding sorted_account_ids
sorted_account_ids-IsIncreasing [] = tt
sorted_account_ids-IsIncreasing (p ∷ ps) =
    insert_id-IsIncreasing p.account_id (sorted_account_ids ps) (sorted_account_ids-IsIncreasing ps)

pub contains-sorted_account_ids :
    (a : Uuid) (ps : List Posting) → contains a (sorted_account_ids ps) ≡ has_posting a ps
unfolding sorted_account_ids
contains-sorted_account_ids a [] = refl
contains-sorted_account_ids a (p ∷ ps) =
    rw (contains-insert_id a p.account_id (sorted_account_ids ps), contains-sorted_account_ids a ps)

-- The rows are locked in strictly increasing order of their account ids, and the locked accounts
-- are exactly those of the postings.
sorted_account_ids_lem :
    (ps : List Posting)
    → IsIncreasing (sorted_account_ids ps)
      × ((a : Uuid) → contains a (sorted_account_ids ps) ≡ has_posting a ps)
sorted_account_ids_lem ps =
    (sorted_account_ids-IsIncreasing ps, λ a. contains-sorted_account_ids a ps)
