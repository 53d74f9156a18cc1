-- ===== src/DailyPush/Schedule.antt =====
-- The listing of the queue by days: `list_queue` of scripts/daily_push.py on the pending files. What
-- it prints of them is its value.
use apex_payments_engine.Prelude.{ℕ, zero, suc, String, List, [], ◌∷◌, map, length, take}
use Prim.Native.Nat.{◌/◌}
use apex_payments_engine.Prelude.Int.{ℤ, pos, negsuc, ◌+ℤ◌, ◌-ℤ◌}
use apex_payments_engine.DailyPush.Messages.{generate_commit_message}

-- A day of the listing: its number, and its files with their messages.
pub record Day : Type 0 where
  pub day_num : ℕ
  pub day_files : List (String × String)

pub data Listing : Type 0 where
  clean zero_division_error : Listing
  days : ℤ → List Day → Listing

abbrev pub rest_from : ℕ → List String → List String
rest_from zero files = files
rest_from (suc n) [] = []
rest_from (suc n) (f ∷ fs) = rest_from n fs

abbrev pub with_message : String → String × String
with_message file = (file, generate_commit_message file)

-- The loop over range(0, len(pending), per_day) from the day `num` on; each round takes at least
-- one file, so that one round for each file is enough.
unfoldable pub days_from : ℕ → ℕ → ℕ → List String → List Day
days_from zero num per_day files = []
days_from (suc fuel) num per_day [] = []
days_from (suc fuel) num per_day (f ∷ fs) =
    record { day_num = num; day_files = map with_message (take per_day (f ∷ fs)) }
    ∷ days_from fuel (suc num) per_day (rest_from per_day (f ∷ fs))

-- `a // n` for a positive n, rounded down.
abbrev pub floor_div : ℤ → ℕ → ℤ
floor_div (pos a) n = pos (a / n)
floor_div (negsuc a) n = negsuc (a / n)

-- (len(pending) + per_day - 1) // per_day, where a negative divisor divides the negated number.
unfoldable pub listing : ℤ → List String → Listing
listing (pos zero) pending = zero_division_error
listing (pos (suc n)) pending =
    days (floor_div (pos (length pending) +ℤ pos (suc n) -ℤ pos 1) (suc n))
      (days_from (length pending) 1 (suc n) pending)
listing (negsuc n) pending =
    days (floor_div (pos 1 -ℤ (pos (length pending) +ℤ negsuc n)) (suc n)) []
