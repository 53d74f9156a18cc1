-- ===== src/DailyPush/Days.antt =====
-- The days of the listing of scripts/daily_push.py put together are the queue.
use apex_payments_engine.Prelude.{
  Bool-cases, leb, ℕ, zero, suc, ◌+◌, ◌-◌, ◌≤◌, ◌≡◌, refl, ap, sym, ◌∙◌, inl, inr, String, List, [],
  ◌∷◌, ◌++◌, map, length, take, arith,
}
use Prim.Native.Nat.{◌/◌}
use native.Mathlib.Nat.{div-eq_of_lt, div-eq-sub-div}
use apex_payments_engine.Prelude.Int.{pos, ◌+ℤ◌, ◌-ℤ◌}
use apex_payments_engine.DailyPush.Schedule.{
  Day, days, rest_from, with_message, days_from, floor_div, listing,
}

abbrev pub names : List (String × String) → List String
names [] = []
names (entry ∷ entries) = entry.0 ∷ names entries

-- The files of all days, one day after the other.
abbrev pub all_files : List Day → List String
all_files [] = []
all_files (d ∷ ds) = names d.day_files ++ all_files ds

-- The days have numbers that follow each other, and each has one to `n` files.
abbrev pub IsSchedule : ℕ → ℕ → List Day → Type 0
IsSchedule n num [] = Unit
IsSchedule n num (d ∷ ds) =
    (d.day_num ≡ num)
    × (1 ≤ length d.day_files)
    × (length d.day_files ≤ n)
    × IsSchedule n (suc num) ds

names-map : (files : List String) → names (map with_message files) ≡ files
names-map [] = refl
names-map (f ∷ fs) = ap (λ gs. f ∷ gs) (names-map fs)

length-map : (files : List String) → length (map with_message files) ≡ length files
length-map [] = refl
length-map (f ∷ fs) = omega (arith, length-map fs)

take-rest : (n : ℕ) (files : List String) → take n files ++ rest_from n files ≡ files
take-rest zero files = refl
take-rest (suc n) [] = refl
take-rest (suc n) (f ∷ fs) = ap (λ gs. f ∷ gs) (take-rest n fs)

length-take_le : (n : ℕ) (files : List String) → length (take n files) ≤ n
length-take_le zero files = omega arith
length-take_le (suc n) [] = omega arith
length-take_le (suc n) (f ∷ fs) = omega (arith, length-take_le n fs)

length-rest : (n : ℕ) (files : List String) → length (rest_from n files) ≡ length files - n
length-rest zero files = omega arith
length-rest (suc n) [] = omega arith
length-rest (suc n) (f ∷ fs) = omega (arith, length-rest n fs)

suc_le_zero : (n : ℕ) → ¬ (suc n ≤ 0)
suc_le_zero n h = omega arith

all_files-days_from :
    (fuel num n : ℕ) (files : List String)
    → length files ≤ fuel
    → all_files (days_from fuel num (suc n) files) ≡ files
unfolding days_from
all_files-days_from zero num n [] enough = refl
all_files-days_from zero num n (f ∷ fs) enough = absurd (suc_le_zero (length fs) enough)
all_files-days_from (suc fuel) num n [] enough = refl
all_files-days_from (suc fuel) num n (f ∷ fs) enough =
    rw
      (
        names-map (take n fs),
        all_files-days_from fuel (suc num) n (rest_from n fs) (omega (arith, length-rest n fs)),
      )
      (ap (λ gs. f ∷ gs) (take-rest n fs))

IsSchedule-days_from :
    (fuel num n : ℕ) (files : List String)
    → IsSchedule (suc n) num (days_from fuel num (suc n) files)
unfolding days_from
IsSchedule-days_from zero num n files = tt
IsSchedule-days_from (suc fuel) num n [] = tt
IsSchedule-days_from (suc fuel) num n (f ∷ fs) = (
  refl,
  omega arith,
  omega (arith, length-map (take n fs), length-take_le n fs),
  IsSchedule-days_from fuel (suc num) n (rest_from n fs),
)

same_quotient : (k n : ℕ) → k / suc n ≡ (k - n + n) / suc n
same_quotient k n = elim (Bool-cases (leb n k)) [
  | inl above ↦ ap (λ m. m / suc n) (ground arith)
  | inr below ↦ div-eq_of_lt (ground arith) ∙ sym (div-eq_of_lt (ground arith))
]

cancelled : (k n : ℕ) → suc k + n - suc n ≡ k
cancelled k n = omega arith

-- One day more for each `n + 1` files.
ceil_step : (k n : ℕ) → (suc k + n) / suc n ≡ suc ((k - n + n) / suc n)
ceil_step k n = omega (
  arith,
  div-eq-sub-div {m = suc n} {n = suc k + n} (omega arith) (omega arith),
  same_quotient k n,
  ap (λ m. m / suc n) (cancelled k n),
)

days_needed_lem :
    (fuel num n : ℕ) (files : List String)
    → length files ≤ fuel
    → (length files + n) / suc n ≡ length (days_from fuel num (suc n) files)
unfolding days_from
days_needed_lem zero num n [] enough = div-eq_of_lt (omega arith)
days_needed_lem zero num n (f ∷ fs) enough = absurd (suc_le_zero (length fs) enough)
days_needed_lem (suc fuel) num n [] enough = div-eq_of_lt (omega arith)
days_needed_lem (suc fuel) num n (f ∷ fs) enough =
    ceil_step (length fs) n
    ∙ ap suc (
        ap (λ m. (m + n) / suc n) (sym (length-rest n fs))
        ∙ days_needed_lem fuel (suc num) n (rest_from n fs) (omega (arith, length-rest n fs)))

numerator : (l n : ℕ) → pos l +ℤ pos (suc n) -ℤ pos 1 ≡ pos (l + n)
unfolding ◌+ℤ◌ ◌-ℤ◌
numerator l n = ground arith

-- With `n + 1` files a day, the listing of a queue has as many days as it says are needed; they are
-- numbered from 1, each has at least one file and at most `n + 1`, and the files of all days, one
-- day after the other, are the queue.
pub listing_lem :
    (n : ℕ) (pending : List String)
    → (ds : List Day) × (listing (pos (suc n)) pending ≡ days (pos (length ds)) ds)
      × IsSchedule (suc n) 1 ds
      × (all_files ds ≡ pending)
unfolding listing
listing_lem n pending = (
  days_from (length pending) 1 (suc n) pending,
  ap (λ d. days d (days_from (length pending) 1 (suc n) pending))
      (ap (λ a. floor_div a (suc n)) (numerator (length pending) n)
        ∙ ap pos (days_needed_lem (length pending) 1 n pending (omega arith))),
  IsSchedule-days_from (length pending) 1 n pending,
  all_files-days_from (length pending) 1 n pending (omega arith),
)
