-- ===== src/DailyPush/Order.antt =====
-- The order of the queue in scripts/daily_push.py: `sort_key` of `get_pending_files`, `sorted`, and
-- `dict.fromkeys`, which keeps the first of equal files.
use Prim.Native.Nat.{Ordering}
use Prim.Native.String.{compare}
use apex_payments_engine.Prelude.{
  ℕ, String, str_eq, Bool, true, false, Option, none, some, leb, if◌then◌else◌, List, [], ◌∷◌,
}
use apex_payments_engine.DailyPush.Messages.{preferred_order, index_of}

-- The tuples (0, index) and (1, name).
pub data SortKey : Type 0 where
  preferred : ℕ → SortKey
  named : String → SortKey

abbrev key_at : String → Option ℕ → SortKey
key_at file (some i) = preferred i
key_at file none = named file

unfoldable pub sort_key : String → SortKey
sort_key file = key_at file (index_of file preferred_order)

abbrev pub not_gt : Ordering → Bool
not_gt Ordering.lt = true
not_gt Ordering.eq = true
not_gt Ordering.gt = false

-- `<=` on strings and on the tuples.
abbrev pub leb_text : String → String → Bool
leb_text s t = not_gt (compare s t)

abbrev pub leb_key : SortKey → SortKey → Bool
leb_key (preferred i) (preferred j) = leb i j
leb_key (preferred i) (named t) = true
leb_key (named s) (preferred j) = false
leb_key (named s) (named t) = leb_text s t

unfoldable pub insert_file : String → List String → List String
insert_file file [] = file ∷ []
insert_file file (f ∷ fs) =
    let rest = insert_file file fs in
    if leb_key (sort_key file) (sort_key f) then file ∷ f ∷ fs else f ∷ rest

unfoldable pub sort_files : List String → List String
sort_files [] = []
sort_files (f ∷ fs) = insert_file f (sort_files fs)

unfoldable pub without : String → List String → List String
without file [] = []
without file (f ∷ fs) = let rest = without file fs in if str_eq file f then rest else f ∷ rest

unfoldable pub fromkeys : List String → List String
fromkeys [] = []
fromkeys (f ∷ fs) = f ∷ without f (fromkeys fs)
