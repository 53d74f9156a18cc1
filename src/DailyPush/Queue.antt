-- ===== src/DailyPush/Queue.antt =====
-- The queue of scripts/daily_push.py: each file once, those of PREFERRED_ORDER first and in its order,
-- the others after them by name.
use apex_payments_engine.Prelude.{
  ◌≡◌, refl, ap, ◌∙◌, String, str_eq, Bool, true, false, ◌||◌, inl, inr, Bool-cases, List, [], ◌∷◌,
  arith,
}
use apex_payments_engine.DailyPush.Order.{sort_key, leb_key, insert_file, sort_files, fromkeys}
use apex_payments_engine.DailyPush.TotalOrder.{leb_key-total}
use apex_payments_engine.DailyPush.Unique.{
  or_swap, has, IsUnique, has-fromkeys, str_eq_sym, fromkeys-IsUnique,
}
use apex_payments_engine.DailyPush.{
  Command, Repository, collected, get_pending_files, run_cmd, status_command,
}

-- No file stands before one whose key is smaller.
abbrev pub IsOrdered : List String → Type 0
IsOrdered [] = Unit
IsOrdered (f ∷ []) = Unit
IsOrdered (f ∷ g ∷ fs) = (leb_key (sort_key f) (sort_key g) ≡ true) × IsOrdered (g ∷ fs)

insert_file-cons :
    (f g h : String) (hs : List String)
    → leb_key (sort_key g) (sort_key f) ≡ true
    → leb_key (sort_key g) (sort_key h) ≡ true
    → IsOrdered (insert_file f (h ∷ hs))
    → IsOrdered (g ∷ insert_file f (h ∷ hs))
unfolding insert_file
insert_file-cons f g h hs k l o = ground (arith, k, l, o)

insert_file-IsOrdered :
    (f : String) (gs : List String) → IsOrdered gs → IsOrdered (insert_file f gs)
unfolding insert_file
insert_file-IsOrdered f [] o = tt
insert_file-IsOrdered f (g ∷ []) o = ground (arith, leb_key-total (sort_key f) (sort_key g))
insert_file-IsOrdered f (g ∷ h ∷ hs) o = elim (Bool-cases (leb_key (sort_key f) (sort_key g))) [
  | inl before ↦ rw before (before, o)
  | inr after ↦ rw after (
      insert_file-cons f g h hs (leb_key-total (sort_key f) (sort_key g) after) o.0
        (insert_file-IsOrdered f (h ∷ hs) o.1))
]

sort_files-IsOrdered : (fs : List String) → IsOrdered (sort_files fs)
unfolding sort_files
sort_files-IsOrdered [] = tt
sort_files-IsOrdered (f ∷ fs) = insert_file-IsOrdered f (sort_files fs) (sort_files-IsOrdered fs)

or_false : (x y : Bool) → x || y ≡ false → (x ≡ false) × (y ≡ false)
or_false true y h = cc
or_false false y h = (refl, h)

has-insert_file :
    (file f : String) (gs : List String)
    → has file (insert_file f gs) ≡ (str_eq file f || has file gs)
unfolding insert_file
has-insert_file file f [] = refl
has-insert_file file f (g ∷ gs) = elim (Bool-cases (leb_key (sort_key f) (sort_key g))) [
  | inl before ↦ rw before refl
  | inr after ↦
      rw (after, has-insert_file file f gs) (or_swap (str_eq file g) (str_eq file f) (has file gs))
]

has-sort_files : (file : String) (fs : List String) → has file (sort_files fs) ≡ has file fs
unfolding sort_files
has-sort_files file [] = refl
has-sort_files file (f ∷ fs) =
    has-insert_file file f (sort_files fs) ∙ ap (λ b. str_eq file f || b) (has-sort_files file fs)

insert_file-IsUnique :
    (f : String) (gs : List String) → has f gs ≡ false → IsUnique gs → IsUnique (insert_file f gs)
unfolding insert_file
insert_file-IsUnique f [] h u = (refl, tt)
insert_file-IsUnique f (g ∷ gs) h u =
    let (apart, rest) = or_false (str_eq f g) (has f gs) h in
    elim (Bool-cases (leb_key (sort_key f) (sort_key g))) [
      | inl before ↦ rw before (h, u)
      | inr after ↦ rw after (
        rw (has-insert_file g f gs, str_eq_sym f g apart, u.0) refl,
        insert_file-IsUnique f gs rest u.1,
      )
    ]

sort_files-IsUnique : (fs : List String) → IsUnique fs → IsUnique (sort_files fs)
unfolding sort_files
sort_files-IsUnique [] u = tt
sort_files-IsUnique (f ∷ fs) u =
    insert_file-IsUnique f (sort_files fs) (has-sort_files f fs ∙ u.0) (sort_files-IsUnique fs u.1)

-- The queue has the files that the script collects, each once, in the order of their keys.
pub sorted_queue :
    (repo : Repository) (run : List Command)
    → let (res, after) = run_cmd repo status_command run in
      let files = collected repo after res in
      (queue : List String) × (get_pending_files repo run ≡ (queue, after))
      × IsUnique queue
      × IsOrdered queue
      × ((file : String) → has file queue ≡ has file files)
unfolding get_pending_files
sorted_queue repo run =
    let (res, after) = run_cmd repo status_command run in
    let files = collected repo after res in
    (
      sort_files (fromkeys files),
      refl,
      sort_files-IsUnique (fromkeys files) (fromkeys-IsUnique files),
      sort_files-IsOrdered (fromkeys files),
      λ file. has-sort_files file (fromkeys files) ∙ has-fromkeys file files,
    )
