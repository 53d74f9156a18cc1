-- ===== src/DailyPush/Named.antt =====
-- Which files scripts/daily_push.py takes of what `git status --porcelain` prints.
use Prim.Native.String.{[] as no_text, ◌∷◌ as ◌▹◌}
use Prim.Native.String.{count}
use Prim.Native.String.count.{cons}
use Prim.Native.Char.{Char}
use apex_payments_engine.Prelude.{
  suc, ltb, ◌≤◌, ◌≡◌, refl, sym, ap, ◌∙◌, String, str_eq, str_eq_iff, Bool, true, false, not, ◌&&◌,
  ◌||◌, if◌then◌else◌, inl, inr, Bool-cases, List, [], ◌∷◌, ◌++◌, All, map, arith,
}
use apex_payments_engine.Prelude.Int.{pos}
use apex_payments_engine.DailyPush.Text.{is_no_text, strip, splitlines, text_from}
use apex_payments_engine.DailyPush.Unique.{has, IsUnique}
use apex_payments_engine.DailyPush.Queue.{IsOrdered, sorted_queue}
use apex_payments_engine.DailyPush.Porcelain.{
  StatusLine, line_of, status_text, IsLine, BeginsWithLetter, strip-IsPlain, splitlines-status_text,
}
use apex_payments_engine.DailyPush.{
  Command, Completed, Repository, is_ignored, status_command, run_cmd, files_below, files_at,
  files_of_lines, collected, get_pending_files,
}

or_assoc : (x y z : Bool) → x || (y || z) ≡ (x || y) || z
or_assoc true y z = refl
or_assoc false y z = refl

or_none : (x : Bool) → x || false ≡ x
or_none true = refl
or_none false = refl

and_none : (x : Bool) → x && false ≡ false
and_none true = refl
and_none false = refl

count-cons : (c : Char) (s : String) → count (c ▹ s) ≡ suc (count s)
count-cons c s = λ i. cons c s i

text_long : (s : String) → is_no_text s ≡ false → 1 ≤ count s
text_long no_text h = absurd (ground arith)
text_long (c ▹ s) h = rw (count-cons c s) (omega arith)

-- A line with a path has at least four characters.
line_long : (l : StatusLine) → is_no_text l.path ≡ false → ltb (count (line_of l)) 4 ≡ false
line_long l h =
    let long = text_long l.path h in
    rw
      (
        count-cons l.x (l.y ▹ l.gap ▹ l.path),
        count-cons l.y (l.gap ▹ l.path),
        count-cons l.gap l.path,
      )
      (ground arith)

module _ (repo : Repository) (run : List Command) where
  -- The path of a file that the script may commit.
  abbrev pub is_wanted : String → Bool
  is_wanted file = repo.is_file run file && not (is_ignored file)

  -- The line names the file: its path is a directory that the file is below, or the file.
  abbrev pub names : StatusLine → String → Bool
  names l file =
      is_wanted file
      && (if repo.is_dir run l.path then has file (repo.rglob run l.path) else str_eq file l.path)

  abbrev pub is_named : List StatusLine → String → Bool
  is_named [] file = false
  is_named (l ∷ ls) file = names l file || is_named ls file

  has-append :
      (file : String) (fs gs : List String) → has file (fs ++ gs) ≡ has file fs || has file gs
  has-append file [] gs = refl
  has-append file (f ∷ fs) gs =
      ap (λ b. str_eq file f || b) (has-append file fs gs)
      ∙ or_assoc (str_eq file f) (has file fs) (has file gs)

  one_more :
      (file f : String) (rest : List String) (b : Bool)
      → has file rest ≡ is_wanted file && b
      → has file (if is_wanted f then f ∷ rest else rest) ≡ is_wanted file && (str_eq file f || b)
  one_more file f rest b h = elim (Bool-cases (str_eq file f)) [
    | inl same ↦
        let alike : is_wanted f ≡ is_wanted file =
          ap is_wanted (sym ((str_eq_iff file f).0 same)) in
        elim (Bool-cases (is_wanted file)) [
          | inl wanted ↦ rw (alike, wanted, same) refl
          | inr unwanted ↦ rw (alike, unwanted) (h ∙ rw unwanted refl)
        ]
    | inr other ↦ elim (Bool-cases (is_wanted f)) [
      | inl wanted ↦ rw (wanted, other) h
      | inr unwanted ↦ rw (unwanted, other) h
    ]
  ]

  has-files_below :
      (file : String) (fs : List String)
      → has file (files_below repo run fs) ≡ is_wanted file && has file fs
  unfolding files_below
  has-files_below file [] = sym (and_none (is_wanted file))
  has-files_below file (f ∷ fs) =
      one_more file f (files_below repo run fs) (has file fs) (has-files_below file fs)

  has-files_at :
      (l : StatusLine) (file : String) → has file (files_at repo run l.path) ≡ names l file
  has-files_at l file = elim (Bool-cases (repo.is_dir run l.path)) [
    | inl dir ↦ rw dir (has-files_below file (repo.rglob run l.path))
    | inr other ↦ rw other (
        one_more file l.path [] false (sym (and_none (is_wanted file)))
        ∙ ap (λ b. is_wanted file && b) (or_none (str_eq file l.path)))
  ]

  has-files_of_lines :
      (ls : List StatusLine) (file : String)
      → All IsLine ls
      → has file (files_of_lines repo run (map line_of ls)) ≡ is_named ls file
  unfolding files_of_lines text_from
  has-files_of_lines [] file h = refl
  has-files_of_lines (l ∷ ls) file h =
      rw (line_long l h.0.3, strip-IsPlain l.path h.0.4)
        (has-append file (files_at repo run l.path) (files_of_lines repo run (map line_of ls))
          ∙ rw (has-files_at l file, has-files_of_lines ls file h.1) refl)

no_lines : (s : String) → is_no_text s ≡ true → splitlines s ≡ []
unfolding splitlines
no_lines no_text h = refl
no_lines (c ▹ s) h = absurd (ground arith)

none_named :
    (repo : Repository) (run : List Command) (ls : List StatusLine) (file : String)
    → [] ≡ map line_of ls
    → false ≡ is_named repo run ls file
none_named repo run [] file h = refl
none_named repo run (l ∷ ls) file h = absurd (ground arith)

collected_lem :
    (repo : Repository) (run : List Command) (res : Completed) (ls : List StatusLine)
    (file : String)
    → res.returncode ≡ pos 0
    → splitlines res.stdout ≡ map line_of ls
    → All IsLine ls
    → has file (collected repo run res) ≡ is_named repo run ls file
unfolding collected
collected_lem repo run res ls file passed split lines = elim (Bool-cases (is_no_text res.stdout)) [
  | inl empty ↦
      rw (passed, empty) (none_named repo run ls file (sym (no_lines res.stdout empty) ∙ split))
  | inr text ↦ rw (passed, text, split) (has-files_of_lines repo run ls file lines)
]

-- If `git status --porcelain` goes through and prints lines of two characters of status, a blank and
-- a path that it does not quote, the first line beginning with a letter, then the queue has exactly
-- the files that a line names, by their path or by that of a directory above them, and that are not
-- ignored, each once, in the order of their keys; no other command has been run.
pub get_pending_files_lem :
    (repo : Repository) (run : List Command) (ls : List StatusLine)
    → let res : Completed = repo.subprocess_run run status_command in
      let after : List Command = run ++ (status_command ∷ []) in
      res.returncode ≡ pos 0
      → res.stdout ≡ status_text ls
      → All IsLine ls
      → BeginsWithLetter ls
      → (queue : List String) × (get_pending_files repo run ≡ (queue, after))
        × IsUnique queue
        × IsOrdered queue
        × ((file : String) → has file queue ≡ is_named repo after ls file)
unfolding run_cmd
get_pending_files_lem repo run ls passed printed lines first =
    let (queue, e, unique, ordered, same) = sorted_queue repo run in
    (
      queue,
      e,
      unique,
      ordered,
      λ file.
          same file
          ∙ collected_lem repo (run ++ (status_command ∷ [])) (run_cmd repo status_command run).0 ls
              file passed
              (ap (λ t. splitlines (strip t)) printed ∙ splitlines-status_text ls lines first)
              lines,
    )
