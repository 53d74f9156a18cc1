-- ===== src/DailyPush/Preview.antt =====
-- A preview of scripts/daily_push.py, or a listing, runs no git command but `git status`.
use apex_payments_engine.Prelude.{
  ◌≡◌, refl, ap, ◌∙◌, String, Bool, true, false, not, ◌||◌, Option, inl, inr, Bool-cases,
  if◌then◌else◌, List, [], ◌∷◌, ◌++◌, is_empty,
}
use apex_payments_engine.Prelude.Int.{ℤ}
use apex_payments_engine.DailyPush.{
  Command, Repository, run_cmd, status_command, get_pending_files, files_to_commit, is_given,
  commit_file, commit_each, push_files, push_batch, list_queue, Arguments, Outcome, listed, pushed,
  main,
}

module _ (repo : Repository) where
  commit_file-dry :
      (file : String) (run : List Command) → commit_file repo true file run ≡ (true, run)
  unfolding commit_file
  commit_file-dry file run = elim (Bool-cases (repo.exists run file)) [
    | inl there ↦ rw there refl
    | inr missing ↦ rw missing refl
  ]

  commit_each-dry :
      (files : List String) (run : List Command) → commit_each repo true files run ≡ (true, run)
  unfolding commit_each
  commit_each-dry [] run = refl
  commit_each-dry (file ∷ files) run = rw (commit_file-dry file run) (commit_each-dry files run)

  push_files-dry :
      (files : List String) (run : List Command) → push_files repo true files run ≡ (true, run)
  unfolding push_files
  push_files-dry files run = rw (commit_each-dry files run) refl

  get_pending_files-runs :
      (run : List Command) → (get_pending_files repo run).1 ≡ run ++ (status_command ∷ [])
  unfolding get_pending_files run_cmd
  get_pending_files-runs run = refl

  push_batch-dry :
      (count : ℤ) (specific_file : Option String) (run : List Command)
      → push_batch repo count true specific_file run ≡ (true, (get_pending_files repo run).1)
  unfolding push_batch
  push_batch-dry count specific_file run =
      elim (Bool-cases (is_empty (get_pending_files repo run).0)) [
        | inl none_left ↦ rw none_left refl
        | inr some_left ↦ rw some_left (
            push_files-dry (files_to_commit count specific_file (get_pending_files repo run).0)
              (get_pending_files repo run).1)
      ]

-- Arguments that ask for nothing but a listing or a preview.
abbrev pub only_reads : Arguments → Bool
only_reads args = args.status || args.dry_run || not (args.push || is_given args.file)

-- The branch that `main` takes then is the listing, or the preview.
branch_lem :
    (status dry push given : Bool) (queue batch : Outcome × List Command) (run : List Command)
    → queue.1 ≡ run
    → (dry ≡ true → batch.1 ≡ run)
    → (status || dry || not (push || given)) ≡ true
    → (if status then queue else if push || dry || given then batch else queue).1 ≡ run
branch_lem true dry push given queue batch run q b h = q
branch_lem false true true given queue batch run q b h = b refl
branch_lem false true false given queue batch run q b h = b refl
branch_lem false false true given queue batch run q b h = cc
branch_lem false false false true queue batch run q b h = cc
branch_lem false false false false queue batch run q b h = q

module _ (repo : Repository) where
  -- With --status, with --dry-run, or with neither --push nor a file, the one command that the script
  -- runs is `git status`.
  pub main-only_reads :
      (args : Arguments) (run : List Command)
      → only_reads args ≡ true
      → (main repo args run).1 ≡ run ++ (status_command ∷ [])
  unfolding main list_queue
  main-only_reads args run reads =
      branch_lem args.status args.dry_run args.push (is_given args.file)
        (listed (list_queue repo args.count run).0, (list_queue repo args.count run).1)
        (
          pushed (push_batch repo args.count args.dry_run args.file run).0,
          (push_batch repo args.count args.dry_run args.file run).1,
        )
        (run ++ (status_command ∷ [])) (get_pending_files-runs repo run)
        (λ dry. rw dry (
          ap (λ m. m.1) (push_batch-dry repo args.count args.file run)
          ∙ get_pending_files-runs repo run))
        reads
