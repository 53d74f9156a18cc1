-- ===== src/DailyPush.antt =====
-- The commit script, scripts/daily_push.py: the queue of pending files, the daily batch that is
-- committed and pushed, and the listing of the queue by days. Git and the file system are a
-- parameter, which answers according to the commands run before. What the script prints is left
-- out, except for the listing, which is the value of `list_queue`.
pub mod Text
pub mod Messages
pub mod Order
pub mod Schedule
pub mod TotalOrder
pub mod Unique
pub mod Porcelain
pub mod Queue
pub mod Named
pub mod Days
pub mod Commands
pub mod Preview
use apex_payments_engine.Prelude.{
  ℕ, zero, suc, ◌+◌, ◌-◌, String, Bool, true, false, not, ◌&&◌, ◌||◌, Option, none, some, leb, ltb,
  if◌then◌else◌, List, [], ◌∷◌, ◌++◌, map, length, take, is_empty,
}
use Prim.Native.Nat.{◌/◌}
use Prim.Native.String.{count}
use apex_payments_engine.Prelude.Int.{ℤ, pos, negsuc, ◌+ℤ◌, ◌-ℤ◌, eq_ℤ}
use apex_payments_engine.DailyPush.Text.{
  is_no_text, strip, strip_quotes, text_from, splitlines, ends_with_any,
}
use apex_payments_engine.DailyPush.Messages.{generate_commit_message}
use apex_payments_engine.DailyPush.Schedule.{Listing, clean, listing}
use apex_payments_engine.DailyPush.Order.{sort_files, fromkeys}

abbrev pub Command : Type 0
Command = List String

-- What `subprocess.run` returns: the code, and the texts of stdout and stderr.
pub record Completed : Type 0 where
  pub returncode : ℤ
  pub stdout : String
  pub stderr : String

-- Git and the files below REPO_DIR, after the commands run so far. That a command cannot be started
-- is left out. `rglob` answers the paths of all that is below a directory, sorted and relative to
-- REPO_DIR.
pub record Repository : Type 0 where
  pub subprocess_run : List Command → Command → Completed
  pub is_dir : List Command → String → Bool
  pub is_file : List Command → String → Bool
  pub exists : List Command → String → Bool
  pub rglob : List Command → String → List String

-- A step of the script: its value, and the commands run, the first one first.
abbrev pub Script : Type 0 → Type 0
Script A = List Command → A × List Command

abbrev pub has_failed : Completed → Bool
has_failed res = not (eq_ℤ res.returncode (pos 0))

-- `if code != 0: return False`, and else what follows.
abbrev pub or_return_false : Bool × List Command → Script Bool → Bool × List Command
or_return_false (true, run) next = next run
or_return_false (false, run) next = (false, run)

-- Files that the script never commits. No suffix has a slash, so that a path below REPO_DIR ends with
-- one as the whole path does.
abbrev pub is_ignored : String → Bool
is_ignored path = ends_with_any path (".pyc" ∷ ".DS_Store" ∷ [])

abbrev pub status_command : Command
status_command = "git" ∷ "status" ∷ "--porcelain" ∷ []

abbrev pub add_command : String → Command
add_command file = "git" ∷ "add" ∷ file ∷ []

abbrev pub commit_command : String → Command
commit_command file = "git" ∷ "commit" ∷ "-m" ∷ generate_commit_message file ∷ []

abbrev pub push_command : Command
push_command = "git" ∷ "push" ∷ "origin" ∷ "main" ∷ []

-- `files[:n]`, where a negative number leaves out that many at the end.
abbrev pub up_to : ℤ → List String → List String
up_to (pos n) files = take n files
up_to (negsuc n) files = take (length files - suc n) files

-- `if specific_file`: None and the empty string are false.
abbrev pub is_given : Option String → Bool
is_given none = false
is_given (some file) = not (is_no_text file)

abbrev pub files_to_commit : ℤ → Option String → List String → List String
files_to_commit count none pending = up_to count pending
files_to_commit count (some file) pending =
    if is_no_text file then up_to count pending else file ∷ []

pub record Arguments : Type 0 where
  pub push : Bool
  pub count : ℤ
  pub dry_run : Bool
  pub status : Bool
  pub file : Option String

pub data Outcome : Type 0 where
  listed : Listing → Outcome
  pushed : Bool → Outcome

module _ (repo : Repository) where
  unfoldable pub run_cmd : Command → Script Completed
  run_cmd cmd run =
      let res = repo.subprocess_run run cmd in
      (record res { stdout = strip res.stdout; stderr = strip res.stderr }, run ++ (cmd ∷ []))

  unfoldable pub files_below : List Command → List String → List String
  files_below run [] = []
  files_below run (path ∷ paths) =
      let rest = files_below run paths in
      if repo.is_file run path && not (is_ignored path) then path ∷ rest else rest

  abbrev pub files_at : List Command → String → List String
  files_at run path =
      if repo.is_dir run path
      then files_below run (repo.rglob run path)
      else if repo.is_file run path && not (is_ignored path)
      then path ∷ []
      else []

  abbrev pub raw_path : String → String
  raw_path line = strip_quotes (strip (text_from 3 line))

  unfoldable pub files_of_lines : List Command → List String → List String
  files_of_lines run [] = []
  files_of_lines run (line ∷ lines) =
      let rest = files_of_lines run lines in
      if ltb (count line) 4 then rest else files_at run (raw_path line) ++ rest

  -- The files that the answer of `git status` names.
  unfoldable pub collected : List Command → Completed → List String
  collected run res =
      if has_failed res || is_no_text res.stdout
      then []
      else files_of_lines run (splitlines res.stdout)

  unfoldable pub get_pending_files : Script (List String)
  get_pending_files run =
      let (res, after) = run_cmd status_command run in
      (sort_files (fromkeys (collected after res)), after)

  -- Runs a command, and answers whether it went through.
  unfoldable pub check : Command → Script Bool
  check cmd run = let (res, after) = run_cmd cmd run in (not (has_failed res), after)

  -- One file of the batch; whether the loop goes on.
  unfoldable pub commit_file : Bool → String → Script Bool
  commit_file dry_run file run =
      if not (repo.exists run file) || dry_run
      then (true, run)
      else or_return_false (check (add_command file) run) (check (commit_command file))

  unfoldable pub commit_each : Bool → List String → Script Bool
  commit_each dry_run [] run = (true, run)
  commit_each dry_run (file ∷ files) run =
      or_return_false (commit_file dry_run file run) (commit_each dry_run files)

  -- `len(get_pending_files())` is only printed.
  abbrev pub count_remaining : Script Bool
  count_remaining run = (true, (get_pending_files run).1)

  unfoldable pub push_commits : Script Bool
  push_commits run = or_return_false (check push_command run) count_remaining

  unfoldable pub push_files : Bool → List String → Script Bool
  push_files dry_run files run =
      or_return_false (commit_each dry_run files run)
        (if dry_run then (λ after. (true, after)) else push_commits)

  unfoldable pub push_batch : ℤ → Bool → Option String → Script Bool
  push_batch count dry_run specific_file run =
      let (pending, after) = get_pending_files run in
      if is_empty pending
      then (true, after)
      else push_files dry_run (files_to_commit count specific_file pending) after

  unfoldable pub list_queue : ℤ → Script Listing
  list_queue per_day run =
      let (pending, after) = get_pending_files run in
      (if is_empty pending then clean else listing per_day pending, after)

  -- `main` on the arguments that argparse read.
  unfoldable pub main : Arguments → Script Outcome
  main args run =
      let (queue, after) = list_queue args.count run in
      let (done, pushed_after) = push_batch args.count args.dry_run args.file run in
      if args.status
      then (listed queue, after)
      else if args.push || args.dry_run || is_given args.file
      then (pushed done, pushed_after)
      else (listed queue, after)
