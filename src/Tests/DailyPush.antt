-- ===== src/Tests/DailyPush.antt =====
-- The commit script on a working tree with a modified README.md and app/main.py and a new directory.
use apex_payments_engine.Prelude.{
  ◌≡◌, refl, All, String, str_eq, Bool, true, false, none, ◌||◌, if◌then◌else◌, map, List, [], ◌∷◌,
  length,
}
use apex_payments_engine.Prelude.Int.{pos, ◌+ℤ◌, ◌-ℤ◌}
use apex_payments_engine.DailyPush.{
  Command, Repository, Arguments, status_command, run_cmd, collected, get_pending_files,
  files_of_lines, files_below, push_batch, check, commit_file, commit_each, push_commits,
  push_files, list_queue, main,
}
use apex_payments_engine.DailyPush.Text.{
  strip, strip_quotes, text_from, splitlines, ends_with, ends_with_any, basename, mentions_test,
}
use apex_payments_engine.DailyPush.Messages.{index_of, message_of, generate_commit_message}
use apex_payments_engine.DailyPush.Order.{sort_files, sort_key, insert_file, without, fromkeys}
use apex_payments_engine.DailyPush.Unique.{has, IsUnique}
use apex_payments_engine.DailyPush.Queue.{IsOrdered}
use apex_payments_engine.DailyPush.Porcelain.{StatusLine, status_text, IsLine}
use apex_payments_engine.DailyPush.Named.{is_named, get_pending_files_lem}
use apex_payments_engine.DailyPush.Schedule.{Day, days, days_from, listing}
use apex_payments_engine.DailyPush.Days.{IsSchedule, all_files, listing_lem}
use apex_payments_engine.DailyPush.Commands.{run_all, batch_commands}
use apex_payments_engine.DailyPush.Preview.{main-only_reads}

abbrev is_status : Command → Bool
is_status (git ∷ verb ∷ rest) = str_eq verb "status"
is_status cmd = false

abbrev here : String → Bool
here path = str_eq path "README.md" || str_eq path "app/main.py" || str_eq path "docs/b.md"

abbrev repo : Repository
repo = record {
  subprocess_run = λ run cmd. record {
    returncode = pos 0;
    stdout = if is_status cmd then " M README.md\n?? docs/\n M app/main.py\n" else "";
    stderr = "";
  };
  is_dir = λ run path. str_eq path "docs/";
  is_file = λ run path. here path;
  exists = λ run path. here path;
  rglob = λ run path. "docs/b.md" ∷ "docs/old.pyc" ∷ [];
}

-- The name by which a test opens the script.
unfoldable script : Unit {0}
unfolding get_pending_files sort_files fromkeys collected run_cmd strip files_of_lines splitlines
    strip_quotes text_from files_below ends_with_any ends_with insert_file without sort_key index_of
    message_of generate_commit_message basename mentions_test listing days_from ◌+ℤ◌ ◌-ℤ◌ check
    commit_file commit_each push_commits push_files push_batch list_queue main run_all
    batch_commands
script = tt

-- README.md is missing: the blank that begins its line is the first of the text, and is stripped.
abbrev queue : List String
queue = "app/main.py" ∷ "docs/b.md" ∷ []

default_messages :
    map generate_commit_message
      ("scripts/run.PY" ∷ "tools/Test_x.py" ∷ "a/b.pyi" ∷ "x.yaml" ∷ "README.md" ∷ [])
    ≡ "feat: update run.PY" ∷ "test: add test coverage for Test_x.py"
      ∷ "feat: implement updates in b.pyi" ∷ "chore(config): update configuration in x.yaml"
      ∷ "docs: update system architecture, double-entry specs, and Python API reference" ∷ []
unfolding script
default_messages = refl

listing_lem_example :
    (ds : List Day) × (listing (pos 1) queue ≡ days (pos (length ds)) ds)
    × IsSchedule 1 1 ds
    × (all_files ds ≡ queue)
listing_lem_example = listing_lem 0 queue

-- The same tree, with README.md changed in the index, so that the first line begins with a letter.
abbrev printed : List StatusLine
printed =
    record { x = "M"; y = " "; gap = " "; path = "README.md" }
    ∷ record { x = "?"; y = "?"; gap = " "; path = "docs/" }
    ∷ record { x = " "; y = "M"; gap = " "; path = "app/main.py" }
    ∷ []

abbrev staged : Repository
staged = record repo {
  subprocess_run =
      λ run cmd. record { returncode = pos 0; stdout = status_text printed; stderr = "" };
}

printed_text : status_text printed ≡ "M  README.md\n?? docs/\n M app/main.py\n"
printed_text = refl

printed_lines : All IsLine printed
printed_lines = search refl depth 80

get_pending_files_lem_example :
    (fs : List String) × (get_pending_files staged [] ≡ (fs, status_command ∷ []))
    × IsUnique fs
    × IsOrdered fs
    × ((file : String) → has file fs ≡ is_named staged (status_command ∷ []) printed file)
get_pending_files_lem_example = get_pending_files_lem staged [] printed refl refl printed_lines refl

abbrev preview : Arguments
preview = record { push = true; count = pos 3; dry_run = true; status = false; file = none }

main-only_reads_example : (main repo preview []).1 ≡ status_command ∷ []
main-only_reads_example = main-only_reads repo preview [] refl
