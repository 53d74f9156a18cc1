-- ===== src/DailyPush/Commands.antt =====
-- The git commands that scripts/daily_push.py runs for a batch, against the plan of the batch.
use apex_payments_engine.Prelude.{◌≡◌, String, Bool, true, if◌then◌else◌, List, [], ◌∷◌}
use apex_payments_engine.DailyPush.{
  Command, Repository, Script, add_command, commit_command, push_command, or_return_false, check,
  count_remaining,
}

abbrev Answer : Type 0
Answer = Bool × List Command

module _ (repo : Repository) where
  -- The commands one after the other, up to the first that fails.
  unfoldable pub run_all : List Command → Script Bool
  run_all [] run = (true, run)
  run_all (cmd ∷ cmds) run = or_return_false (check repo cmd run) (run_all cmds)

  -- The commands of a batch: the files that exist are staged and committed, then all is pushed.
  unfoldable pub batch_commands : List String → List Command
  batch_commands [] = push_command ∷ []
  batch_commands (file ∷ files) =
      let rest = batch_commands files in
      if repo.exists [] file then add_command file ∷ commit_command file ∷ rest else rest

  -- Git leaves the files where they are when it stages, commits and pushes them.
  abbrev pub KeepsFiles : Type 0
  KeepsFiles = (run : List Command) (file : String) → repo.exists run file ≡ repo.exists [] file

  abbrev planned : List Command → Script Bool
  planned cmds run = or_return_false (run_all cmds run) (count_remaining repo)
