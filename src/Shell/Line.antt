-- ===== src/Shell/Line.antt =====
-- A line of input in `main` of pa2/main.c.
pub mod Whole
pub mod Faults
use systemprogramminglab.Prelude.{
  ℕ, zero, suc, ◌+◌, Bool, true, false, not, ◌&&◌, ◌||◌, Option, none, some, List, [], ◌∷◌, ◌++◌,
  ◌==◌, ltb, if◌then◌else◌, ◌>>=◌, length, codes, drop_last, ℤ, pos,
}
use systemprogramminglab.Libc.Decimal.Casts.{strtol_int}
use systemprogramminglab.Libc.Texts.{same}
use systemprogramminglab.Shell.Pipelines.{parse_pipelines}
use systemprogramminglab.Shell.Command.{
  Kind, commandline, pipeline, commands, command, executable, implement, builtin, path, unknown,
  Command, Redirects, parse_command,
}
use systemprogramminglab.Shell.Stages.{Child, first_arg, run_commands}

-- What the shell does for a line. For `change_dir` without a word it goes to the directory in the
-- environment.
pub data Action : Type 0 where
  nothing : Action
  leave : ℤ → Action
  change_dir : Option (List ℕ) → Action
  not_found : Action
  launch : List Child → Action

-- `parse_command` for one command after the other.
unfoldable pub parse_commands : List (List ℕ) → Redirects → Option (List Command × Redirects)
parse_commands [] r = some ([], r)
parse_commands (cmd ∷ cmds) r = do
  (c, s) ← parse_command cmd r
  (cs, t) ← parse_commands cmds s
  some (c ∷ cs, t)

abbrev pub is_unknown : Kind → Bool
is_unknown commandline = false
is_unknown pipeline = false
is_unknown commands = false
is_unknown command = false
is_unknown executable = false
is_unknown implement = false
is_unknown builtin = false
is_unknown path = false
is_unknown unknown = true

unfoldable pub has_unknown : List Command → Bool
has_unknown [] = false
has_unknown (c ∷ cs) = is_unknown c.kind || has_unknown cs

-- `args[1]`
abbrev pub second_arg : List (List ℕ) → Option (List ℕ)
second_arg [] = none
second_arg (w ∷ []) = none
second_arg (w ∷ v ∷ ws) = some v

abbrev pub status : Option (List ℕ) → ℤ
status none = pos 0
status (some w) = strtol_int w

-- Without a command, `pCommands[0]` is outside the array.
unfoldable pub decide : List ℕ → List Command × Redirects → Option Action
unfolding has_unknown
decide directory ([], r) = none
decide directory (c ∷ cs, r) = some (
    if same (first_arg c.args) (codes "exit")
    then leave (status (second_arg c.args))
    else if same (first_arg c.args) (codes "cd")
    then change_dir (second_arg c.args)
    else if has_unknown (c ∷ cs)
    then not_found
    else launch (run_commands directory r (c ∷ cs)))

-- The line is what `getline` has read, with the newline; it has no NUL.
unfoldable pub run_line : List ℕ → List ℕ → Option Action
unfolding parse_commands decide
run_line directory line =
    if ltb 1 (length line)
    then (do
      cmds ← parse_pipelines (drop_last line)
      parsed ← parse_commands cmds (record { input = none; output = none; append = none })
      decide directory parsed)
    else some nothing
