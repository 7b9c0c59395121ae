-- ===== src/PipeShell.antt =====
-- week9/main.c: a shell with one pipe or one redirection in a line. `none` is an access through NULL
-- or outside an array.
pub mod Lines
pub mod Marks
mod Tests
use systemprogramminglab.Prelude.{
  ℕ, zero, suc, Bool, true, false, ◌||◌, Option, none, some, List, [], ◌∷◌, ◌++◌, ◌==◌, ltb,
  if◌then◌else◌, ◌>>=◌, length, drop_last, codes,
}
use systemprogramminglab.Libc.Texts.{same, tokens}

-- A child: what `execv` is given.
pub record Process : Type 0 where
  pub path : List ℕ
  pub args : List (List ℕ)

-- What the shell does for a line. A file without a name is not opened, and the child goes on with
-- the terminal.
pub data Action : Type 0 where
  leave : Action
  connect : Process → Process → Action
  write_to : Process → Option (List ℕ) → Action
  read_from : Process → Option (List ℕ) → Action
  plain : Process → Action

-- `ptr[0] != target[0]` fails
abbrev pub begins : ℕ → List ℕ → Bool
begins t [] = false
begins t (c ∷ w) = c == t

-- The words in front of the first that begins with `t`, and the words behind that one.
unfoldable pub split_at : ℕ → List (List ℕ) → List (List ℕ) × List (List ℕ)
split_at t [] = ([], [])
split_at t (w ∷ ws) =
    let (front, back) = split_at t ws in if begins t w then ([], ws) else (w ∷ front, back)

-- An array of 128 pointers, with NULL behind the last.
unfoldable pub fits : List (List ℕ) → Option (List (List ℕ))
fits ws = if ltb (length ws) 128 then some ws else none

unfoldable pub make_tokens : ℕ → List ℕ → Option (List (List ℕ) × List (List ℕ))
unfolding split_at fits
make_tokens t cmd =
    let (front, back) = split_at t (tokens b' ' cmd) in
    do arg ← fits front; arg2 ← fits back; some (arg, arg2)

-- `sprintf(path, "/bin/%s", arg[0])`, into 128 bytes.
unfoldable pub process : List (List ℕ) → Option Process
process [] = none
process (w ∷ ws) =
    if ltb (length w) 123 then some (record { path = codes "/bin/" ++ w; args = w ∷ ws }) else none

-- `strchr`
unfoldable pub has : ℕ → List ℕ → Bool
has b [] = false
has b (c ∷ s) = (c == b) || has b s

abbrev pub head_of : List (List ℕ) → Option (List ℕ)
head_of [] = none
head_of (w ∷ ws) = some w

unfoldable pub run_command : List ℕ → Option Action
unfolding make_tokens process has fits
run_command cmd =
    if same cmd (codes "quit")
    then some leave
    else if has b'|' cmd
    then (do
      (arg, arg2) ← make_tokens b'|' cmd
      p ← process arg
      q ← process arg2
      some (connect p q))
    else if has b'>' cmd
    then (do (arg, arg2) ← make_tokens b'>' cmd; p ← process arg; some (write_to p (head_of arg2)))
    else if has b'<' cmd
    then (do (arg, arg2) ← make_tokens b'<' cmd; p ← process arg; some (read_from p (head_of arg2)))
    else (do arg ← fits (tokens b' ' cmd); p ← process arg; some (plain p))

-- The line with its newline.
unfoldable pub run_line : List ℕ → Option Action
unfolding run_command
run_line line = run_command (drop_last line)
