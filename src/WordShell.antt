-- ===== src/WordShell.antt =====
-- week6/main.c: a shell that runs one program after the other. `none` is an access through NULL or
-- outside an array.
pub mod Lines
mod Tests
use systemprogramminglab.Prelude.{
  ℕ, Option, none, some, List, [], ◌∷◌, ◌++◌, ltb, if◌then◌else◌, ◌>>=◌, length, drop_last, codes,
}
use systemprogramminglab.Libc.Texts.{starts, tokens}
use systemprogramminglab.PipeShell.{Process}

-- What a line leads to: `none` is the end of the loop.
unfoldable pub run_words : List (List ℕ) → Option (Option Process)
run_words [] = none
run_words (w ∷ ws) =
    if ltb (length (w ∷ ws)) 100
    then some (
        if starts (codes "quit") w
        then none
        else some (record { path = codes "/bin/" ++ w; args = w ∷ ws }))
    else none

-- `again` is the rest of the loop.
abbrev pub go_on : Option Process → Option (List Process) → Option (List Process)
go_on none again = some []
go_on (some p) again = do rest ← again; some (p ∷ rest)

-- The programs that are run for the lines, each with its newline.
unfoldable pub run_lines : List (List ℕ) → Option (List Process)
unfolding run_words
run_lines [] = some []
run_lines (line ∷ lines) = do
  result ← run_words (tokens b' ' (drop_last line))
  go_on result (run_lines lines)
