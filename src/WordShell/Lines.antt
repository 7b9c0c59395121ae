-- ===== src/WordShell/Lines.antt =====
-- The programs that the shell of week6 runs.
use systemprogramminglab.Prelude.{
  ℕ, ◌≡◌, ◌<◌, refl, some, List, [], ◌∷◌, ◌++◌, lt→ltb, if◌then◌else◌, length, drop_last-append,
  codes, map, All, Bool-cases, inl, inr,
}
use systemprogramminglab.Libc.Texts.{starts, IsToken, joined_by, tokens-joined_by}
use systemprogramminglab.PipeShell.{Process}
use systemprogramminglab.WordShell.{run_words, run_lines}

-- The words of a line: at least one and at most 99, without spaces.
abbrev pub IsWords : List (List ℕ) → Type 0
IsWords [] = ⊥
IsWords (w ∷ ws) = All (IsToken b' ') (w ∷ ws) × (length (w ∷ ws) < 100)

abbrev pub line : List (List ℕ) → List ℕ
line ws = joined_by b' ' ws ++ (b'\n' ∷ [])

-- The programs for the lines in front of the first whose first word begins with `quit`.
unfoldable pub programs : List (List (List ℕ)) → List Process
programs [] = []
programs ([] ∷ lines) = []
programs ((w ∷ ws) ∷ lines) =
    let rest = programs lines in
    if starts (codes "quit") w
    then []
    else record { path = codes "/bin/" ++ w; args = w ∷ ws } ∷ rest

-- For lines of 1 to 99 words each, without spaces in a word and with one space between two, the
-- shell runs the program of the first word of each line with the words of the line, up to the first
-- line whose first word begins with `quit`.
pub run_lines_lem :
    (lines : List (List (List ℕ)))
    → All IsWords lines
    → run_lines (map line lines) ≡ some (programs lines)
unfolding run_lines run_words programs
run_lines_lem [] h = refl
run_lines_lem ([] ∷ lines) h = absurd h.0
run_lines_lem ((w ∷ ws) ∷ lines) h = elim (Bool-cases (starts (codes "quit") w)) [
  | inl q ↦
      rw
        (
          drop_last-append (joined_by b' ' (w ∷ ws)) b'\n',
          tokens-joined_by b' ' w ws h.0.0,
          lt→ltb (length (w ∷ ws)) 100 h.0.1,
          q,
        )
        refl
  | inr q ↦
      rw
        (
          drop_last-append (joined_by b' ' (w ∷ ws)) b'\n',
          tokens-joined_by b' ' w ws h.0.0,
          lt→ltb (length (w ∷ ws)) 100 h.0.1,
          q,
          run_lines_lem lines h.1,
        )
        refl
]
