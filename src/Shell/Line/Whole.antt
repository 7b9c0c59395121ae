-- ===== src/Shell/Line/Whole.antt =====
-- A whole line of the shell, from its text to the processes.
use systemprogramminglab.Prelude.{
  ℕ, ◌≡◌, ◌≢◌, ◌<◌, refl, ◌∙◌, sym, ap, Bool, true, false, Option, none, some, List, [], ◌∷◌, ◌++◌,
  map, length, length-append, codes, arith, append_assoc, All, lt→ltb, drop_last-append, ◌>>=◌,
}
use systemprogramminglab.Libc.Texts.{same, EndsNot, joined_by}
use systemprogramminglab.Shell.Pipelines.{
  parse_pipelines, piped, contents, IsCommand, parse_pipelines_lem,
}
use systemprogramminglab.Shell.Command.{Command, Redirects, kind_of, parse_command}
use systemprogramminglab.Shell.Command.Outputs.{Target, stays, IsTarget}
use systemprogramminglab.Shell.Command.Written.{
  Input, keeps, reads, input_text, known_before, input_of, IsInput, IsWord, command_text, redirects,
  parse_command_lem,
}
use systemprogramminglab.Shell.Stages.{first_arg}
use systemprogramminglab.Shell.Stages.Wiring.{chain_from, run_commands_lem}
use systemprogramminglab.Shell.Line.{launch, parse_commands, has_unknown, decide, run_line}

-- The words of a command.
abbrev pub IsWords : List (List ℕ) → Type 0
IsWords [] = ⊥
IsWords (w ∷ ws) = All IsWord (w ∷ ws) × (length (w ∷ ws) < 200)

-- The texts of the commands of a line: the first has the input, the last the output.
unfoldable pub line_texts : List (List (List ℕ)) → Input → Target → List (List ℕ)
line_texts [] i o = []
line_texts (ws ∷ []) i o = command_text ws i o false ∷ []
line_texts (ws ∷ vs ∷ cs) i o =
    command_text ws i stays false ∷ line_texts (vs ∷ cs) (keeps (input_of i)) o

abbrev pub command_of : List (List ℕ) → Command
command_of ws = record { kind = kind_of (first_arg ws); args = ws }

command_of_text :
    (ws : List (List ℕ)) (i : Input) (o : Target) (spaced : Bool)
    → IsWords ws
    → IsInput i
    → IsTarget o
    → parse_command (command_text ws i o spaced) (redirects (keeps (known_before i)) stays)
      ≡ some (command_of ws, redirects i o)
command_of_text [] i o spaced h m n = absurd h
command_of_text (w ∷ ws) i o spaced h m n = parse_command_lem w ws i o spaced h.0 h.1 m n

text_space :
    (ws : List (List ℕ)) (i : Input)
    → command_text ws i stays false ++ (b' ' ∷ []) ≡ command_text ws i stays true
text_space ws i =
    append_assoc (joined_by b' ' ws) (input_text i ++ []) (b' ' ∷ [])
    ∙ ap (λ t. joined_by b' ' ws ++ t) (append_assoc (input_text i) [] (b' ' ∷ []))

parse_commands_texts :
    (ws : List (List ℕ)) (cs : List (List (List ℕ))) (i : Input) (o : Target)
    → All IsWords (ws ∷ cs)
    → IsInput i
    → IsTarget o
    → parse_commands
        (contents (line_texts (ws ∷ cs) i o))
        (redirects (keeps (known_before i)) stays)
      ≡ some (map command_of (ws ∷ cs), redirects i o)
unfolding parse_commands contents line_texts
parse_commands_texts ws [] i o h m n = rw (command_of_text ws i o false h.0 m n) refl
parse_commands_texts ws (vs ∷ []) i o h m n =
    rw
      (
        text_space ws i,
        command_of_text ws i stays true h.0 m tt,
        command_of_text vs (keeps (input_of i)) o false h.1.0 tt n,
      )
      refl
parse_commands_texts ws (vs ∷ us ∷ cs) i o h m n =
    rw
      (
        text_space ws i,
        command_of_text ws i stays true h.0 m tt,
        parse_commands_texts vs (us ∷ cs) (keeps (input_of i)) o h.1 tt n,
      )
      refl

line_texts_ne :
    (ws : List (List ℕ)) (cs : List (List (List ℕ))) (i : Input) (o : Target)
    → line_texts (ws ∷ cs) i o ≢ []
unfolding line_texts
line_texts_ne ws [] i o = cc
line_texts_ne ws (vs ∷ cs) i o = cc

parse_texts :
    (ts : List (List ℕ))
    → ts ≢ []
    → All IsCommand ts
    → EndsNot b'&' (piped ts)
    → parse_pipelines (piped ts) ≡ some (contents ts)
parse_texts [] ne h e = absurd (ne refl)
parse_texts (t ∷ ts) ne h e = parse_pipelines_lem t ts h e

EndsNot-length : (b : ℕ) (s : List ℕ) → EndsNot b s → 1 < length (s ++ (b'\n' ∷ []))
EndsNot-length b [] h = absurd h
EndsNot-length b (c ∷ s) h = omega (arith, length-append s (b'\n' ∷ []))

-- A file as input, or none.
abbrev pub given : Option (List ℕ) → Input
given none = keeps none
given (some f) = reads f

given-none : (input : Option (List ℕ)) → known_before (given input) ≡ none
given-none none = refl
given-none (some f) = refl

given_of : (input : Option (List ℕ)) → input_of (given input) ≡ input
given_of none = refl
given_of (some f) = refl

run_line_decides :
    (directory : List ℕ) (ws : List (List ℕ)) (cs : List (List (List ℕ))) (input : Option (List ℕ))
    (o : Target)
    → All IsWords (ws ∷ cs)
    → IsInput (given input)
    → IsTarget o
    → All IsCommand (line_texts (ws ∷ cs) (given input) o)
    → EndsNot b'&' (piped (line_texts (ws ∷ cs) (given input) o))
    → run_line directory (piped (line_texts (ws ∷ cs) (given input) o) ++ (b'\n' ∷ []))
      ≡ decide directory (map command_of (ws ∷ cs), redirects (given input) o)
unfolding run_line
run_line_decides directory ws cs input o h m n k e =
    let ts = line_texts (ws ∷ cs) (given input) o in
    rw
      (
        lt→ltb 1 (length (piped ts ++ (b'\n' ∷ []))) (EndsNot-length b'&' (piped ts) e),
        drop_last-append (piped ts) b'\n',
        parse_texts ts (line_texts_ne ws cs (given input) o) k e,
      )
      (ap
          (λ known.
            parse_commands (contents ts) (redirects (keeps known) stays) >>= decide directory)
          (sym (given-none input))
        ∙ ap (λ t. t >>= decide directory) (parse_commands_texts ws cs (given input) o h m n))

decide_start :
    (directory : List ℕ) (r : Redirects) (c : Command) (cs : List Command)
    → same (first_arg c.args) (codes "exit") ≡ false
    → same (first_arg c.args) (codes "cd") ≡ false
    → has_unknown (c ∷ cs) ≡ false
    → decide directory (c ∷ cs, r)
      ≡ some (launch (chain_from directory r (length (c ∷ cs)) 0 (c ∷ cs)))
unfolding decide
decide_start directory r c cs a b u = rw (a, b, u, run_commands_lem directory r (c ∷ cs)) refl

-- For a line of commands with ` | ` between two, the first perhaps with an input and the last
-- perhaps with an output, of which none is unknown and the first is not `exit` or `cd`, the shell
-- starts for each command its program with its words, each child reads the pipe that the one in
-- front of it writes, the first reads the file and the last writes the file. Each command has at
-- most 199 words with one space between two; words and names have no `<`, `>`, bar or NUL, no name
-- ends in a space, no command begins with one, and the line does not end in `&`.
pub run_line_lem :
    (directory : List ℕ) (ws : List (List ℕ)) (cs : List (List (List ℕ))) (input : Option (List ℕ))
    (o : Target)
    → All IsWords (ws ∷ cs)
    → IsInput (given input)
    → IsTarget o
    → All IsCommand (line_texts (ws ∷ cs) (given input) o)
    → EndsNot b'&' (piped (line_texts (ws ∷ cs) (given input) o))
    → same (first_arg ws) (codes "exit") ≡ false
    → same (first_arg ws) (codes "cd") ≡ false
    → has_unknown (map command_of (ws ∷ cs)) ≡ false
    → run_line directory (piped (line_texts (ws ∷ cs) (given input) o) ++ (b'\n' ∷ []))
      ≡ some (
          launch (
            chain_from directory
              (redirects (given input) o)
              (length (map command_of (ws ∷ cs)))
              0
              (map command_of (ws ∷ cs))))
run_line_lem directory ws cs input o h m n k e a b u =
    run_line_decides directory ws cs input o h m n k e
    ∙ decide_start directory (redirects (given input) o) (command_of ws) (map command_of cs) a b u
