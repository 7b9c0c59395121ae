-- ===== src/Shell/Command/Swapped.antt =====
-- What `parse_command` makes of a command with its output in front of its input.
use systemprogramminglab.Prelude.{
  ℕ, ◌≡◌, refl, ◌∙◌, sym, ap, Option, none, some, List, [], ◌∷◌, ◌++◌, append_assoc, append-nil,
  length, length-append, All, arith, ◌>>=◌, ◌<◌, All-append,
}
use systemprogramminglab.Libc.Texts.{joined_by}
use systemprogramminglab.Shell.Command.{Scan, parse_command, kind_of}
use systemprogramminglab.Shell.Command.Scans.{nothing}
use systemprogramminglab.Shell.Command.Outputs.{stays, IsPlainName, find_output, single}
use systemprogramminglab.Shell.Command.Reading.{parse_output, first_found}
use systemprogramminglab.Shell.Command.Redirected.{
  IsArgument, parse_command_rounds, assemble, less, result,
}
use systemprogramminglab.Shell.Command.Written.{
  IsWord, words_IsArgument, keeps, reads, redirects, output-IsName, classify-some,
}

joined_by-append :
    (d : ℕ) (w : List ℕ) (ws : List (List ℕ)) (v : List ℕ) (vs : List (List ℕ))
    → joined_by d (w ∷ (ws ++ (v ∷ vs))) ≡ joined_by d (w ∷ ws) ++ (d ∷ joined_by d (v ∷ vs))
unfolding joined_by
joined_by-append d w [] v vs = refl
joined_by-append d w (u ∷ ws) v vs =
    ap (λ t. w ++ (d ∷ t)) (joined_by-append d u ws v vs)
    ∙ sym (append_assoc w (d ∷ joined_by d (u ∷ ws)) (d ∷ joined_by d (v ∷ vs)))

joined_by_two : (d : ℕ) (v u : List ℕ) → joined_by d (v ∷ u ∷ []) ≡ v ++ (d ∷ u)
unfolding joined_by
joined_by_two d v u = refl

more-IsArgument : IsArgument (b'>' ∷ [])
more-IsArgument = ((cc, ground arith), (ground arith, ground arith))

swapped_text :
    (w : List ℕ) (ws : List (List ℕ)) (out g : List ℕ)
    → joined_by b' ' (w ∷ ws) ++ (single ++ (out ++ (less ++ g)))
      ≡ joined_by b' ' (w ∷ (ws ++ ((b'>' ∷ []) ∷ out ∷ []))) ++ (less ++ ((g ++ []) ++ []))
swapped_text w ws out g =
    rw
      (
        append-nil g,
        append-nil g,
        joined_by-append b' ' w ws (b'>' ∷ []) (out ∷ []),
        joined_by_two b' ' (b'>' ∷ []) out,
        append_assoc (joined_by b' ' (w ∷ ws)) (single ++ out) (less ++ g),
      )
      refl

-- For a command of less than 198 words with one space between two, then ` > ` and a name without
-- spaces, and then ` < ` and a name that does not end in a space, where neither words nor names
-- have `<`, `>` or NUL and no redirection is known yet, the shell finds the input only: `>` and the
-- name of the output become arguments, and no output is redirected.
pub parse_command_swapped :
    (w : List ℕ) (ws : List (List ℕ)) (out g : List ℕ)
    → All IsWord (w ∷ ws)
    → length (w ∷ ws) < 198
    → IsWord out
    → IsPlainName g
    → parse_command
        (joined_by b' ' (w ∷ ws) ++ (single ++ (out ++ (less ++ g))))
        (redirects (keeps none) stays)
      ≡ some (
        record { kind = kind_of w; args = w ∷ (ws ++ ((b'>' ∷ []) ∷ out ∷ [])) },
        redirects (reads g) stays,
      )
parse_command_swapped w ws out g h b k m =
    let more : List (List ℕ) = (b'>' ∷ []) ∷ out ∷ [] in
    let args =
      All-append IsArgument (w ∷ ws) more (words_IsArgument w ws h) (more-IsArgument, (k.0, tt)) in
    ap (λ t. parse_command t (redirects (keeps none) stays)) (swapped_text w ws out g)
    ∙ parse_command_rounds (joined_by b' ' (w ∷ (ws ++ more)) ++ (less ++ ((g ++ []) ++ []))) none
    ∙ ap (λ (q : Scan × Option ℕ). assemble none (find_output q.0) q.1)
        (first_found w (ws ++ more) args g stays nothing tt (output-IsName g stays m tt))
    ∙ parse_output w (ws ++ more) args g stays nothing tt m
    ∙ ap (λ c. c >>= result (some g) stays)
        (classify-some w (ws ++ more) (omega (arith, length-append ws more)))
