-- ===== src/Shell/Command/Written.antt =====
-- What `parse_command` makes of a command with redirections.
use systemprogramminglab.Prelude.{
  ℕ, ◌≡◌, refl, ◌∙◌, sym, ap, subst, Bool, true, false, Option, none, some, List, [], ◌∷◌, ◌++◌,
  append_assoc, append-nil, length, All, Lacks, arith, ◌>>=◌, ◌<◌, lt→ltb, All-map, Lacks-append,
}
use systemprogramminglab.Libc.Texts.{joined_by-Lacks, strstr-Lacks, EndsNot, joined_by}
use systemprogramminglab.Shell.Command.{Scan, Redirects, parse_command, classify, kind_of, is_none}
use systemprogramminglab.Shell.Command.Scans.{Behind, nothing, space, bytes, seen}
use systemprogramminglab.Shell.Command.Rounds.{find_redirection_missing, IsName}
use systemprogramminglab.Shell.Command.Outputs.{
  Target, stays, truncates, appends, output_text, IsTarget, IsPlainName, find_output, found_output,
  find_output_lem, seen-Lacks, single, double, single-Lacks, double-Lacks,
}
use systemprogramminglab.Shell.Command.Reading.{parse_output, first_found}
use systemprogramminglab.Shell.Command.Redirected.{
  IsArgument, parse_command_rounds, assemble, less, result, assemble_stays, assemble_truncates,
  assemble_appends, output_of, append_of,
}

-- A word of a command.
abbrev pub IsWord : List ℕ → Type 0
IsWord w = IsArgument w × Lacks b'>' w

pub words_IsArgument :
    (w : List ℕ) (ws : List (List ℕ)) → All IsWord (w ∷ ws) → All IsArgument (w ∷ ws)
words_IsArgument w ws h = All-map (λ w h. h.0) (w ∷ ws) h

-- Where a command reads: where the commands in front of it have said, or from a file.
pub data Input : Type 0 where
  keeps : Option (List ℕ) → Input
  reads : List ℕ → Input

abbrev pub input_text : Input → List ℕ
input_text (keeps known) = []
input_text (reads f) = b' ' ∷ b'<' ∷ b' ' ∷ f

abbrev pub known_before : Input → Option (List ℕ)
known_before (keeps known) = known
known_before (reads f) = none

abbrev pub input_of : Input → Option (List ℕ)
input_of (keeps known) = known
input_of (reads f) = some f

abbrev pub IsInput : Input → Type 0
IsInput (keeps known) = Unit
IsInput (reads f) = IsPlainName f

single_less : Lacks b'<' single
single_less = ground arith

double_less : Lacks b'<' double
double_less = ground arith

output-Lacks_less : (o : Target) → IsTarget o → Lacks b'<' (output_text o)
output-Lacks_less stays n = tt
output-Lacks_less (truncates f) n = Lacks-append b'<' single f single_less n.1.1
output-Lacks_less (appends f) n = Lacks-append b'<' double f double_less n.1.1

output-Lacks_nul : (o : Target) → IsTarget o → Lacks 0 (output_text o)
output-Lacks_nul stays n = tt
output-Lacks_nul (truncates f) n = Lacks-append 0 single f single-Lacks n.0.1
output-Lacks_nul (appends f) n = Lacks-append 0 double f double-Lacks n.0.1

EndsNot-append : (b : ℕ) (xs f : List ℕ) → EndsNot b f → EndsNot b (xs ++ f)
EndsNot-append b [] f h = h
EndsNot-append b (x ∷ []) [] h = absurd h
EndsNot-append b (x ∷ []) (y ∷ f) h = h
EndsNot-append b (x ∷ y ∷ xs) f h = EndsNot-append b (y ∷ xs) f h

pub output-IsName :
    (g : List ℕ) (o : Target) → IsPlainName g → IsTarget o → IsName (g ++ output_text o)
output-IsName g stays m n = subst IsName (sym (append-nil g)) m.0
output-IsName g (truncates f) m n = (
  EndsNot-append b' ' g (single ++ f) (EndsNot-append b' ' single f n.0.0),
  Lacks-append 0 g (single ++ f) m.0.1 (output-Lacks_nul (truncates f) n),
)
output-IsName g (appends f) m n = (
  EndsNot-append b' ' g (double ++ f) (EndsNot-append b' ' double f n.0.0),
  Lacks-append 0 g (double ++ f) m.0.1 (output-Lacks_nul (appends f) n),
)

module _ (w : List ℕ) (ws : List (List ℕ)) (h : All IsWord (w ∷ ws)) where
  front_nul : Lacks 0 (joined_by b' ' (w ∷ ws))
  front_nul = joined_by-Lacks 0 b' ' (w ∷ ws) (cc) (All-map (λ w h. h.0.1.1) (w ∷ ws) h)

  front_less : Lacks b'<' (joined_by b' ' (w ∷ ws))
  front_less = joined_by-Lacks b'<' b' ' (w ∷ ws) (cc) (All-map (λ w h. h.0.1.0) (w ∷ ws) h)

  front_more : Lacks b'>' (joined_by b' ' (w ∷ ws))
  front_more = joined_by-Lacks b'>' b' ' (w ∷ ws) (cc) (All-map (λ w h. h.1) (w ∷ ws) h)

  assemble_output :
      (known : Option (List ℕ)) (o : Target) (z : Behind)
      → IsTarget o
      → assemble known
          (found_output o (joined_by b' ' (w ∷ ws)) z (record {
            text = joined_by b' ' (w ∷ ws) ++ (output_text o ++ bytes z);
            at = 0;
            command_end = none;
          }))
          none
        ≡ (classify (w ∷ ws) >>= result known o)
  assemble_output known stays z n = assemble_stays w ws (words_IsArgument w ws h) known z
  assemble_output known (truncates f) z n =
      assemble_truncates w ws (words_IsArgument w ws h) known f
        (joined_by b' ' (w ∷ ws) ++ (output_text (truncates f) ++ bytes z)) z n.0.1
  assemble_output known (appends f) z n =
      assemble_appends w ws (words_IsArgument w ws h) known f
        (joined_by b' ' (w ∷ ws) ++ (output_text (appends f) ++ bytes z)) z n.0.1

  parse_keeps :
      (known : Option (List ℕ)) (o : Target) (z : Behind)
      → IsTarget o
      → parse_command
          (joined_by b' ' (w ∷ ws) ++ (output_text o ++ bytes z))
          (record { input = known; output = none; append = none })
        ≡ (classify (w ∷ ws) >>= result known o)
  parse_keeps known o z n =
      let front = joined_by b' ' (w ∷ ws) in
      let cmd = front ++ (output_text o ++ bytes z) in
      let start : Scan = record { text = cmd; at = 0; command_end = none } in
      let parted = append_assoc front (output_text o) (bytes z) in
      let lacks = Lacks-append b'<' front (output_text o) front_less (output-Lacks_less o n) in
      parse_command_rounds cmd known
      ∙ ap (λ (q : Scan × Option ℕ). assemble known (find_output q.0) q.1) {y = (start, none)}
          (find_redirection_missing less (front ++ output_text o) z (is_none known) start
            (sym parted) (Lacks-append 0 front (output_text o) front_nul (output-Lacks_nul o n))
            (strstr-Lacks b' ' b'<' (b' ' ∷ []) ((front ++ output_text o) ++ seen z)
              (Lacks-append b'<' (front ++ output_text o) (seen z) lacks (seen-Lacks b'<' z (cc)))))
      ∙ ap (λ q. assemble known q none)
          (find_output_lem front front cmd z 0 none (omega arith) front_more front_nul o refl refl
            n)
      ∙ assemble_output known o z n

  parse_reads :
      (g : List ℕ) (o : Target) (z : Behind)
      → IsPlainName g
      → IsTarget o
      → parse_command
          (joined_by b' ' (w ∷ ws) ++ (less ++ (g ++ (output_text o ++ bytes z))))
          (record { input = none; output = none; append = none })
        ≡ (classify (w ∷ ws) >>= result (some g) o)
  parse_reads g o z m n =
      let front = joined_by b' ' (w ∷ ws) in
      ap
        (λ t.
          parse_command (front ++ (less ++ t))
            (record { input = none; output = none; append = none }))
        (sym (append_assoc g (output_text o) (bytes z)))
      ∙ parse_command_rounds (front ++ (less ++ ((g ++ output_text o) ++ bytes z))) none
      ∙ ap (λ (q : Scan × Option ℕ). assemble none (find_output q.0) q.1)
          (first_found w ws (words_IsArgument w ws h) g o z n (output-IsName g o m n))
      ∙ parse_output w ws (words_IsArgument w ws h) g o z n m

  parse_any :
      (i : Input) (o : Target) (z : Behind)
      → IsInput i
      → IsTarget o
      → parse_command
          (joined_by b' ' (w ∷ ws) ++ (input_text i ++ (output_text o ++ bytes z)))
          (record { input = known_before i; output = none; append = none })
        ≡ (classify (w ∷ ws) >>= result (input_of i) o)
  parse_any (keeps known) o z m n = parse_keeps known o z n
  parse_any (reads g) o z m n = parse_reads g o z m n

abbrev pub blank : Bool → List ℕ
blank false = []
blank true = b' ' ∷ []

abbrev pub command_text : List (List ℕ) → Input → Target → Bool → List ℕ
command_text ws i o spaced = joined_by b' ' ws ++ (input_text i ++ (output_text o ++ blank spaced))

abbrev pub redirects : Input → Target → Redirects
redirects i o = record { input = input_of i; output = output_of o; append = append_of o }

parse_blank :
    (w : List ℕ) (ws : List (List ℕ)) (i : Input) (o : Target) (spaced : Bool)
    → All IsWord (w ∷ ws)
    → IsInput i
    → IsTarget o
    → parse_command
        (command_text (w ∷ ws) i o spaced)
        (record { input = known_before i; output = none; append = none })
      ≡ (classify (w ∷ ws) >>= result (input_of i) o)
parse_blank w ws i o false h m n = parse_any w ws h i o nothing m n
parse_blank w ws i o true h m n = parse_any w ws h i o space m n

pub classify-some :
    (w : List ℕ) (ws : List (List ℕ))
    → length (w ∷ ws) < 200
    → classify (w ∷ ws) ≡ some (record { kind = kind_of w; args = w ∷ ws })
unfolding classify
classify-some w ws b = rw (lt→ltb (length (w ∷ ws)) 200 b) refl

-- A command of less than 200 words with one space between two, without `<`, `>` and NUL, then at
-- most one ` < ` with a name, then at most one ` > ` or ` >> ` with a name, and then perhaps a
-- space, is taken apart into the words and the names. The names have no `<`, `>` or NUL and do not
-- end in a space. No output is known yet, and no input either if there is a ` < `; without it, the
-- input that is known stays.
pub parse_command_lem :
    (w : List ℕ) (ws : List (List ℕ)) (i : Input) (o : Target) (spaced : Bool)
    → All IsWord (w ∷ ws)
    → length (w ∷ ws) < 200
    → IsInput i
    → IsTarget o
    → parse_command (command_text (w ∷ ws) i o spaced) (redirects (keeps (known_before i)) stays)
      ≡ some (record { kind = kind_of w; args = w ∷ ws }, redirects i o)
parse_command_lem w ws i o spaced h b m n =
    parse_blank w ws i o spaced h m n ∙ ap (λ c. c >>= result (input_of i) o) (classify-some w ws b)
