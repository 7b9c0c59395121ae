-- ===== src/Shell/Command/Reading.antt =====
-- What `parse_command` makes of a command with an input.
use systemprogramminglab.Prelude.{
  ℕ, suc, ◌+◌, ◌≡◌, ◌≢◌, refl, ◌∙◌, sym, ap, true, Option, none, some, List, [], ◌∷◌, ◌++◌,
  append_assoc, length, length-append, drop, All, Lacks, arith, ◌>>=◌, All-map, Lacks-append,
}
use systemprogramminglab.Libc.Texts.{joined_by-Lacks, c_text, c_text_stop, joined_by}
use systemprogramminglab.Shell.Command.{Scan, find_redirection, classify, pointed}
use systemprogramminglab.Shell.Command.Scans.{Behind, bytes, trimmed, drop-append}
use systemprogramminglab.Shell.Command.Rounds.{find_redirection_found, IsName}
use systemprogramminglab.Shell.Command.Outputs.{
  Target, stays, truncates, appends, output_text, IsTarget, IsPlainName, find_output, found_output,
  find_output_lem, drop_behind,
}
use systemprogramminglab.Shell.Command.Redirected.{
  IsArgument, words_cut, name_at, set_behind, c_text-trimmed, assemble, less, result,
}

module _ (front g : List ℕ) where
  -- The text behind the words, with `a` in front of the name of the input.
  abbrev behind : ℕ → List ℕ → List ℕ
  behind a rest = front ++ (0 ∷ a ∷ b' ' ∷ (g ++ rest))

  grouped : (a : ℕ) (rest : List ℕ) → (front ++ (0 ∷ a ∷ b' ' ∷ g)) ++ rest ≡ behind a rest
  grouped a rest = append_assoc front (0 ∷ a ∷ b' ' ∷ g) rest

  input_at :
      (rest : List ℕ)
      → c_text (g ++ rest) ≡ g
      → c_text (drop (length front + 3) (behind 0 rest)) ≡ g
  input_at rest e = ap c_text (drop-append front (0 ∷ 0 ∷ b' ' ∷ (g ++ rest)) 3) ∙ e

  same_length : length (front ++ (0 ∷ b'<' ∷ b' ' ∷ g)) ≡ length (front ++ (0 ∷ 0 ∷ b' ' ∷ g))
  same_length =
      omega
        (arith, length-append front (0 ∷ b'<' ∷ b' ' ∷ g), length-append front (0 ∷ 0 ∷ b' ' ∷ g))

  output_at :
      (op f : List ℕ) (z : Behind) (n : ℕ)
      → length op ≡ n
      → Lacks 0 f
      → c_text (
          drop
            (length (front ++ (0 ∷ b'<' ∷ b' ' ∷ g)) + n)
            (behind 0 (op ++ (f ++ bytes (trimmed z)))))
        ≡ f
  output_at op f z n e k =
      rw (same_length, sym (grouped 0 (op ++ (f ++ bytes (trimmed z)))))
        (name_at (front ++ (0 ∷ 0 ∷ b' ' ∷ g)) op f z n e k)

less-Lacks : Lacks 0 less
less-Lacks = ground arith

module _ (w : List ℕ) (ws : List (List ℕ)) (h : All IsArgument (w ∷ ws)) (g : List ℕ) where
  abbrev words : List ℕ
  words = joined_by b' ' (w ∷ ws)

  assemble_done :
      (rest : List ℕ) (output append : Option ℕ) (at : ℕ)
      → c_text (g ++ rest) ≡ g
      → assemble none
          (
            record {
              text = (words ++ (0 ∷ b'<' ∷ b' ' ∷ g)) ++ rest;
              at = at;
              command_end = some (suc (length words));
            },
            (output, append),
          )
          (some (length words + 3))
        ≡ (classify (w ∷ ws) >>= λ command. some (
          command,
          record {
            input = some g;
            output = pointed (behind words g 0 rest) none output;
            append = pointed (behind words g 0 rest) none append;
          },
        ))
  assemble_done rest output append at e =
      rw
        (
          grouped words g b'<' rest,
          words_cut w ws (b' ' ∷ (g ++ rest)) b'<' h,
          set_behind words (b' ' ∷ (g ++ rest)) 0 b'<' 0,
          input_at words g rest e,
        )
        refl

  abbrev found : List ℕ → Scan
  found rest = record {
    text = (words ++ (0 ∷ b'<' ∷ b' ' ∷ g)) ++ rest;
    at = suc (length words);
    command_end = some (suc (length words));
  }

  words-Lacks : (b : ℕ) → b' ' ≢ b → All (Lacks b) (w ∷ ws) → Lacks b words
  words-Lacks b ne k = joined_by-Lacks b b' ' (w ∷ ws) ne k

  assemble-found :
      (o : Target) (z : Behind)
      → IsTarget o
      → Lacks 0 g
      → assemble none
          (found_output o
            (words ++ (0 ∷ b'<' ∷ b' ' ∷ g))
            (trimmed z)
            (found (output_text o ++ bytes (trimmed z))))
          (some (length words + 3))
        ≡ (classify (w ∷ ws) >>= result (some g) o)
  assemble-found stays z n k =
      assemble_done (bytes (trimmed z)) none none (suc (length words)) (c_text-trimmed g z k)
  assemble-found (truncates f) z n k =
      let rest = 0 ∷ b'>' ∷ b' ' ∷ (f ++ bytes (trimmed (trimmed z))) in
      let pre = words ++ (0 ∷ b'<' ∷ b' ' ∷ g) in
      assemble_done rest (some (length pre + 3)) none (suc (length pre)) (c_text_stop g _ k)
      ∙ ap
          (λ t. classify (w ∷ ws) >>= λ command.
            some (command, record { input = some g; output = some t; append = none }))
          (output_at words g (0 ∷ b'>' ∷ b' ' ∷ []) f (trimmed z) 3 refl n.0.1)
  assemble-found (appends f) z n k =
      let rest = 0 ∷ b'>' ∷ b'>' ∷ b' ' ∷ (f ++ bytes (trimmed (trimmed z))) in
      let pre = words ++ (0 ∷ b'<' ∷ b' ' ∷ g) in
      assemble_done rest none (some (length pre + 4)) (suc (length pre)) (c_text_stop g _ k)
      ∙ ap
          (λ t. classify (w ∷ ws) >>= λ command.
            some (command, record { input = some g; output = none; append = some t }))
          (output_at words g (0 ∷ b'>' ∷ b'>' ∷ b' ' ∷ []) f (trimmed z) 4 refl n.0.1)

  found_drop :
      (rest : List ℕ)
      → drop (suc (length words)) ((words ++ (0 ∷ b'<' ∷ b' ' ∷ g)) ++ rest)
        ≡ b'<' ∷ b' ' ∷ (g ++ rest)
  found_drop rest =
      ap (drop (suc (length words))) (grouped words g b'<' rest)
      ∙ drop_behind words (b'<' ∷ b' ' ∷ (g ++ rest)) 0

  found_place :
      suc (length words) + length (b'<' ∷ b' ' ∷ g) ≡ length (words ++ (0 ∷ b'<' ∷ b' ' ∷ g))
  found_place = omega (arith, length-append words (0 ∷ b'<' ∷ b' ' ∷ g))

  mid_more : Lacks b'>' g → Lacks b'>' (b'<' ∷ b' ' ∷ g)
  mid_more k = ((λ e. omega arith), ((λ e. omega arith), k))

  mid_nul : Lacks 0 g → Lacks 0 (b'<' ∷ b' ' ∷ g)
  mid_nul k = (cc, (cc, k))

  pub parse_output :
      (o : Target) (z : Behind)
      → IsTarget o
      → IsPlainName g
      → assemble none
          (find_output (found (output_text o ++ bytes (trimmed z))))
          (some (length words + 3))
        ≡ (classify (w ∷ ws) >>= result (some g) o)
  parse_output o z n m =
      let rest = output_text o ++ bytes (trimmed z) in
      let pre = words ++ (0 ∷ b'<' ∷ b' ' ∷ g) in
      ap (λ q. assemble none q (some (length words + 3)))
        (find_output_lem pre (b'<' ∷ b' ' ∷ g) (pre ++ rest) (trimmed z) (suc (length words))
          (some (suc (length words))) found_place (mid_more m.1.0) (mid_nul m.0.1) o
          (found_drop rest) refl n)
      ∙ assemble-found o z n m.0.1

  pub first_found :
      (o : Target) (z : Behind)
      → IsTarget o
      → IsName (g ++ output_text o)
      → find_redirection less true (record {
        text = words ++ (less ++ ((g ++ output_text o) ++ bytes z));
        at = 0;
        command_end = none;
      })
        ≡ (found (output_text o ++ bytes (trimmed z)), some (length words + 3))
  first_found o z n m =
      find_redirection_found b' ' b'<' (b' ' ∷ []) words words (g ++ output_text o)
        (words ++ (less ++ ((g ++ output_text o) ++ bytes z))) z 0 none refl refl (omega arith) (cc)
        (words-Lacks b'<' (cc) (All-map (λ w h. h.1.0) (w ∷ ws) h))
        (Lacks-append 0 words less (words-Lacks 0 (cc) (All-map (λ w h. h.1.1) (w ∷ ws) h))
          less-Lacks)
        m
      ∙ ap
          (λ t. (
            record { text = t; at = suc (length words); command_end = some (suc (length words)) },
            some (length words + 3),
          ))
          (ap (λ t. words ++ (0 ∷ b'<' ∷ b' ' ∷ t))
              (append_assoc g (output_text o) (bytes (trimmed z)))
            ∙ sym (grouped words g b'<' (output_text o ++ bytes (trimmed z))))
