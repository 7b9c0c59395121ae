-- ===== src/Shell/Line/Faults.antt =====
-- Lines that the shell does not survive.
use systemprogramminglab.Prelude.{
  ℕ, zero, suc, ◌≡◌, ◌≢◌, refl, ◌∙◌, sym, ap, Option, none, some, List, [], ◌∷◌, ◌++◌, length,
  length-append, arith, append-nil, All-replicate, replicate, lt→ltb, drop_last-append, Lacks,
}
use systemprogramminglab.Libc.Texts.{
  c_text_whole, strstr-Lacks, tokens, tokens_sep, tokens_one, EndsNot,
}
use systemprogramminglab.Shell.Pipelines.{parse_pipelines, drop_daemon_plain}
use systemprogramminglab.Shell.Command.{Scan, Redirects, parse_command, classify}
use systemprogramminglab.Shell.Command.Scans.{nothing}
use systemprogramminglab.Shell.Command.Rounds.{find_redirection_missing}
use systemprogramminglab.Shell.Command.Outputs.{find_output, find_output_lem, stays}
use systemprogramminglab.Shell.Command.Redirected.{tokens_nil, parse_command_rounds, assemble, less}
use systemprogramminglab.Shell.Line.{run_line, parse_commands}

spaces_tokens : (n d : ℕ) → tokens d (replicate n d) ≡ []
spaces_tokens zero d = tokens_nil d
spaces_tokens (suc n) d = tokens_sep d (replicate n d) ∙ spaces_tokens n d

spaces_Lacks : (b n : ℕ) → b' ' ≢ b → Lacks b (replicate n b' ')
spaces_Lacks b n ne = All-replicate (λ c. c ≢ b) n b' ' ne

spaces_EndsNot : (n : ℕ) → EndsNot b'&' (replicate (suc n) b' ')
spaces_EndsNot zero = ground arith
spaces_EndsNot (suc n) = spaces_EndsNot n

parse_pipelines_spaces :
    (n : ℕ) → parse_pipelines (replicate (suc n) b' ') ≡ some (replicate n b' ' ∷ [])
unfolding parse_pipelines
parse_pipelines_spaces n =
    rw
      (
        drop_daemon_plain (replicate (suc n) b' ') (spaces_EndsNot n),
        tokens_one b'|' (replicate (suc n) b' ') ((cc), spaces_Lacks b'|' (suc n) (cc)),
      )
      refl

assemble_spaces :
    (n : ℕ) (known : Option (List ℕ))
    → assemble known
        (record { text = replicate n b' '; at = 0; command_end = none }, (none, none))
        none
      ≡ none
unfolding classify
assemble_spaces n known =
    rw (c_text_whole (replicate n b' ') (spaces_Lacks 0 n (cc)), spaces_tokens n b' ') refl

parse_command_spaces :
    (n : ℕ) (known : Option (List ℕ))
    → parse_command
        (replicate n b' ' ++ [])
        (record { input = known; output = none; append = none })
      ≡ none
parse_command_spaces n known =
    let text = replicate n b' ' in
    let start : Scan = record { text = text ++ []; at = 0; command_end = none } in
    parse_command_rounds (text ++ []) known
    ∙ ap (λ (q : Scan × Option ℕ). assemble known (find_output q.0) q.1) {y = (start, none)}
        (find_redirection_missing less text nothing _ start refl (spaces_Lacks 0 n (cc)) (
          strstr-Lacks b' ' b'<' (b' ' ∷ []) (text ++ [])
            (rw (append-nil text) (spaces_Lacks b'<' n (cc)))))
    ∙ ap (λ q. assemble known q none)
        (find_output_lem text text (text ++ []) nothing 0 none (omega arith)
          (spaces_Lacks b'>' n (cc)) (spaces_Lacks 0 n (cc)) stays refl refl tt)
    ∙ rw (append-nil text) (assemble_spaces n known)

-- On a line of nothing but spaces the shell reads through NULL: there is no first word, and
-- `parse_command` compares it.
pub run_line_blank :
    (directory : List ℕ) (n : ℕ)
    → run_line directory (replicate (suc n) b' ' ++ (b'\n' ∷ [])) ≡ none
unfolding run_line parse_commands
run_line_blank directory n =
    let nothing_known : Redirects = record { input = none; output = none; append = none } in
    let blank : parse_command (replicate n b' ') nothing_known ≡ none =
      ap (λ t. parse_command t nothing_known) (sym (append-nil (replicate n b' ')))
      ∙ parse_command_spaces n none in
    let spaces : List ℕ = replicate (suc n) b' ' in
    rw
      (
        lt→ltb 1 (length (spaces ++ (b'\n' ∷ [])))
            (omega (arith, length-append spaces (b'\n' ∷ []))),
        drop_last-append spaces b'\n',
        parse_pipelines_spaces n,
        blank,
      )
      refl
