-- ===== src/Shell/Command/Redirected.antt =====
-- A command written as words, an input and an output is taken apart into those.
use systemprogramminglab.Prelude.{
  ℕ, suc, ◌+◌, ◌≡◌, refl, ◌∙◌, ap, Option, none, some, List, [], ◌∷◌, ◌++◌, append-nil, length, set,
  drop, All, Lacks, arith, ◌>>=◌, All-map,
}
use systemprogramminglab.Libc.Texts.{
  joined_by-Lacks, c_text, c_text_stop, strstr, strstr-Lacks, EndsNot, IsToken, tokens, joined_by,
  tokens-joined_by, tokens-joined_more,
}
use systemprogramminglab.Shell.Command.{
  Scan, Command, Redirects, find_redirection, parse_command, classify, pointed, cut, is_none,
}
use systemprogramminglab.Shell.Command.Scans.{
  Behind, nothing, space, nul, bytes, seen, trimmed, drop-append, c_text-append,
}
use systemprogramminglab.Shell.Command.Outputs.{
  Target, stays, truncates, appends, find_output, found_output,
}

-- A word of a command, in which `>` may stand.
abbrev pub IsArgument : List ℕ → Type 0
IsArgument w = IsToken b' ' w × (Lacks b'<' w × Lacks 0 w)

pub set_behind :
    (pre rest : List ℕ) (a b v : ℕ)
    → set (pre ++ (a ∷ b ∷ rest)) (suc (length pre)) v ≡ pre ++ (a ∷ v ∷ rest)
set_behind [] rest a b v = refl
set_behind (x ∷ pre) rest a b v = ap (λ t. x ∷ t) (set_behind pre rest a b v)

pub tokens_nil : (d : ℕ) → tokens d [] ≡ []
unfolding tokens systemprogramminglab.Libc.Texts.parts
tokens_nil d = refl

-- The words are found with or without a space behind them.
tokens-seen :
    (w : List ℕ) (ws : List (List ℕ)) (z : Behind)
    → All IsArgument (w ∷ ws)
    → tokens b' ' (joined_by b' ' (w ∷ ws) ++ seen z) ≡ w ∷ ws
tokens-seen w ws space h =
    tokens-joined_more b' ' w ws [] (All-map (λ w h. h.0) (w ∷ ws) h)
    ∙ ap (λ t. (w ∷ ws) ++ t) (tokens_nil b' ')
    ∙ append-nil (w ∷ ws)
tokens-seen w ws nothing h =
    ap (tokens b' ') (append-nil (joined_by b' ' (w ∷ ws)))
    ∙ tokens-joined_by b' ' w ws (All-map (λ w h. h.0) (w ∷ ws) h)
tokens-seen w ws nul h =
    ap (tokens b' ') (append-nil (joined_by b' ' (w ∷ ws)))
    ∙ tokens-joined_by b' ' w ws (All-map (λ w h. h.0) (w ∷ ws) h)

-- The end of `parse_command`, behind the loop over the redirections.
abbrev pub assemble :
    Option (List ℕ) → Scan × (Option ℕ × Option ℕ) → Option ℕ → Option (Command × Redirects)
assemble known (u, (output, append)) input =
    let text = cut u.text u.command_end in
    do
      command ← classify (tokens b' ' (c_text text))
      some (
        command,
        record {
          input = pointed text known input;
          output = pointed text none output;
          append = pointed text none append;
        },
      )

abbrev pub less : List ℕ
less = b' ' ∷ b'<' ∷ b' ' ∷ []

pub parse_command_rounds :
    (cmd : List ℕ) (known : Option (List ℕ))
    → parse_command cmd (record { input = known; output = none; append = none }) ≡ (
        let (s, input) =
          find_redirection less
            (is_none known)
            (record { text = cmd; at = 0; command_end = none }) in
        assemble known (find_output s) input)
unfolding parse_command
parse_command_rounds cmd known = refl

-- What a command writes its output to is pointed to in the end.
abbrev pub output_of : Target → Option (List ℕ)
output_of stays = none
output_of (truncates f) = some f
output_of (appends f) = none

abbrev pub append_of : Target → Option (List ℕ)
append_of stays = none
append_of (truncates f) = none
append_of (appends f) = some f

abbrev pub result : Option (List ℕ) → Target → Command → Option (Command × Redirects)
result input o command =
    some (command, record { input = input; output = output_of o; append = append_of o })

pub c_text-trimmed : (f : List ℕ) (z : Behind) → Lacks 0 f → c_text (f ++ bytes (trimmed z)) ≡ f
c_text-trimmed f nothing h = c_text-append f nothing h ∙ append-nil f
c_text-trimmed f space h = c_text-append f nul h ∙ append-nil f
c_text-trimmed f nul h = c_text-append f nul h ∙ append-nil f

-- The words in front of a NUL.
pub words_cut :
    (w : List ℕ) (ws : List (List ℕ)) (rest : List ℕ) (b : ℕ)
    → All IsArgument (w ∷ ws)
    → tokens b' ' (
        c_text (
          set
            (joined_by b' ' (w ∷ ws) ++ (0 ∷ b ∷ rest))
            (suc (length (joined_by b' ' (w ∷ ws))))
            0))
      ≡ w ∷ ws
words_cut w ws rest b h =
    ap (λ t. tokens b' ' (c_text t)) (set_behind (joined_by b' ' (w ∷ ws)) rest 0 b 0)
    ∙ ap (tokens b' ') (
        c_text_stop (joined_by b' ' (w ∷ ws)) (0 ∷ rest)
          (joined_by-Lacks 0 b' ' (w ∷ ws) (cc) (All-map (λ w h. h.1.1) (w ∷ ws) h)))
    ∙ tokens-joined_by b' ' w ws (All-map (λ w h. h.0) (w ∷ ws) h)

-- The name behind a redirection at `length pre`, of two or three bytes more.
pub name_at :
    (pre op f : List ℕ) (z : Behind) (n : ℕ)
    → length op ≡ n
    → Lacks 0 f
    → c_text (drop (length pre + n) (pre ++ (op ++ (f ++ bytes (trimmed z))))) ≡ f
name_at pre op f z n e h =
    ap c_text (
      drop-append pre (op ++ (f ++ bytes (trimmed z))) n
      ∙ ap (λ k. drop k (op ++ (f ++ bytes (trimmed z)))) {y = length op + 0} (omega (arith, e))
      ∙ drop-append op (f ++ bytes (trimmed z)) 0)
    ∙ c_text-trimmed f z h

module _ (w : List ℕ) (ws : List (List ℕ)) (h : All IsArgument (w ∷ ws)) where
  pub assemble_stays :
      (known : Option (List ℕ)) (z : Behind)
      → assemble known
          (found_output stays
            (joined_by b' ' (w ∷ ws))
            z
            (record { text = joined_by b' ' (w ∷ ws) ++ bytes z; at = 0; command_end = none }))
          none
        ≡ (classify (w ∷ ws) >>= result known stays)
  assemble_stays known z =
      rw
        (
          c_text-append (joined_by b' ' (w ∷ ws)) z
              (joined_by-Lacks 0 b' ' (w ∷ ws) (cc) (All-map (λ w h. h.1.1) (w ∷ ws) h)),
          tokens-seen w ws z h,
        )
        refl

  pub assemble_truncates :
      (known : Option (List ℕ)) (f text : List ℕ) (z : Behind)
      → Lacks 0 f
      → assemble known
          (found_output
            (truncates f)
            (joined_by b' ' (w ∷ ws))
            z
            (record { text = text; at = 0; command_end = none }))
          none
        ≡ (classify (w ∷ ws) >>= result known (truncates f))
  assemble_truncates known f text z k =
      let front = joined_by b' ' (w ∷ ws) in
      rw
        (
          words_cut w ws (b' ' ∷ (f ++ bytes (trimmed z))) b'>' h,
          set_behind front (b' ' ∷ (f ++ bytes (trimmed z))) 0 b'>' 0,
          name_at front (0 ∷ 0 ∷ b' ' ∷ []) f z 3 refl k,
        )
        refl

  pub assemble_appends :
      (known : Option (List ℕ)) (f text : List ℕ) (z : Behind)
      → Lacks 0 f
      → assemble known
          (found_output
            (appends f)
            (joined_by b' ' (w ∷ ws))
            z
            (record { text = text; at = 0; command_end = none }))
          none
        ≡ (classify (w ∷ ws) >>= result known (appends f))
  assemble_appends known f text z k =
      let front = joined_by b' ' (w ∷ ws) in
      rw
        (
          words_cut w ws (b'>' ∷ b' ' ∷ (f ++ bytes (trimmed z))) b'>' h,
          set_behind front (b'>' ∷ b' ' ∷ (f ++ bytes (trimmed z))) 0 b'>' 0,
          name_at front (0 ∷ 0 ∷ b'>' ∷ b' ' ∷ []) f z 4 refl k,
        )
        refl
