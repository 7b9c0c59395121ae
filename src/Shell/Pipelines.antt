-- ===== src/Shell/Pipelines.antt =====
-- `parse_pipelines` of pa2/main.c.
use systemprogramminglab.Prelude.{
  ℕ, ◌≡◌, ◌≢◌, refl, ◌∙◌, sym, ap, ◌&&◌, Option, none, some, List, [], ◌∷◌, ◌++◌, map, ◌==◌,
  append_assoc, append-nil, arith, if◌then◌else◌, ◌>>=◌, All, Lacks, Lacks-append,
}
use systemprogramminglab.Libc.Texts.{tokens, IsToken, EndsNot, tokens-cons, tokens_one}

-- The text `cmd` without ` &` at its end. With fewer than two bytes the tests read in front of the
-- array, unless the first of them fails.
unfoldable pub drop_daemon : List ℕ → Option (List ℕ)
drop_daemon [] = none
drop_daemon (c ∷ []) = if c == b'&' then none else some (c ∷ [])
drop_daemon (c ∷ d ∷ []) = some (if (d == b'&') && (c == b' ') then [] else c ∷ d ∷ [])
drop_daemon (c ∷ d ∷ e ∷ cmd) = do rest ← drop_daemon (d ∷ e ∷ cmd); some (c ∷ rest)

-- `if (*pos == ' ') pos++`
abbrev pub skip_space : List ℕ → List ℕ
skip_space [] = []
skip_space (c ∷ s) = if c == b' ' then s else c ∷ s

-- The contents of the nodes that are inserted, in order.
unfoldable pub parse_pipelines : List ℕ → Option (List (List ℕ))
unfolding drop_daemon
parse_pipelines cmd = do cmd' ← drop_daemon cmd; some (map skip_space (tokens b'|' cmd'))

drop_daemon_tail : (s : List ℕ) → s ≢ [] → drop_daemon (s ++ (b' ' ∷ b'&' ∷ [])) ≡ some s
unfolding drop_daemon
drop_daemon_tail [] ne = absurd (ne refl)
drop_daemon_tail (c ∷ []) ne = refl
drop_daemon_tail (c ∷ d ∷ []) ne = refl
drop_daemon_tail (c ∷ d ∷ e ∷ s) ne = rw (drop_daemon_tail (d ∷ e ∷ s) (cc)) refl

pub drop_daemon_plain : (s : List ℕ) → EndsNot b'&' s → drop_daemon s ≡ some s
unfolding drop_daemon
drop_daemon_plain [] h = absurd h
drop_daemon_plain (c ∷ []) h = ground arith
drop_daemon_plain (c ∷ d ∷ []) h = ground arith
drop_daemon_plain (c ∷ d ∷ e ∷ s) h = rw (drop_daemon_plain (d ∷ e ∷ s) h) refl

-- ` &` at the end of a line that is not empty otherwise changes nothing.
pub parse_pipelines_daemon :
    (s : List ℕ) → EndsNot b'&' s → parse_pipelines (s ++ (b' ' ∷ b'&' ∷ [])) ≡ parse_pipelines s
unfolding parse_pipelines
parse_pipelines_daemon [] h = absurd h
parse_pipelines_daemon (c ∷ s) h =
    rw (drop_daemon_tail (c ∷ s) (cc), drop_daemon_plain (c ∷ s) h) refl

-- Commands with ` | ` between two.
unfoldable pub piped : List (List ℕ) → List ℕ
piped [] = []
piped (c ∷ []) = c
piped (c ∷ d ∷ cs) = c ++ (b' ' ∷ b'|' ∷ b' ' ∷ piped (d ∷ cs))

-- The commands of a pipeline, each but the last with the space behind it.
unfoldable pub contents : List (List ℕ) → List (List ℕ)
contents [] = []
contents (c ∷ []) = c ∷ []
contents (c ∷ d ∷ cs) = (c ++ (b' ' ∷ [])) ∷ contents (d ∷ cs)

abbrev pub IsStarted : List ℕ → Type 0
IsStarted [] = ⊥
IsStarted (c ∷ s) = c ≢ b' '

abbrev pub IsCommand : List ℕ → Type 0
IsCommand c = IsStarted c × Lacks b'|' c

skip_space-IsStarted : (c t : List ℕ) → IsStarted c → skip_space (c ++ t) ≡ c ++ t
skip_space-IsStarted [] t h = absurd h
skip_space-IsStarted (x ∷ c) t h = ground arith

spaced-IsToken : (c : List ℕ) → Lacks b'|' c → IsToken b'|' (b' ' ∷ c)
spaced-IsToken c h = (cc, (ground arith, h))

started-IsToken : (c t : List ℕ) → IsStarted c → Lacks b'|' (c ++ t) → IsToken b'|' (c ++ t)
started-IsToken [] t h k = absurd h
started-IsToken (x ∷ c) t h k = (cc, k)

tokens_spaced :
    (c : List ℕ) (cs : List (List ℕ))
    → All IsCommand (c ∷ cs)
    → map skip_space (tokens b'|' (b' ' ∷ piped (c ∷ cs))) ≡ contents (c ∷ cs)
unfolding piped contents
tokens_spaced c [] h = ap (map skip_space) (tokens_one b'|' (b' ' ∷ c) (spaced-IsToken c h.0.1))
tokens_spaced c (d ∷ cs) h =
    let w : List ℕ = b' ' ∷ (c ++ (b' ' ∷ [])) in
    let lacks = Lacks-append b'|' c (b' ' ∷ []) h.0.1 (ground arith) in
    ap (λ t. map skip_space (tokens b'|' (b' ' ∷ t)))
      (sym (append_assoc c (b' ' ∷ []) (b'|' ∷ b' ' ∷ piped (d ∷ cs))))
    ∙ ap (map skip_space) (tokens-cons b'|' w (b' ' ∷ piped (d ∷ cs)) (spaced-IsToken _ lacks))
    ∙ ap (λ t. (c ++ (b' ' ∷ [])) ∷ t) (tokens_spaced d cs h.1)

tokens-piped :
    (c : List ℕ) (cs : List (List ℕ))
    → All IsCommand (c ∷ cs)
    → map skip_space (tokens b'|' (piped (c ∷ cs))) ≡ contents (c ∷ cs)
unfolding piped contents
tokens-piped c [] h =
    ap (λ t. map skip_space (tokens b'|' t)) (sym (append-nil c))
    ∙ ap (map skip_space)
        (tokens_one b'|' (c ++ []) (started-IsToken c [] h.0.0 (Lacks-append b'|' c [] h.0.1 tt)))
    ∙ ap (λ t. t ∷ []) (skip_space-IsStarted c [] h.0.0 ∙ append-nil c)
tokens-piped c (d ∷ cs) h =
    let lacks = Lacks-append b'|' c (b' ' ∷ []) h.0.1 (ground arith) in
    ap (λ t. map skip_space (tokens b'|' t))
      (sym (append_assoc c (b' ' ∷ []) (b'|' ∷ b' ' ∷ piped (d ∷ cs))))
    ∙ ap (map skip_space) (
        tokens-cons b'|' (c ++ (b' ' ∷ [])) (b' ' ∷ piped (d ∷ cs))
          (started-IsToken c (b' ' ∷ []) h.0.0 lacks))
    ∙ ap (λ t. t ∷ map skip_space (tokens b'|' (b' ' ∷ piped (d ∷ cs))))
        (skip_space-IsStarted c (b' ' ∷ []) h.0.0)
    ∙ ap (λ t. (c ++ (b' ' ∷ [])) ∷ t) (tokens_spaced d cs h.1)

-- A line of commands with ` | ` between two, of which none begins with a space or has a bar, and
-- the last does not end in `&`, is taken apart into those commands. Each but the last keeps the
-- space that stands behind it.
pub parse_pipelines_lem :
    (c : List ℕ) (cs : List (List ℕ))
    → All IsCommand (c ∷ cs)
    → EndsNot b'&' (piped (c ∷ cs))
    → parse_pipelines (piped (c ∷ cs)) ≡ some (contents (c ∷ cs))
unfolding parse_pipelines
parse_pipelines_lem c cs h plain =
    rw (drop_daemon_plain (piped (c ∷ cs)) plain) (ap some (tokens-piped c cs h))
