-- ===== src/PipeShell/Marks.antt =====
-- A line of the shell of week9 with a pipe or a redirection.
use systemprogramminglab.Prelude.{
  ℕ, ◌≡◌, ◌<◌, refl, ◌∙◌, sym, true, false, none, some, List, [], ◌∷◌, ◌++◌, lt→ltb, length,
  drop_last-append, codes, All, All-map, Lacks, arith, Bool-cases, inl, inr,
}
use systemprogramminglab.Libc.Texts.{same, IsToken, joined_by}
use systemprogramminglab.PipeShell.{
  Process, Action, connect, write_to, read_from, begins, process, has, run_command, run_line,
}
use systemprogramminglab.PipeShell.Lines.{
  IsPlain, make_tokens_lem, Mark, bar, more, less, byte, IsOrdinary, has-joined_by, has-same,
}

begins-Lacks : (t : ℕ) (w : List ℕ) → Lacks t w → begins t w ≡ false
begins-Lacks t [] h = refl
begins-Lacks t (c ∷ w) h = ground (arith, h.0)

ordinary-Lacks : (k : Mark) (w : List ℕ) → IsOrdinary w → Lacks (byte k) w
ordinary-Lacks bar w h = h.1.0
ordinary-Lacks more w h = h.1.1.0
ordinary-Lacks less w h = h.1.1.1

ordinary-IsPlain : (k : Mark) (w : List ℕ) → IsOrdinary w → IsPlain (byte k) w
ordinary-IsPlain k w h = (h.0, begins-Lacks (byte k) w (ordinary-Lacks k w h))

bar_quit : has b'|' (codes "quit") ≡ false
unfolding has
bar_quit = refl

true-false : true ≡ false → ⊥
true-false e = absurd (ground arith)

process-some :
    (w : List ℕ) (ws : List (List ℕ))
    → length w < 123
    → process (w ∷ ws) ≡ some (record { path = codes "/bin/" ++ w; args = w ∷ ws })
unfolding process
process-some w ws h = rw (lt→ltb (length w) 123 h) refl

-- What a line with the mark `k` means.
abbrev pub process_of : List ℕ → List (List ℕ) → Process
process_of w ws = record { path = codes "/bin/" ++ w; args = w ∷ ws }

abbrev pub meaning : Mark → List ℕ → List (List ℕ) → List ℕ → List (List ℕ) → Action
meaning bar w ws v vs = connect (process_of w ws) (process_of v vs)
meaning more w ws v vs = write_to (process_of w ws) (some v)
meaning less w ws v vs = read_from (process_of w ws) (some v)

abbrev pub marked : Mark → List ℕ → List (List ℕ) → List ℕ → List (List ℕ) → List ℕ
marked k w ws v vs = joined_by b' ' (w ∷ (ws ++ ((byte k ∷ []) ∷ v ∷ vs)))

has_first : (b : ℕ) (x : List ℕ) → has b (b ∷ x) ≡ true
unfolding has
has_first b x = ground arith

begins_first : (t : ℕ) (x : List ℕ) → begins t (t ∷ x) ≡ true
begins_first t x = ground arith

abbrev pub attached : List ℕ → List (List ℕ) → List ℕ → List ℕ
attached w ws x = joined_by b' ' (w ∷ (ws ++ ((b'|' ∷ x) ∷ [])))

attached-has : (w : List ℕ) (ws : List (List ℕ)) (x : List ℕ) → has b'|' (attached w ws x) ≡ true
attached-has w ws x = has-joined_by b'|' b' ' (w ∷ ws) (b'|' ∷ x) [] (has_first b'|' x)

attached_quit :
    (w : List ℕ) (ws : List (List ℕ)) (x : List ℕ) → same (attached w ws x) (codes "quit") ≡ false
attached_quit w ws x = elim (Bool-cases (same (attached w ws x) (codes "quit"))) [
  | inr e ↦ e
  | inl e ↦ absurd (
      true-false
        (sym (attached-has w ws x) ∙ has-same b'|' (attached w ws x) (codes "quit") e ∙ bar_quit))
]

bar-IsToken : (x : List ℕ) → Lacks b' ' x → IsToken b' ' (b'|' ∷ x)
bar-IsToken x h = (cc, ((λ e. omega arith), h))

-- In a line of 1 to 127 words without spaces, bars, `<` and `>`, the first with at most 122 bytes,
-- and then a last word that begins with a bar, the last word is lost: no command is left behind the
-- bar, and the shell passes NULL to `sprintf`.
pub run_line-attached :
    (w : List ℕ) (ws : List (List ℕ)) (x : List ℕ)
    → All IsOrdinary (w ∷ ws)
    → Lacks b' ' x
    → length (w ∷ ws) < 128
    → length w < 123
    → run_line (attached w ws x ++ (b'\n' ∷ [])) ≡ none
unfolding run_line run_command
run_line-attached w ws x h k a c =
    rw
      (
        drop_last-append (attached w ws x) b'\n',
        attached_quit w ws x,
        attached-has w ws x,
        make_tokens_lem b'|' w ws (b'|' ∷ x) [] (All-map (ordinary-IsPlain bar) (w ∷ ws) h)
            (bar-IsToken x k, tt) (begins_first b'|' x) a (omega arith),
        process-some w ws c,
      )
      refl
