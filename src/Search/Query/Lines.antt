-- ===== src/Search/Query/Lines.antt =====
-- The handlers of pa1/main.c over the index that `read_file` makes: they see the lines of the
-- file.
use systemprogramminglab.Prelude.{
  ℕ, zero, suc, ◌+◌, ◌-◌, ◌≡◌, refl, ◌∙◌, sym, ap, fun_ext, some, Bool, false, List, [], ◌∷◌, ◌++◌,
  append_assoc, arith, length, length-append, get_elem?, take, drop, All, Lacks,
}
use systemprogramminglab.Search.Text.{to_lowercase}
use systemprogramminglab.Search.Index.Lines.{layout, text, text-cons}
use systemprogramminglab.Search.Index.Loop.{drop-drop, drop-length}
use systemprogramminglab.Search.Run.{Run, done, fault, ◌>>=◌}
use systemprogramminglab.Libc.Texts.{c_text, c_text_whole}
use systemprogramminglab.Search.Query.{Output, chomp, extract_line, for_lines, finish, handle}

-- A handler over the lines themselves, the first of them with the number `n`.
unfoldable pub over_lines :
    (List ℕ → ℕ → Output → Run Output) → List (List ℕ) → ℕ → Output → Run Output
over_lines line [] n out = done out
over_lines line (l ∷ ls) n out = do
  out' ← line (to_lowercase l) n out
  over_lines line ls (n + 1) out'

get_elem?-length :
    (l : List ℕ) (c : ℕ) (k : ℕ) → k ≡ length l → get_elem? (l ++ (c ∷ [])) k ≡ some c
get_elem?-length [] c zero e = refl
get_elem?-length [] c (suc k) e = absurd (omega arith)
get_elem?-length (x ∷ l) c zero e = absurd (omega arith)
get_elem?-length (x ∷ l) c (suc k) e = get_elem?-length l c k (omega arith)

take-length : (l ys : List ℕ) (k : ℕ) → k ≡ length l → take k (l ++ ys) ≡ l
take-length [] ys zero e = refl
take-length [] ys (suc k) e = absurd (omega arith)
take-length (x ∷ l) ys zero e = absurd (omega arith)
take-length (x ∷ l) ys (suc k) e = ap (λ t. x ∷ t) (take-length l ys k (omega arith))

chomp-line : (l : List ℕ) → chomp (l ++ (b'\n' ∷ [])) (length l + 1) ≡ l
unfolding chomp
chomp-line l = ground (
  arith,
  get_elem?-length l b'\n' (length l + 1 - 1),
  take-length l (b'\n' ∷ []) (length l + 1 - 1),
)

-- The bytes of a line, read from where it starts.
line-bytes :
    (l : List ℕ) (rest : List ℕ) → take (length l + 1) (l ++ (b'\n' ∷ rest)) ≡ l ++ (b'\n' ∷ [])
line-bytes l rest =
    ap (take (length l + 1)) (sym (append_assoc l (b'\n' ∷ []) rest))
    ∙ take-length (l ++ (b'\n' ∷ [])) rest (length l + 1)
        (omega (arith, length-append l (b'\n' ∷ [])))

drop-line : (l rest : List ℕ) → drop (length l + 1) (l ++ (b'\n' ∷ rest)) ≡ rest
drop-line l rest =
    ap (drop (length l + 1)) (sym (append_assoc l (b'\n' ∷ []) rest))
    ∙ ap (λ k. drop k ((l ++ (b'\n' ∷ [])) ++ rest)) (omega (arith, length-append l (b'\n' ∷ [])))
    ∙ drop-length (l ++ (b'\n' ∷ [])) rest

extract-line :
    (file : List ℕ) (pos : ℕ) (l : List ℕ) (rest : List ℕ)
    → drop pos file ≡ l ++ (b'\n' ∷ rest)
    → Lacks 0 l
    → extract_line file pos (length l + 1) ≡ to_lowercase l
unfolding extract_line
extract-line file pos l rest e h =
    ap (λ t. to_lowercase (c_text (chomp (take (length l + 1) t) (length l + 1)))) e
    ∙ ap (λ t. to_lowercase (c_text (chomp t (length l + 1)))) (line-bytes l rest)
    ∙ ap (λ t. to_lowercase (c_text t)) (chomp-line l)
    ∙ ap to_lowercase (c_text_whole l h)

module _ (line : List ℕ → ℕ → Output → Run Output) (file tail : List ℕ) where
  for_lines-over :
      (ls : List (List ℕ)) (pos offset count : ℕ) (out : Output)
      → drop pos file ≡ text ls tail
      → All (Lacks 0) ls
      → for_lines line file (layout offset count ls) pos out ≡ over_lines line ls (count + 1) out
  unfolding for_lines over_lines layout
  for_lines-over [] pos offset count out e h = refl
  for_lines-over (l ∷ ls) pos offset count out e h =
      let here : drop pos file ≡ l ++ (b'\n' ∷ text ls tail) = e ∙ text-cons l ls tail in
      let later : drop (pos + (length l + 1)) file ≡ text ls tail =
        drop-drop (pos + (length l + 1)) pos (length l + 1) file refl
        ∙ ap (drop (length l + 1)) here
        ∙ drop-line l (text ls tail) in
      ap
        (λ content. line content (count + 1) out >>= λ out'.
          for_lines line file (layout (offset + (length l + 1)) (count + 1) ls)
            (pos + (length l + 1)) out')
        (extract-line file pos l (text ls tail) here h.0)
      ∙ ap (λ k. line (to_lowercase l) (count + 1) out >>= k)
          (fun_ext λ out'.
            for_lines-over ls (pos + (length l + 1)) (offset + (length l + 1)) (count + 1) out'
              later h.1)

-- Over the index of a file with at least one line, and with no NUL in any, a handler does for
-- every line, in lower case and with its number from 1 on, what it does for a line, and then ends
-- its output.
pub handle-over_lines :
    (line : List ℕ → ℕ → Output → Run Output) (seekable : Bool) (l : List ℕ) (ls : List (List ℕ))
    (tail : List ℕ)
    → All (Lacks 0) (l ∷ ls)
    → handle line seekable (text (l ∷ ls) tail) (layout 0 0 (l ∷ ls)) ≡ (do
      out ← over_lines line (l ∷ ls) 1 (record { flag = false; bytes = [] })
      done (finish seekable out))
unfolding handle layout
handle-over_lines line seekable l ls tail h =
    ap (λ m. m >>= λ out. done (finish seekable out))
      (for_lines-over line (text (l ∷ ls) tail) tail (l ∷ ls) 0 0 0
        (record { flag = false; bytes = [] }) refl h)

-- With no line in the index every handler reads through NULL.
pub handle_nil :
    (line : List ℕ → ℕ → Output → Run Output) (seekable : Bool) (file : List ℕ)
    → handle line seekable file [] ≡ fault
unfolding handle
handle_nil line seekable file = refl
