-- ===== src/Search/Index/Whole.antt =====
-- `read_file` of pa1/main.c as a whole: the index of a file whose lines fit into the buffer, and
-- the file on which it never ends.
use systemprogramminglab.Prelude.{
  ℕ, zero, suc, ◌+◌, ◌≤◌, ◌<◌, ◌≡◌, refl, ◌∙◌, sym, ap, inl, inr, false, none, some, List, [], ◌∷◌,
  ◌++◌, append-nil, append_assoc, arith, ltb, ltb→lt, Bool-cases, length, length-append, take, drop,
  All, Lacks, subst,
}
use systemprogramminglab.Search.Index.{bufsize, Index, start, add_line, scan, read_loop, read_file}
use systemprogramminglab.Search.Index.Lines.{
  unlines, add_lines, layout, text, Block, block, length-text-cons, scan-rest,
}
use systemprogramminglab.Search.Index.Loop.{
  add_lines-append, read_end, read_last, read_inner, read_more, next_position_back,
}

abbrev pub IsShort : List ℕ → Type 0
IsShort l = length l < bufsize

All-right : (P : List ℕ → Type 0) (ks ls : List (List ℕ)) → All P (ks ++ ls) → All P ls
All-right P [] ls h = h
All-right P (k ∷ ks) ls h = All-right P ks ls h.1

not_large : (a b : ℕ) → ltb a b ≡ false → b ≤ a
not_large a b h = ground arith

read_whole :
    (fuel : ℕ) (file : List ℕ) (pos : ℕ) (ls : List (List ℕ)) (tail : List ℕ) (r : Index)
    → drop pos file ≡ text ls tail
    → pos ≤ length file
    → All (Lacks b'\n') ls
    → Lacks b'\n' tail
    → All IsShort ls
    → IsShort tail
    → length ls + 2 ≤ fuel
    → read_loop fuel file pos r ≡ some (add_lines ls r)
unfolding add_lines unlines
read_whole zero file pos ls tail r e inside hs h ks k f = absurd (omega arith)
read_whole (suc zero) file pos ls tail r e inside hs h ks k f = absurd (omega arith)
read_whole (suc (suc fuel)) file pos [] [] r e inside hs h ks k f = read_end (suc fuel) file pos r e
read_whole (suc (suc fuel)) file pos [] (c ∷ tail) r e inside hs h ks k f =
    read_last file pos [] (c ∷ tail) e inside r (block bufsize [] (c ∷ tail) r hs h) fuel
      (omega arith) (omega arith)
read_whole (suc (suc fuel)) file pos (l ∷ ls) tail r e inside hs h ks k f =
    elim (Bool-cases (ltb bufsize (length (text (l ∷ ls) tail)))) [
      | inl large ↦
          let (pos', stepped, there, inside') =
            read_inner file pos (l ∷ ls) tail e inside r b (suc fuel) (ltb→lt _ _ large) in
          stepped
          ∙ read_whole (suc fuel) file pos' b.rest tail (add_lines b.done r) there inside'
              (All-right _ b.done b.rest (subst (All (Lacks b'\n')) b.split hs)) h
              (All-right _ b.done b.rest (subst (All IsShort) b.split ks)) k
              (omega (arith, ap length b.split, length-append b.done b.rest, b.progress ks.0))
          ∙ ap some (sym (ap (λ t. add_lines t r) b.split ∙ add_lines-append b.done b.rest r))
      | inr small ↦
          read_last file pos (l ∷ ls) tail e inside r b fuel
            (omega (arith, length-text-cons l ls tail)) (not_large _ _ small)
    ]
  where
    b : Block bufsize (l ∷ ls) tail r
    b = block bufsize (l ∷ ls) tail r hs h

entries-layout :
    (ls : List (List ℕ)) (r : Index)
    → (add_lines ls r).entries ≡ r.entries ++ layout r.offset r.line_count ls
unfolding add_lines layout
entries-layout [] r = sym (append-nil r.entries)
entries-layout (l ∷ ls) r =
    entries-layout ls (add_line (length l + 1) r) ∙ append_assoc r.entries _ (layout _ _ ls)

-- A file of lines of fewer than 4096 bytes each, ended by newlines, and of fewer than 4096 bytes
-- without a newline behind them: with a round for each line and two more, `read_file` ends, and
-- the index has the number, offset and size of every line that ends in a newline, and nothing
-- else.
pub read_file_lem :
    (fuel : ℕ) (ls : List (List ℕ)) (tail : List ℕ)
    → All (Lacks b'\n') ls
    → Lacks b'\n' tail
    → All IsShort ls
    → IsShort tail
    → length ls + 2 ≤ fuel
    → (r : Index) × (read_file fuel (text ls tail) ≡ some r) × (r.entries ≡ layout 0 0 ls)
unfolding read_file
read_file_lem fuel ls tail hs h ks k f = (
  add_lines ls start,
  read_whole fuel (text ls tail) 0 ls tail start refl (omega arith) hs h ks k f,
  entries-layout ls start,
)

take_head : (n : ℕ) (xs ys : List ℕ) → length xs ≡ n → take n (xs ++ ys) ≡ xs
take_head n [] ys e = ap (λ k. take k ys) (sym e)
take_head zero (x ∷ xs) ys e = absurd (omega arith)
take_head (suc n) (x ∷ xs) ys e = ap (λ t. x ∷ t) (take_head n xs ys (omega arith))

loop_zero : (file : List ℕ) (pos : ℕ) (r : Index) → read_loop 0 file pos r ≡ none
unfolding read_loop
loop_zero file pos r = refl

stuck_round :
    (fuel : ℕ) (head rest : List ℕ) (r : Index)
    → Lacks b'\n' head
    → length head ≡ bufsize
    → 0 < length rest
    → read_loop (suc fuel) (head ++ rest) 0 r ≡ read_loop fuel (head ++ rest) 0 r
stuck_round fuel head rest r h e more =
    read_more fuel (head ++ rest) 0 (0 + length (take bufsize (head ++ rest))) 0 r r
      (omega (arith, ap length same))
      (ap (λ b. scan b 0 r) same ∙ scan-rest head 0 r h ∙ ap (λ b. (0 + length b, r)) (sym same))
      (next_position_back (head ++ rest) _ _
          (omega (arith, ap length same, length-append head rest))
        ∙ omega (arith, ap length same))
  where
    same : take bufsize (head ++ rest) ≡ head
    same = take_head bufsize head rest e

-- A file that begins with 4096 bytes without a newline and goes on behind them: `read_file` never
-- ends, however many rounds it is given. Every round goes back to the start of the file.
pub read_file_diverges :
    (fuel : ℕ) (head rest : List ℕ)
    → Lacks b'\n' head
    → length head ≡ bufsize
    → 0 < length rest
    → read_file fuel (head ++ rest) ≡ none
unfolding read_file
read_file_diverges fuel head rest h e more = go fuel
  where
    go : (fuel : ℕ) → read_loop fuel (head ++ rest) 0 start ≡ none
    go zero = loop_zero (head ++ rest) 0 start
    go (suc fuel) = stuck_round fuel head rest start h e more ∙ go fuel
