-- ===== src/FileTools/Tail.antt =====
-- What pa2/tail.c writes: the last lines of a file, or too much.
use systemprogramminglab.Prelude.{
  ℕ, zero, suc, ◌+◌, ◌-◌, ◌≤◌, ◌<◌, ◌≡◌, refl, ◌∙◌, sym, ap, List, [], ◌∷◌, ◌++◌, append_assoc,
  arith, ◌==◌, if◌then◌else◌, length, length-append, get_or, drop, All, Lacks, pos,
}
use systemprogramminglab.FileTools.{tail_loop, tail_start, tail}
use systemprogramminglab.FileTools.Lines.{unlines}

-- Whether a byte with `rest` behind it is a newline, and not the last byte.
abbrev extra : ℕ → List ℕ → ℕ
extra c [] = 0
extra c (d ∷ rest) = if c == b'\n' then 1 else 0

-- How many newlines there are in front of the last byte.
unfoldable inner : List ℕ → ℕ
inner [] = 0
inner (c ∷ rest) = extra c rest + inner rest

get_or-append :
    (pre : List ℕ) (b : ℕ) (rest : List ℕ) → get_or (pre ++ (b ∷ rest)) (length pre) 0 ≡ b
get_or-append [] b rest = refl
get_or-append (x ∷ pre) b rest = get_or-append pre b rest

length-past :
    (pre : List ℕ) (b : ℕ) (rest : List ℕ)
    → length (pre ++ (b ∷ rest)) ≡ length pre + suc (length rest)
length-past pre b rest = length-append pre (b ∷ rest)

-- A round in which the byte is `c`, with `rest` behind it.
tail_loop-round :
    (n k cnt : ℕ) (file : List ℕ) (c : ℕ) (rest : List ℕ)
    → cnt < n
    → get_or file (suc k) 0 ≡ c
    → length file ≡ suc (suc k) + length rest
    → tail_loop (pos n) file (suc k) cnt ≡ tail_loop (pos n) file k (cnt + extra c rest)
unfolding tail_loop
tail_loop-round n k cnt file c [] less at size = ground arith
tail_loop-round n k cnt file c (d ∷ rest) less at size = ground arith

-- From the last byte down to the byte `b`.
tail_loop-down :
    (n cnt : ℕ) (file pre : List ℕ) (b : ℕ) (rest : List ℕ)
    → file ≡ pre ++ (b ∷ rest)
    → cnt + inner rest < n
    → tail_loop (pos n) file (length pre + length rest) cnt
      ≡ tail_loop (pos n) file (length pre) (cnt + inner rest)
unfolding inner
tail_loop-down n cnt file pre b [] e less =
    ap (λ k. tail_loop (pos n) file k cnt) (omega arith)
    ∙ ap (tail_loop (pos n) file (length pre)) (omega arith)
tail_loop-down n cnt file pre b (c ∷ rest) e less =
    let longer : length (pre ++ (b ∷ [])) ≡ suc (length pre) = length-past pre b [] ∙ omega arith in
    let same : file ≡ (pre ++ (b ∷ [])) ++ (c ∷ rest) =
      e ∙ sym (append_assoc pre (b ∷ []) (c ∷ rest)) in
    let size : length file ≡ suc (suc (length pre)) + length rest =
      ap length same ∙ length-past (pre ++ (b ∷ [])) c rest ∙ omega arith in
    let at : get_or file (suc (length pre)) 0 ≡ c =
      ap (λ k. get_or file k 0) (sym longer)
      ∙ ap (λ f. get_or f (length (pre ++ (b ∷ []))) 0) same
      ∙ get_or-append (pre ++ (b ∷ [])) c rest in
    ap (λ k. tail_loop (pos n) file k cnt) (omega arith)
    ∙ tail_loop-down n cnt file (pre ++ (b ∷ [])) c rest same (omega arith)
    ∙ ap (λ k. tail_loop (pos n) file k (cnt + inner rest)) longer
    ∙ tail_loop-round n (length pre) (cnt + inner rest) file c rest (omega arith) at size
    ∙ ap (tail_loop (pos n) file (length pre)) (omega arith)

inner-line : (l s : List ℕ) → Lacks b'\n' l → inner (l ++ (b'\n' ∷ s)) ≡ extra b'\n' s + inner s
unfolding inner
inner-line [] s h = refl
inner-line (c ∷ []) s h = ground (arith, h.0)
inner-line (c ∷ d ∷ l) s h = ground (arith, h.0, inner-line (d ∷ l) s h.1)

inner-unlines :
    (l : List ℕ) (ls : List (List ℕ))
    → All (Lacks b'\n') (l ∷ ls)
    → inner (unlines (l ∷ ls)) ≡ length ls
unfolding unlines inner
inner-unlines l [] h = inner-line l [] h.0
inner-unlines l ((c ∷ m) ∷ ls) h =
    inner-line l (unlines ((c ∷ m) ∷ ls)) h.0 ∙ omega (arith, inner-unlines (c ∷ m) ls h.1)
inner-unlines l ([] ∷ ls) h =
    inner-line l (unlines ([] ∷ ls)) h.0 ∙ omega (arith, inner-unlines [] ls h.1)

extra-unlines : (l : List ℕ) (ls : List (List ℕ)) → extra b'\n' (unlines (l ∷ ls)) ≡ 1
unfolding unlines
extra-unlines [] ls = refl
extra-unlines (c ∷ l) ls = refl

tail_loop_stop : (n k : ℕ) (file : List ℕ) → tail_loop (pos n) file k n ≡ k
unfolding tail_loop
tail_loop_stop n zero file = refl
tail_loop_stop n (suc k) file = ground arith

-- The loop stops one byte in front of the newline before the lines asked for.
tail_loop_lem :
    (n : ℕ) (file front : List ℕ) (l : List ℕ) (ls : List (List ℕ))
    → All (Lacks b'\n') (l ∷ ls)
    → file ≡ front ++ (b'\n' ∷ unlines (l ∷ ls))
    → n ≡ suc (length ls)
    → tail_loop (pos n) file (length file - 1) 0 ≡ length front - 1
unfolding tail_loop
tail_loop_lem n file [] l ls h e en =
    ap (λ k. tail_loop (pos n) file k 0) (omega (arith, ap length e))
    ∙ tail_loop-down n 0 file [] b'\n' (unlines (l ∷ ls)) e (omega (arith, inner-unlines l ls h))
tail_loop_lem n file (x ∷ front) l ls h e en =
    let size : length file ≡ suc (suc (length front)) + length (unlines (l ∷ ls)) =
      ap length e ∙ length-past (x ∷ front) b'\n' (unlines (l ∷ ls)) ∙ omega arith in
    let at : get_or file (suc (length front)) 0 ≡ b'\n' =
      ap (λ f. get_or f (suc (length front)) 0) e
      ∙ get_or-append (x ∷ front) b'\n' (unlines (l ∷ ls)) in
    ap (λ k. tail_loop (pos n) file k 0) (omega arith)
    ∙ tail_loop-down n 0 file (x ∷ front) b'\n' (unlines (l ∷ ls)) e
        (omega (arith, inner-unlines l ls h))
    ∙ tail_loop-round n (length front) (0 + inner (unlines (l ∷ ls))) file b'\n' (unlines (l ∷ ls))
        (omega (arith, inner-unlines l ls h)) at size
    ∙ ap (tail_loop (pos n) file (length front))
        (omega (arith, inner-unlines l ls h, extra-unlines l ls))
    ∙ tail_loop_stop n (length front) file
    ∙ omega arith

drop-past : (front : List ℕ) (b : ℕ) (s : List ℕ) → drop (suc (length front)) (front ++ (b ∷ s)) ≡ s
drop-past [] b s = refl
drop-past (x ∷ front) b s = drop-past front b s

module _ (front l : List ℕ) (ls : List (List ℕ)) (h : All (Lacks b'\n') (l ∷ ls)) where
  -- `tail`, asked for as many lines as a file ends with, writes those lines and nothing else, if
  -- at least two bytes stand in front of the newline before them.
  pub tail_lem :
      2 ≤ length front
      → tail (pos (suc (length ls))) (front ++ (b'\n' ∷ unlines (l ∷ ls))) ≡ unlines (l ∷ ls)
  unfolding tail tail_start
  tail_lem enough =
      let file = front ++ (b'\n' ∷ unlines (l ∷ ls)) in
      let stop = tail_loop_lem (suc (length ls)) file front l ls h refl refl in
      ap (λ k. drop k file) {y = suc (length front)} (ground (arith, stop))
      ∙ drop-past front b'\n' (unlines (l ∷ ls))

  -- With at most one byte in front of the newline before the lines asked for, the lines that the
  -- file ends with, `tail` writes the whole file instead.
  pub tail_short :
      length front ≤ 1
      → tail (pos (suc (length ls))) (front ++ (b'\n' ∷ unlines (l ∷ ls)))
        ≡ front ++ (b'\n' ∷ unlines (l ∷ ls))
  unfolding tail tail_start
  tail_short few =
      let file = front ++ (b'\n' ∷ unlines (l ∷ ls)) in
      let stop = tail_loop_lem (suc (length ls)) file front l ls h refl refl in
      ap (λ k. drop k file) {y = 0} (ground (arith, stop))
