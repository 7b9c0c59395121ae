-- ===== src/Search/Index/Lines.antt =====
-- The index of pa1/main.c against the lines of the file.
use systemprogramminglab.Prelude.{
  ℕ, zero, suc, ◌+◌, ◌-◌, ◌≤◌, ◌<◌, ◌≡◌, refl, ◌∙◌, ap, inl, inr, List, [], ◌∷◌, ◌++◌, append_assoc,
  arith, ltb, Bool-cases, length, length-append, take, All, Lacks,
}
use systemprogramminglab.Search.Index.{Entry, Index, add_line, scan}

-- The text with the given lines, each ended by a newline.
unfoldable pub unlines : List (List ℕ) → List ℕ
unlines [] = []
unlines (l ∷ ls) = l ++ (b'\n' ∷ unlines ls)

-- The index of those lines, behind an index.
unfoldable pub add_lines : List (List ℕ) → Index → Index
unfolding add_line
add_lines [] r = r
add_lines (l ∷ ls) r = add_lines ls (add_line (length l + 1) r)

-- The entries of those lines, the first of them at `offset`, with `count` lines before it.
unfoldable pub layout : ℕ → ℕ → List (List ℕ) → List Entry
layout offset count [] = []
layout offset count (l ∷ ls) =
    record { offset = offset; size = length l + 1; line_num = count + 1 }
    ∷ layout (offset + (length l + 1)) (count + 1) ls

scan-line :
    (l block : List ℕ) (held : ℕ) (r : Index)
    → Lacks b'\n' l
    → scan (l ++ (b'\n' ∷ block)) held r ≡ scan block 0 (add_line (held + length l + 1) r)
unfolding scan
scan-line [] block held r h = ap (λ k. scan block 0 (add_line (k + 1) r)) (omega arith)
scan-line (c ∷ l) block held r h = ground (arith, scan-line l block (held + 1) r)

pub scan-rest :
    (tail : List ℕ) (held : ℕ) (r : Index)
    → Lacks b'\n' tail
    → scan tail held r ≡ (held + length tail, r)
unfolding scan
scan-rest [] held r h = ap (λ k. (k, r)) (omega arith)
scan-rest (c ∷ tail) held r h = ground (arith, scan-rest tail (held + 1) r)

pub take_within : (n : ℕ) (xs ys : List ℕ) → n ≤ length xs → take n (xs ++ ys) ≡ take n xs
take_within zero xs ys h = refl
take_within (suc n) [] ys h = absurd (omega arith)
take_within (suc n) (x ∷ xs) ys h = ap (λ t. x ∷ t) (take_within n xs ys (omega arith))

take_beyond : (n m : ℕ) (xs ys : List ℕ) → n ≡ length xs + m → take n (xs ++ ys) ≡ xs ++ take m ys
take_beyond n m [] ys h = ap (λ k. take k ys) (omega arith)
take_beyond zero m (x ∷ xs) ys h = absurd (omega arith)
take_beyond (suc n) m (x ∷ xs) ys h = ap (λ t. x ∷ t) (take_beyond n m xs ys (omega arith))

pub Lacks-take : (n : ℕ) (xs : List ℕ) → Lacks b'\n' xs → Lacks b'\n' (take n xs)
Lacks-take zero xs h = tt
Lacks-take (suc n) [] h = tt
Lacks-take (suc n) (x ∷ xs) h = (h.0, Lacks-take n xs h.1)

abbrev pub text : List (List ℕ) → List ℕ → List ℕ
text ls tail = unlines ls ++ tail

abbrev pub FirstFits : ℕ → List (List ℕ) → Type 0
FirstFits n [] = ⊥
FirstFits n (l ∷ ls) = length l < n

-- What a block of at most `n` bytes holds: the lines `done`, and `held` bytes behind them.
pub record Block (n : ℕ) (ls : List (List ℕ)) (tail : List ℕ) (r : Index) : Type 0 where
  pub done : List (List ℕ)
  pub rest : List (List ℕ)
  pub held : ℕ
  pub split : ls ≡ done ++ rest
  pub scanned : scan (take n (text ls tail)) 0 r ≡ (held, add_lines done r)
  pub bytes : length (take n (text ls tail)) ≡ length (unlines done) + held
  pub whole : length (text ls tail) ≤ n → rest ≡ []
  pub progress : FirstFits n ls → 0 < length done

pub text-cons :
    (l : List ℕ) (ls : List (List ℕ)) (tail : List ℕ)
    → text (l ∷ ls) tail ≡ l ++ (b'\n' ∷ text ls tail)
unfolding unlines
text-cons l ls tail = append_assoc l (b'\n' ∷ unlines ls) tail

pub length-text-cons :
    (l : List ℕ) (ls : List (List ℕ)) (tail : List ℕ)
    → length (text (l ∷ ls) tail) ≡ length l + 1 + length (text ls tail)
length-text-cons l ls tail =
    ap length (text-cons l ls tail) ∙ omega (arith, length-append l (b'\n' ∷ text ls tail))

length-unlines-cons :
    (l : List ℕ) (ls : List (List ℕ))
    → length (unlines (l ∷ ls)) ≡ length l + 1 + length (unlines ls)
unfolding unlines
length-unlines-cons l ls = omega (arith, length-append l (b'\n' ∷ unlines ls))

-- A block that ends inside its first line.
Block-partial :
    (n : ℕ) (l : List ℕ) (ls : List (List ℕ)) (tail : List ℕ) (r : Index)
    → Lacks b'\n' l
    → n ≤ length l
    → Block n (l ∷ ls) tail r
unfolding add_lines unlines
Block-partial n l ls tail r h k =
    let same : take n (text (l ∷ ls) tail) ≡ take n l =
      ap (take n) (text-cons l ls tail) ∙ take_within n l (b'\n' ∷ text ls tail) k in
    record {
      done = [];
      rest = l ∷ ls;
      held = 0 + length (take n l);
      split = refl;
      scanned = ap (λ b. scan b 0 r) same ∙ scan-rest (take n l) 0 r (Lacks-take n l h);
      bytes = ap length same ∙ omega arith;
      whole = λ small. absurd (omega (arith, length-text-cons l ls tail));
      progress = λ fits. absurd (omega arith);
    }

-- A block that begins with a whole line.
Block-cons :
    (n m : ℕ) (l : List ℕ) (ls : List (List ℕ)) (tail : List ℕ) (r : Index)
    → Lacks b'\n' l
    → n ≡ length l + suc m
    → Block m ls tail (add_line (length l + 1) r)
    → Block n (l ∷ ls) tail r
unfolding add_lines
Block-cons n m l ls tail r h k b =
    let same : take n (text (l ∷ ls) tail) ≡ l ++ (b'\n' ∷ take m (text ls tail)) =
      ap (take n) (text-cons l ls tail) ∙ take_beyond n (suc m) l (b'\n' ∷ text ls tail) k in
    record {
      done = l ∷ b.done;
      rest = b.rest;
      held = b.held;
      split = ap (λ t. l ∷ t) b.split;
      scanned =
          ap (λ t. scan t 0 r) same
          ∙ scan-line l (take m (text ls tail)) 0 r h
          ∙ ap (λ size. scan (take m (text ls tail)) 0 (add_line size r)) (omega arith)
          ∙ b.scanned;
      bytes =
          ap length same
          ∙ omega (
            arith,
            length-append l (b'\n' ∷ take m (text ls tail)),
            b.bytes,
            length-unlines-cons l b.done,
          );
      whole = λ small. b.whole (omega (arith, length-text-cons l ls tail));
      progress = λ fits. omega arith;
    }

pub block :
    (n : ℕ) (ls : List (List ℕ)) (tail : List ℕ) (r : Index)
    → All (Lacks b'\n') ls
    → Lacks b'\n' tail
    → Block n ls tail r
unfolding add_lines unlines
block n [] tail r hs h = record {
  done = [];
  rest = [];
  held = 0 + length (take n tail);
  split = refl;
  scanned = scan-rest (take n tail) 0 r (Lacks-take n tail h);
  bytes = omega arith;
  whole = λ small. refl;
  progress = λ fits. absurd fits;
}
block n (l ∷ ls) tail r hs h = elim (Bool-cases (ltb (length l) n)) [
  | inl fits ↦
      Block-cons n (n - (length l + 1)) l ls tail r hs.0 (ground arith)
        (block (n - (length l + 1)) ls tail (add_line (length l + 1) r) hs.1 h)
  | inr long ↦ Block-partial n l ls tail r hs.0 (ground arith)
]
