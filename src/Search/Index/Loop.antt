-- ===== src/Search/Index/Loop.antt =====
-- `read_file` of pa1/main.c reads every line of a file whose lines fit into its buffer, and never
-- ends on one with a longer line.
use systemprogramminglab.Prelude.{
  ℕ, zero, suc, ◌+◌, ◌-◌, ◌≤◌, ◌<◌, ◌≡◌, refl, ◌∙◌, sym, ap, false, some, List, [], ◌∷◌, ◌++◌,
  append-nil, append_assoc, arith, ◌==◌, length, length-take, length-drop, take, drop,
}
use systemprogramminglab.Search.Index.{
  bufsize, Index, add_line, scan, next_position, read_block, read_loop,
}
use systemprogramminglab.Search.Index.Lines.{unlines, add_lines, text, Block}

drop_nil : (a : ℕ) → drop {A = ℕ} a [] ≡ []
drop_nil zero = refl
drop_nil (suc a) = refl

pub drop-drop : (n a b : ℕ) (xs : List ℕ) → n ≡ a + b → drop n xs ≡ drop b (drop a xs)
drop-drop n zero b xs e = ap (λ k. drop k xs) (omega arith)
drop-drop n (suc a) b [] e = drop_nil n ∙ sym (drop_nil b)
drop-drop zero (suc a) b (x ∷ xs) e = absurd (omega arith)
drop-drop (suc n) (suc a) b (x ∷ xs) e = drop-drop n a b xs (omega arith)

pub drop-length : (xs ys : List ℕ) → drop (length xs) (xs ++ ys) ≡ ys
drop-length [] ys = refl
drop-length (x ∷ xs) ys = drop-length xs ys

drop_all : (n : ℕ) (xs : List ℕ) → length xs ≤ n → drop n xs ≡ []
drop_all zero [] h = refl
drop_all (suc n) [] h = refl
drop_all zero (x ∷ xs) h = absurd (omega arith)
drop_all (suc n) (x ∷ xs) h = drop_all n xs (omega arith)

unlines-append : (ks ls : List (List ℕ)) → unlines (ks ++ ls) ≡ unlines ks ++ unlines ls
unfolding unlines
unlines-append [] ls = refl
unlines-append (l ∷ ks) ls =
    ap (λ t. l ++ (b'\n' ∷ t)) (unlines-append ks ls)
    ∙ sym (append_assoc l (b'\n' ∷ unlines ks) (unlines ls))

pub add_lines-append :
    (ks ls : List (List ℕ)) (r : Index) → add_lines (ks ++ ls) r ≡ add_lines ls (add_lines ks r)
unfolding add_lines
add_lines-append [] ls r = refl
add_lines-append (l ∷ ks) ls r = add_lines-append ks ls (add_line (length l + 1) r)

pub read_end :
    (fuel : ℕ) (file : List ℕ) (pos : ℕ) (r : Index)
    → drop pos file ≡ []
    → read_loop (suc fuel) file pos r ≡ some r
unfolding read_loop
read_end fuel file pos r e = rw (e, read_loop)

pub not_empty : (buffer : List ℕ) → 0 < length buffer → (length buffer == 0) ≡ false
not_empty buffer h = ground arith

block_read :
    (file buffer : List ℕ) (pos held pos' : ℕ) (r r' : Index)
    → scan buffer 0 r ≡ (held, r')
    → next_position file (pos + length buffer) held ≡ pos'
    → read_block file pos buffer r ≡ (pos', r')
unfolding read_block
block_read file buffer pos held pos' r r' e n = rw (e, n)

read_step :
    (fuel : ℕ) (file : List ℕ) (pos : ℕ) (r : Index)
    → (length (take bufsize (drop pos file)) == 0) ≡ false
    → read_loop (suc fuel) file pos r ≡ (
        let (pos', r') = read_block file pos (take bufsize (drop pos file)) r in
        read_loop fuel file pos' r')
unfolding read_loop
read_step fuel file pos r e = rw (e, read_loop)

pub read_more :
    (fuel : ℕ) (file : List ℕ) (pos held pos' : ℕ) (r r' : Index)
    → 0 < length (take bufsize (drop pos file))
    → scan (take bufsize (drop pos file)) 0 r ≡ (held, r')
    → next_position file (pos + length (take bufsize (drop pos file))) held ≡ pos'
    → read_loop (suc fuel) file pos r ≡ read_loop fuel file pos' r'
read_more fuel file pos held pos' r r' h e n =
    read_step fuel file pos r (not_empty (take bufsize (drop pos file)) h)
    ∙ ap (λ (t : ℕ × Index). read_loop fuel file t.0 t.1)
        (block_read file (take bufsize (drop pos file)) pos held pos' r r' e n)

next_position_end :
    (file : List ℕ) (pos held : ℕ) → length file ≤ pos → next_position file pos held ≡ pos
unfolding next_position
next_position_end file pos held h = ground arith

pub next_position_back :
    (file : List ℕ) (pos held : ℕ) → pos < length file → next_position file pos held ≡ pos - held
unfolding next_position
next_position_back file pos held h = ground arith

module _ (file : List ℕ) (pos : ℕ) (ls : List (List ℕ)) (tail : List ℕ)
    (here : drop pos file ≡ text ls tail) (inside : pos ≤ length file) where
  total : length file ≡ pos + length (text ls tail)
  total = omega (arith, ap length here, length-drop pos file)

  -- The bytes of a block.
  same : take bufsize (drop pos file) ≡ take bufsize (text ls tail)
  same = ap (take bufsize) here

  module _ (r : Index) (b : Block bufsize ls tail r) where
    open b use {done, rest, held, split, scanned, bytes, whole}

    -- The last block of the file.
    pub read_last :
        (fuel : ℕ)
        → 0 < length (text ls tail)
        → length (text ls tail) ≤ bufsize
        → read_loop (suc (suc fuel)) file pos r ≡ some (add_lines ls r)
    read_last fuel some_bytes small =
        read_more (suc fuel) file pos held (length file) r (add_lines done r)
          (omega (arith, ap length same, length-take bufsize (text ls tail)))
          (ap (λ t. scan t 0 r) same ∙ scanned)
          (ap (λ k. next_position file k held) reached
            ∙ next_position_end file (length file) held (omega arith))
        ∙ read_end fuel file (length file) (add_lines done r)
            (drop_all (length file) file (omega arith))
        ∙ ap (λ t. some (add_lines t r))
            (sym (split ∙ ap (λ t. done ++ t) (whole small) ∙ append-nil done))
      where
        reached : pos + length (take bufsize (drop pos file)) ≡ length file
        reached = omega (arith, total, ap length same, length-take bufsize (text ls tail))

    -- Any other block: the next one begins behind the lines that it held.
    pub read_inner :
        (fuel : ℕ)
        → bufsize < length (text ls tail)
        → (pos' : ℕ) × (read_loop (suc fuel) file pos r
            ≡ read_loop fuel file pos' (add_lines done r))
          × (drop pos' file ≡ text rest tail)
          × (pos' ≤ length file)
    read_inner fuel large = (
      pos + length (unlines done),
      read_more fuel file pos held (pos + length (unlines done)) r (add_lines done r)
          (omega (arith, ap length same, length-take bufsize (text ls tail)))
          (ap (λ t. scan t 0 r) same ∙ scanned)
          (next_position_back file _ held
              (omega (arith, total, ap length same, length-take bufsize (text ls tail)))
            ∙ omega (arith, ap length same, bytes)),
      drop-drop (pos + length (unlines done)) pos (length (unlines done)) file refl
          ∙ ap (drop (length (unlines done))) (here ∙ behind)
          ∙ drop-length (unlines done) (text rest tail),
      omega (arith, total, ap length same, bytes, length-take bufsize (text ls tail)),
    )
      where
        behind : text ls tail ≡ unlines done ++ text rest tail
        behind =
            ap (λ t. unlines t ++ tail) split
            ∙ ap (λ t. t ++ tail) (unlines-append done rest)
            ∙ append_assoc (unlines done) (unlines rest) tail
