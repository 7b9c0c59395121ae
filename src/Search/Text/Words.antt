-- ===== src/Search/Text/Words.antt =====
-- `nextWord` and `isincluded` of pa1/mystring.c.
use systemprogramminglab.Prelude.{
  ℕ, zero, suc, ◌+◌, ◌≤◌, ◌<◌, ◌≡◌, ◌≢◌, refl, ◌∙◌, ap, sym, inl, inr, Bool, true, false, ◌&&◌,
  Option, none, some, List, [], ◌∷◌, arith, if◌then◌else◌, Bool-cases, length, length-drop, take,
  drop,
}
use systemprogramminglab.Search.Text.{
  next, stringcmp, is_blank, word_length, blank_length, next_word, isincluded_loop, isincluded,
}
use systemprogramminglab.Search.Text.Substring.{IsLeast, IsLeast-next}

-- The word that starts at a pointer.
unfoldable pub first_word : List ℕ → List ℕ
unfolding word_length
first_word s = take (word_length s) s

-- Whether a word equal to `word` starts at an offset of `str`; `start` says whether a word may
-- start at the first byte.
unfoldable pub word_at : List ℕ → Bool → List ℕ → ℕ → Bool
word_at word start [] o = false
word_at word start (c ∷ s) zero = start && stringcmp word (first_word (c ∷ s))
word_at word start (c ∷ s) (suc o) = word_at word (is_blank c) s o

-- The first such offset, looked for byte by byte.
unfoldable pub find : List ℕ → Bool → List ℕ → Option ℕ
find word start [] = none
find word start (c ∷ s) =
    let rest = next (find word (is_blank c) s) in
    if start && stringcmp word (first_word (c ∷ s)) then some 0 else rest

find-IsLeast :
    (word : List ℕ) (start : Bool) (s : List ℕ) → IsLeast (word_at word start s) (find word start s)
unfolding find word_at
find-IsLeast word start [] = λ o. refl
find-IsLeast word start (c ∷ s) = elim (Bool-cases (start && stringcmp word (first_word (c ∷ s)))) [
  | inl hit ↦ rw hit (hit, λ j k. absurd (omega arith))
  | inr miss ↦ rw miss (
      IsLeast-next (word_at word start (c ∷ s)) (find word (is_blank c) s) miss
        (find-IsLeast word (is_blank c) s))
]

shift : ℕ → Option ℕ → Option ℕ
shift k none = none
shift k (some o) = some (k + o)

shift-zero : (r : Option ℕ) → shift 0 r ≡ r
unfolding shift
shift-zero none = refl
shift-zero (some o) = ap some (omega arith)

next-shift : (k : ℕ) (r : Option ℕ) → next (shift k r) ≡ shift (suc k) r
unfolding shift
next-shift k none = refl
next-shift k (some o) = ap some (omega arith)

shift-shift : (j k : ℕ) (r : Option ℕ) → shift j (shift k r) ≡ shift (j + k) r
unfolding shift
shift-shift j k none = refl
shift-shift j k (some o) = ap some (omega arith)

-- How far the next word is.
skip : List ℕ → ℕ
skip [] = 0
skip (c ∷ s) = if is_blank c then suc (blank_length s) else suc (skip s)

skip-add : (s : List ℕ) → word_length s + blank_length (drop (word_length s) s) ≡ skip s
unfolding skip word_length blank_length
skip-add [] = refl
skip-add (c ∷ s) = elim (Bool-cases (is_blank c)) [
  | inl blank ↦ rw (blank, blank) (omega arith)
  | inr inside ↦ rw inside (omega (arith, skip-add s))
]

next_word-skip : (c : ℕ) (s : List ℕ) → next_word (c ∷ s) ≡ some (skip (c ∷ s))
unfolding next_word
next_word-skip c s = ap some (skip-add (c ∷ s))

skip_bounds : (c : ℕ) (s : List ℕ) → length (drop (skip (c ∷ s)) (c ∷ s)) ≤ length s
unfolding skip
skip_bounds c s = elim (Bool-cases (is_blank c)) [
  | inl blank ↦ rw blank (omega (arith, length-drop (blank_length s) s))
  | inr inside ↦ rw inside (omega (arith, length-drop (skip s) s))
]

module _ (x : ℕ) (xs : List ℕ) where
  abbrev word : List ℕ
  word = x ∷ xs

  find-here :
      (c : ℕ) (s : List ℕ)
      → is_blank c ≡ false
      → find word true (c ∷ s)
        ≡ shift (blank_length (c ∷ s)) (find word true (drop (blank_length (c ∷ s)) (c ∷ s)))
  unfolding blank_length
  find-here c s inside = rw inside (sym (shift-zero _))

  find-blanks :
      (s : List ℕ)
      → find word true s ≡ shift (blank_length s) (find word true (drop (blank_length s) s))
  unfolding find first_word blank_length stringcmp shift
  find-blanks [] = refl
  find-blanks (c ∷ s) = elim (Bool-cases (is_blank c)) [
    | inl blank ↦ rw (blank, find-blanks s) (next-shift (blank_length s) _)
    | inr inside ↦ find-here c s inside
  ]

  find-inside : (s : List ℕ) → find word false s ≡ shift (skip s) (find word true (drop (skip s) s))
  unfolding find skip shift
  find-inside [] = refl
  find-inside (c ∷ s) = elim (Bool-cases (is_blank c)) [
    | inl blank ↦ rw (blank, find-blanks s) (next-shift (blank_length s) _)
    | inr inside ↦ rw (inside, find-inside s) (next-shift (skip s) _)
  ]

  find-skip :
      (c : ℕ) (s : List ℕ)
      → stringcmp word (first_word (c ∷ s)) ≡ false
      → find word true (c ∷ s) ≡ shift (skip (c ∷ s)) (find word true (drop (skip (c ∷ s)) (c ∷ s)))
  unfolding find skip
  find-skip c s miss = elim (Bool-cases (is_blank c)) [
    | inl blank ↦ rw (miss, blank, find-blanks s) (next-shift (blank_length s) _)
    | inr inside ↦ rw (miss, inside, find-inside s) (next-shift (skip s) _)
  ]

  loop_hit :
      (fuel : ℕ) (c : ℕ) (s : List ℕ) (offset : ℕ)
      → stringcmp word (first_word (c ∷ s)) ≡ true
      → isincluded_loop (suc fuel) word (c ∷ s) offset
        ≡ some (shift offset (find word true (c ∷ s)))
  unfolding isincluded_loop first_word find shift
  loop_hit fuel c s offset hit = ground arith

  loop_miss :
      (fuel : ℕ) (c : ℕ) (s : List ℕ) (offset : ℕ)
      → stringcmp word (first_word (c ∷ s)) ≡ false
      → isincluded_loop (suc fuel) word (c ∷ s) offset
        ≡ isincluded_loop fuel word (drop (skip (c ∷ s)) (c ∷ s)) (offset + skip (c ∷ s))
  unfolding isincluded_loop first_word
  loop_miss fuel c s offset miss = ground (arith, next_word-skip c s)

  isincluded_loop-find :
      (fuel : ℕ) (s : List ℕ) (offset : ℕ)
      → length s < fuel
      → isincluded_loop fuel word s offset ≡ some (shift offset (find word true s))
  isincluded_loop-find zero s offset h = elim h [ ]
  isincluded_loop-find (suc fuel) [] offset h = unfold isincluded_loop find shift in refl
  isincluded_loop-find (suc fuel) (c ∷ s) offset h =
      elim (Bool-cases (stringcmp word (first_word (c ∷ s)))) [
        | inl hit ↦ loop_hit fuel c s offset hit
        | inr miss ↦
            loop_miss fuel c s offset miss
            ∙ isincluded_loop-find fuel (drop (skip (c ∷ s)) (c ∷ s)) (offset + skip (c ∷ s))
                (omega (arith, skip_bounds c s))
            ∙ ap some (sym (shift-shift offset (skip (c ∷ s)) _))
            ∙ ap (λ r. some (shift offset r)) (sym (find-skip c s miss))
      ]

pub isincluded-find :
    (x : ℕ) (xs str : List ℕ) → isincluded (x ∷ xs) str ≡ some (find (x ∷ xs) true str)
unfolding isincluded
isincluded-find x xs str =
    isincluded_loop-find x xs (suc (length str)) str 0 (omega arith) ∙ ap some (shift-zero _)

-- For a word that is not the empty text `isincluded` always ends; it returns the first place of
-- `str` where a word equal to it starts, and NULL where there is none.
pub isincluded-IsLeast :
    (word str : List ℕ)
    → word ≢ []
    → (r : Option ℕ) × (isincluded word str ≡ some r) × IsLeast (word_at word true str) r
isincluded-IsLeast [] str h = absurd (h refl)
isincluded-IsLeast (x ∷ xs) str h =
    (find (x ∷ xs) true str, isincluded-find x xs str, find-IsLeast (x ∷ xs) true str)
