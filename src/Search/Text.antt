-- ===== src/Search/Text.antt =====
-- pa1/mystring.c. A `char *` to a text is the list of its bytes up to the NUL, which none of them
-- is; a pointer into a text is its offset from the pointer that the function was given, and NULL
-- is `none`.
pub mod Compare
pub mod Substring
pub mod Words
pub mod Copy
use systemprogramminglab.Prelude.{
  ℕ, zero, suc, ◌+◌, ◌-◌, Bool, true, false, ◌&&◌, ◌||◌, Option, none, some, List, [], ◌∷◌, map,
  ltb, leb, ◌==◌, if◌then◌else◌, ◌>>=◌, length, get_elem?, set, take, drop,
}

-- `*p`
abbrev pub deref : List ℕ → ℕ
deref [] = 0
deref (c ∷ s) = c

-- A pointer, seen from one byte further back.
abbrev pub next : Option ℕ → Option ℕ
next none = none
next (some o) = some (suc o)

stringlen_loop : List ℕ → ℕ → ℕ
stringlen_loop [] length = length
stringlen_loop (c ∷ string) length = stringlen_loop string (length + 1)

unfoldable pub stringlen : List ℕ → ℕ
unfolding stringlen_loop
stringlen string = stringlen_loop string 0

unfoldable pub stringcmp : List ℕ → List ℕ → Bool
stringcmp [] [] = true
stringcmp [] (y ∷ b) = false
stringcmp (x ∷ a) [] = false
stringcmp (x ∷ a) (y ∷ b) = if x == y then stringcmp a b else false

-- The inner loop of `issubstring`: whether it runs up to `i == sublen`.
unfoldable pub same_prefix : List ℕ → List ℕ → Bool
same_prefix [] str = true
same_prefix (x ∷ substr) [] = false
same_prefix (x ∷ substr) (y ∷ str) = if x == y then same_prefix substr str else false

unfoldable pub issubstring : List ℕ → List ℕ → Option ℕ
unfolding same_prefix
issubstring substr [] = none
issubstring substr (c ∷ str) =
    let rest = next (issubstring substr str) in
    if (deref substr == c) && same_prefix substr (c ∷ str) then some 0 else rest

-- `*p == ' ' || *p == '\t'`
abbrev pub is_blank : ℕ → Bool
is_blank c = (c == b' ') || (c == b'\t')

-- How far a pointer goes until it stands on a blank or on the NUL, and on no blank.
unfoldable pub word_length : List ℕ → ℕ
word_length [] = 0
word_length (c ∷ s) = if is_blank c then 0 else suc (word_length s)

unfoldable pub blank_length : List ℕ → ℕ
blank_length [] = 0
blank_length (c ∷ s) = if is_blank c then suc (blank_length s) else 0

-- `nextWord`
unfoldable pub next_word : List ℕ → Option ℕ
unfolding word_length blank_length
next_word [] = none
next_word (c ∷ s) = let w = word_length (c ∷ s) in some (w + blank_length (drop w (c ∷ s)))

-- The loop of `isincluded`: `start` is the text from the pointer `start`, `offset` its distance
-- from `str`; `none` where the fuel runs out. At the head of the loop `end` is `start`.
unfoldable pub isincluded_loop : ℕ → List ℕ → List ℕ → ℕ → Option (Option ℕ)
isincluded_loop zero word start offset = none
isincluded_loop (suc fuel) word [] offset = some none
isincluded_loop (suc fuel) word (c ∷ s) offset =
    elim (stringcmp word (take (word_length (c ∷ s)) (c ∷ s))) [
      | true ↦ some (some offset)
      | false ↦ elim (next_word (c ∷ s)) [
        | none ↦ none
        | some k ↦ isincluded_loop fuel word (drop k (c ∷ s)) (offset + k)
      ]
    ]

-- A round moves `start` on by at least a byte.
unfoldable pub isincluded : List ℕ → List ℕ → Option (Option ℕ)
isincluded word str = isincluded_loop (suc (length str)) word str 0

-- `dest[i] = source[i]` for `i` from 0 on, `n` times, and then `dest[n] = '\0'`; the lists are the
-- two arrays from the pointers on, and an access outside one is a fault.
unfoldable pub stringncpy : List ℕ → List ℕ → ℕ → Option (List ℕ)
stringncpy source [] nbytes = none
stringncpy source (d ∷ dest) zero = some (0 ∷ dest)
stringncpy [] (d ∷ dest) (suc nbytes) = none
stringncpy (c ∷ source) (d ∷ dest) (suc nbytes) = do
  rest ← stringncpy source dest nbytes
  some (c ∷ rest)

-- The text of `source` is copied, with the NUL behind it.
unfoldable pub stringcpy : List ℕ → List ℕ → Option (List ℕ)
unfolding stringlen stringncpy
stringcpy source dest = stringncpy source dest (stringlen source)

unfoldable pub lower : ℕ → ℕ
lower c = if leb b'A' c && leb c b'Z' then b'a' + c - b'A' else c

-- `toLowercase`
unfoldable pub to_lowercase : List ℕ → List ℕ
unfolding lower
to_lowercase = map lower
