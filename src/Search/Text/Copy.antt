-- ===== src/Search/Text/Copy.antt =====
-- `stringcpy` and `stringncpy` of pa1/mystring.c: what the destination array holds.
use systemprogramminglab.Prelude.{
  ℕ, zero, suc, ◌≤◌, ◌<◌, ◌≡◌, refl, ap, none, some, List, [], ◌∷◌, ◌++◌, arith, length, take, drop,
}
use systemprogramminglab.Search.Text.{stringncpy, stringcpy}
use systemprogramminglab.Search.Text.Compare.{stringlen-length}

-- `stringncpy` fills the array `dest` with `nbytes` bytes of the source and a NUL, and leaves the
-- rest of it alone, if the source has that many bytes and `dest` room for one more.
pub stringncpy_lem :
    (source dest : List ℕ) (nbytes : ℕ)
    → nbytes ≤ length source
    → nbytes < length dest
    → stringncpy source dest nbytes ≡ some (take nbytes source ++ (0 ∷ drop (suc nbytes) dest))
unfolding stringncpy
stringncpy_lem source [] nbytes h k = elim k [ ]
stringncpy_lem source (d ∷ dest) zero h k = refl
stringncpy_lem [] (d ∷ dest) (suc nbytes) h k = absurd (omega arith)
stringncpy_lem (c ∷ source) (d ∷ dest) (suc nbytes) h k =
    rw (stringncpy_lem source dest nbytes (omega arith) (omega arith))

-- With no room for the NUL it writes outside the array.
pub stringncpy_overflow :
    (source dest : List ℕ) (nbytes : ℕ)
    → length dest ≤ nbytes
    → stringncpy source dest nbytes ≡ none
unfolding stringncpy
stringncpy_overflow source [] nbytes h = refl
stringncpy_overflow source (d ∷ dest) zero h = absurd (omega arith)
stringncpy_overflow [] (d ∷ dest) (suc nbytes) h = refl
stringncpy_overflow (c ∷ source) (d ∷ dest) (suc nbytes) h =
    rw (stringncpy_overflow source dest nbytes (omega arith))

take-length : (s : List ℕ) → take (length s) s ≡ s
take-length [] = refl
take-length (c ∷ s) = ap (λ t. c ∷ t) (take-length s)

-- `stringcpy` copies the whole text and its NUL into an array with room for them.
pub stringcpy_lem :
    (source dest : List ℕ)
    → length source < length dest
    → stringcpy source dest ≡ some (source ++ (0 ∷ drop (suc (length source)) dest))
unfolding stringcpy
stringcpy_lem source dest h = rw (
  stringlen-length source,
  stringncpy_lem source dest (length source) (omega arith) h,
  take-length source,
)
