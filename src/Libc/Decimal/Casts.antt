-- ===== src/Libc/Decimal/Casts.antt =====
-- The widths of the values that `strtol` gives: the `long` it returns, and the `int` that a cast or
-- an assignment keeps of it.
use systemprogramminglab.Prelude.{
  ℕ, ◌-◌, ◌%◌, ◌<◌, ◌≡◌, refl, List, ltb, if◌then◌else◌, arith, codes, ℤ, pos, negsuc,
}
use systemprogramminglab.Libc.Decimal.{strtol}

-- An `int` as a word of 32 bits, and back.
abbrev pub int_word : ℤ → ℕ
int_word (pos n) = n % 4294967296
int_word (negsuc n) = 4294967295 - n % 4294967296

abbrev pub int_of : ℕ → ℤ
int_of w = if ltb w 2147483648 then pos w else negsuc (4294967295 - w)

-- A conversion to `int`, which keeps the low 32 bits.
unfoldable pub to_int : ℤ → ℤ
to_int i = int_of (int_word i)

-- A value outside `long` becomes LONG_MAX or LONG_MIN.
unfoldable pub to_long : ℤ → ℤ
to_long (pos n) = if ltb n 9223372036854775808 then pos n else pos 9223372036854775807
to_long (negsuc n) = if ltb n 9223372036854775808 then negsuc n else negsuc 9223372036854775807

-- `strtol(s, NULL, 10)`, and `(int)strtol(s, NULL, 10)`.
unfoldable pub strtol_long : List ℕ → ℤ
unfolding strtol to_long
strtol_long s = to_long (strtol s)

unfoldable pub strtol_int : List ℕ → ℤ
unfolding strtol_long to_int
strtol_int s = to_int (strtol_long s)

runs :
    (strtol_int (codes "4294967326") ≡ pos 30)
    × (strtol_long (codes "99999999999999999999") ≡ pos 9223372036854775807)
    × (strtol_int (codes "99999999999999999999") ≡ negsuc 0)
unfolding strtol_int
runs = (refl, refl, refl)

pub to_int_small : (n : ℕ) → n < 2147483648 → to_int (pos n) ≡ pos n
unfolding to_int
to_int_small n h = ground arith

pub to_long_small : (n : ℕ) → n < 9223372036854775808 → to_long (pos n) ≡ pos n
unfolding to_long
to_long_small n h = ground arith

-- What fits is kept.
pub strtol_long-fits :
    (s : List ℕ) (n : ℕ) → strtol s ≡ pos n → n < 9223372036854775808 → strtol_long s ≡ pos n
unfolding strtol_long
strtol_long-fits s n e h = rw e (to_long_small n h)

pub strtol_int-fits :
    (s : List ℕ) (n : ℕ) → strtol s ≡ pos n → n < 2147483648 → strtol_int s ≡ pos n
unfolding strtol_int
strtol_int-fits s n e h = rw (strtol_long-fits s n e (omega arith)) (to_int_small n h)
