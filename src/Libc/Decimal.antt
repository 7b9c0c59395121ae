-- ===== src/Libc/Decimal.antt =====
-- `%d` of printf, and the number that `strtol(s, NULL, 10)` reads.
pub mod Ends
pub mod Casts
use systemprogramminglab.Prelude.{
  ℕ, zero, suc, ◌+◌, ◌-◌, ◌*◌, ◌/◌, ◌%◌, ◌≤◌, ◌<◌, ◌≡◌, refl, inl, inr, Bool, true, false, ◌&&◌,
  ◌||◌, List, [], ◌∷◌, ◌++◌, append_assoc, arith, ltb, leb, ◌==◌, if◌then◌else◌, Bool-cases, length,
  length-append, codes, ℤ, pos, negsuc,
}

-- The digits of `n`, the last one first to go; `fuel` bounds their number.
pub digits : ℕ → ℕ → List ℕ
digits zero n = []
digits (suc fuel) n =
    let front = digits fuel (n / 10) in
    if ltb n 10 then (b'0' + n) ∷ [] else front ++ ((b'0' + n % 10) ∷ [])

-- A number `n` has at most `n + 1` digits.
unfoldable pub decimal : ℕ → List ℕ
unfolding digits
decimal n = digits (suc n) n

-- `%d`
unfoldable pub format_int : ℤ → List ℕ
unfolding decimal
format_int (pos n) = decimal n
format_int (negsuc n) = b'-' ∷ decimal (suc n)

abbrev pub is_digit : ℕ → Bool
is_digit c = leb b'0' c && leb c b'9'

-- The value of the digits at the front of a text, behind the value `acc` of those already read.
unfoldable pub read_digits : List ℕ → ℕ → ℕ
read_digits [] acc = acc
read_digits (c ∷ s) acc = elim (is_digit c) [
  | true ↦ read_digits s (acc * 10 + (c - b'0'))
  | false ↦ acc
]

abbrev negate : ℕ → ℤ
negate zero = pos 0
negate (suc n) = negsuc n

signed : List ℕ → ℤ
unfolding read_digits
signed [] = pos 0
signed (c ∷ s) =
    if c == b'-'
    then negate (read_digits s 0)
    else if c == b'+'
    then pos (read_digits s 0)
    else pos (read_digits (c ∷ s) 0)

abbrev pub is_space : ℕ → Bool
is_space c = c == b' ' || (leb 9 c && leb c 13)

-- The number that `strtol` reads in base ten, before it is made a `long` (Casts).
unfoldable pub strtol : List ℕ → ℤ
unfolding signed
strtol [] = pos 0
strtol (c ∷ s) = let rest = strtol s in if is_space c then rest else signed (c ∷ s)

runs :
    (strtol (codes " -12x") ≡ negsuc 11)
    × (format_int (pos 250) ≡ codes "250")
    × (strtol (codes "") ≡ pos 0)
unfolding strtol format_int
runs = (refl, refl, refl)

-- Enough fuel is as good as more.
digits_fuel : (f g n : ℕ) → n < f → n < g → digits f n ≡ digits g n
unfolding digits
digits_fuel zero g n h k = elim h [ ]
digits_fuel (suc f) zero n h k = elim k [ ]
digits_fuel (suc f) (suc g) n h k = elim (Bool-cases (ltb n 10)) [
  | inl small ↦ rw small
  | inr big ↦ rw (big, digits_fuel f g (n / 10) (ground arith) (ground arith))
]

read_digits-digits :
    (f n : ℕ) (rest : List ℕ) → n < f → read_digits (digits f n ++ rest) 0 ≡ read_digits rest n
unfolding digits read_digits
read_digits-digits zero n rest h = elim h [ ]
read_digits-digits (suc f) n rest h = elim (Bool-cases (ltb n 10)) [
  | inl small ↦ rw small (ground arith)
  | inr big ↦
      rw (big, append_assoc, read_digits-digits f (n / 10) ((b'0' + n % 10) ∷ rest) (ground arith))
        (ground arith)
]

abbrev StartsWithDigit : List ℕ → Type 0
StartsWithDigit [] = ⊥
StartsWithDigit (c ∷ s) = is_digit c ≡ true

StartsWithDigit-append : (s t : List ℕ) → StartsWithDigit s → StartsWithDigit (s ++ t)
StartsWithDigit-append [] t h = absurd h
StartsWithDigit-append (c ∷ s) t h = h

digits-StartsWithDigit : (f n : ℕ) → n < f → StartsWithDigit (digits f n)
unfolding digits
digits-StartsWithDigit zero n h = elim h [ ]
digits-StartsWithDigit (suc f) n h = elim (Bool-cases (ltb n 10)) [
  | inl small ↦ rw small (ground arith)
  | inr big ↦ rw big (
      StartsWithDigit-append (digits f (n / 10)) _
        (digits-StartsWithDigit f (n / 10) (ground arith)))
]

pub decimal-StartsWithDigit : (n : ℕ) → StartsWithDigit (decimal n)
unfolding decimal
decimal-StartsWithDigit n = digits-StartsWithDigit (suc n) n (omega arith)

-- A text that starts with a digit is read from its first byte.
strtol_digit : (s : List ℕ) → StartsWithDigit s → strtol s ≡ pos (read_digits s 0)
unfolding strtol
strtol_digit [] h = absurd h
strtol_digit (c ∷ s) h = ground arith

pub strtol-decimal : (n : ℕ) (rest : List ℕ) → strtol (decimal n ++ rest) ≡ pos (read_digits rest n)
unfolding decimal
strtol-decimal n rest =
    rw (strtol_digit _ (StartsWithDigit-append (decimal n) rest (decimal-StartsWithDigit n)))
      (rw (read_digits-digits (suc n) n rest (omega arith)))

digits-length_one : (f n : ℕ) → n < 10 → length (digits f n) ≤ 1
unfolding digits
digits-length_one zero n h = omega arith
digits-length_one (suc f) n h = ground arith

digits-length_two : (f n : ℕ) → n < 100 → length (digits f n) ≤ 2
unfolding digits
digits-length_two zero n h = omega arith
digits-length_two (suc f) n h = elim (Bool-cases (ltb n 10)) [
  | inl small ↦ rw small (omega arith)
  | inr big ↦ rw big (
      omega (
        arith,
        digits-length_one f (n / 10) (omega arith),
        length-append (digits f (n / 10)) ((b'0' + n % 10) ∷ []),
      ))
]

digits-length_three : (f n : ℕ) → n < 1000 → length (digits f n) ≤ 3
unfolding digits
digits-length_three zero n h = omega arith
digits-length_three (suc f) n h = elim (Bool-cases (ltb n 10)) [
  | inl small ↦ rw small (omega arith)
  | inr big ↦ rw big (
      omega (
        arith,
        digits-length_two f (n / 10) (omega arith),
        length-append (digits f (n / 10)) ((b'0' + n % 10) ∷ []),
      ))
]

pub length-decimal : (n : ℕ) → n < 1000 → length (decimal n) ≤ 3
unfolding decimal
length-decimal n h = digits-length_three (suc n) n h

-- One round of the division by ten.
pub decimal_step : (n : ℕ) → 10 ≤ n → decimal n ≡ decimal (n / 10) ++ ((b'0' + n % 10) ∷ [])
unfolding decimal digits
decimal_step n h = elim (Bool-cases (ltb n 10)) [
  | inl small ↦ absurd (ground arith)
  | inr big ↦ rw (big, digits_fuel n (suc (n / 10)) (n / 10) (omega arith) (omega arith))
]

pub decimal_small : (n : ℕ) → n < 10 → decimal n ≡ (b'0' + n) ∷ []
unfolding decimal digits
decimal_small n h = ground arith
