-- ===== src/Libc/Decimal/Ends.antt =====
-- Where `strtol` stops: `*endptr`.
use systemprogramminglab.Prelude.{
  ℕ, zero, suc, ◌+◌, ◌/◌, ◌%◌, ◌≡◌, refl, inl, inr, true, ◌||◌, Option, none, some, List, [], ◌∷◌,
  ◌++◌, ◌==◌, ltb, if◌then◌else◌, Bool-cases, All, All-append, arith, codes, ◌≢◌, false,
}
use systemprogramminglab.Libc.Decimal.{digits, decimal, is_digit, is_space}

unfoldable pub skip_digits : List ℕ → List ℕ
skip_digits [] = []
skip_digits (c ∷ s) = let rest = skip_digits s in if is_digit c then rest else c ∷ s

-- `none` where there is no digit.
abbrev digits_end : List ℕ → Option (List ℕ)
digits_end [] = none
digits_end (c ∷ s) = if is_digit c then some (skip_digits s) else none

abbrev signed_end : List ℕ → Option (List ℕ)
signed_end [] = none
signed_end (c ∷ s) = if c == b'-' || c == b'+' then digits_end s else digits_end (c ∷ s)

number_end : List ℕ → Option (List ℕ)
unfolding skip_digits
number_end [] = none
number_end (c ∷ s) = let rest = number_end s in if is_space c then rest else signed_end (c ∷ s)

abbrev or_whole : List ℕ → Option (List ℕ) → List ℕ
or_whole s none = s
or_whole s (some rest) = rest

-- The text from `*endptr` on; with no number, all of it.
unfoldable pub strtol_end : List ℕ → List ℕ
unfolding number_end
strtol_end s = or_whole s (number_end s)

runs :
    (strtol_end (codes " -12x") ≡ codes "x")
    × (strtol_end (codes " x") ≡ codes " x")
    × (strtol_end (codes "80") ≡ [])
unfolding strtol_end
runs = (refl, refl, refl)

IsDigits : List ℕ → Type 0
IsDigits = All (λ c. is_digit c ≡ true)

digits-IsDigits : (f n : ℕ) → IsDigits (digits f n)
unfolding digits IsDigits
digits-IsDigits zero n = tt
digits-IsDigits (suc f) n = elim (Bool-cases (ltb n 10)) [
  | inl small ↦ rw small (ground arith, tt)
  | inr big ↦ rw big (
      All-append (λ c. is_digit c ≡ true) (digits f (n / 10)) ((b'0' + n % 10) ∷ [])
        (digits-IsDigits f (n / 10)) (ground arith, tt))
]

skip_digits-IsDigits : (s rest : List ℕ) → IsDigits s → skip_digits (s ++ rest) ≡ skip_digits rest
unfolding skip_digits IsDigits
skip_digits-IsDigits [] rest h = refl
skip_digits-IsDigits (c ∷ s) rest h = rw h.0 (skip_digits-IsDigits s rest h.1)

digit_plain :
    (c : ℕ) → is_digit c ≡ true → (is_space c ≡ false) × ((c == b'-' || c == b'+') ≡ false)
digit_plain c h = (ground arith, ground arith)

-- Behind the digits of a text that starts with one.
end_lem : (s rest : List ℕ) → s ≢ [] → IsDigits s → strtol_end (s ++ rest) ≡ skip_digits rest
unfolding strtol_end number_end IsDigits
end_lem [] rest ne h = absurd (ne refl)
end_lem (c ∷ s) rest ne h =
    let (space, sign) = digit_plain c h.0 in rw (space, sign, h.0) (skip_digits-IsDigits s rest h.1)

append_some : (s : List ℕ) (c : ℕ) → s ++ (c ∷ []) ≢ []
append_some [] c = cc
append_some (x ∷ s) c = cc

digits_some : (f n : ℕ) → digits (suc f) n ≢ []
unfolding digits
digits_some f n = elim (Bool-cases (ltb n 10)) [
  | inl small ↦ rw small (cc)
  | inr big ↦ rw big (append_some (digits f (n / 10)) _)
]

-- `strtol` stops behind the digits of a number.
pub strtol_end-decimal : (n : ℕ) (rest : List ℕ) → strtol_end (decimal n ++ rest) ≡ skip_digits rest
unfolding decimal
strtol_end-decimal n rest =
    end_lem (digits (suc n) n) rest (digits_some n n) (digits-IsDigits (suc n) n)
