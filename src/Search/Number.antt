-- ===== src/Search/Number.antt =====
-- `int_to_string` of pa1/main.c.
use mathlib.Core.List.{reverse, reverse-append}
use systemprogramminglab.Prelude.{
  ℕ, zero, suc, ◌+◌, ◌/◌, ◌%◌, ◌<◌, ◌≡◌, refl, ◌∙◌, sym, ap, inl, inr, true, false, List, [], ◌∷◌,
  ◌++◌, append-nil, append_assoc, arith, ltb, ◌==◌, if◌then◌else◌, Bool-cases, pos,
}
use systemprogramminglab.Libc.Decimal.{
  decimal, decimal_step, decimal_small, strtol, strtol-decimal, read_digits,
}

-- The `while` loop: `buffer` holds the digits written so far. A round divides `num` by ten, so
-- `num + 1` rounds are enough.
digit_loop : ℕ → ℕ → List ℕ → List ℕ
digit_loop zero num buffer = buffer
digit_loop (suc rounds) num buffer = elim (num == 0) [
  | true ↦ buffer
  | false ↦ digit_loop rounds (num / 10) (buffer ++ ((num % 10 + b'0') ∷ []))
]

-- For a number that is not negative. The second loop writes the digits in reverse.
unfoldable pub int_to_string : ℕ → List ℕ
unfolding digit_loop
int_to_string num = reverse (digit_loop (suc num) num (if num == 0 then b'0' ∷ [] else []))

runs : int_to_string 1207 ≡ b'1' ∷ b'2' ∷ b'0' ∷ b'7' ∷ []
unfolding int_to_string
runs = refl

digit_loop_step :
    (rounds num : ℕ) (buffer : List ℕ)
    → 0 < num
    → digit_loop (suc rounds) num buffer
      ≡ digit_loop rounds (num / 10) (buffer ++ ((num % 10 + b'0') ∷ []))
unfolding digit_loop
digit_loop_step rounds num buffer h = ground arith

digit_loop_zero :
    (rounds num : ℕ) (buffer : List ℕ) → num ≡ 0 → digit_loop rounds num buffer ≡ buffer
unfolding digit_loop
digit_loop_zero zero num buffer h = refl
digit_loop_zero (suc rounds) num buffer h = ground arith

reverse-push : (buffer : List ℕ) (c : ℕ) → reverse (buffer ++ (c ∷ [])) ≡ c ∷ reverse buffer
reverse-push buffer c = reverse-append buffer (c ∷ [])

reverse-digit_loop :
    (rounds num : ℕ) (buffer : List ℕ)
    → num < rounds
    → 0 < num
    → reverse (digit_loop rounds num buffer) ≡ decimal num ++ reverse buffer
reverse-digit_loop zero num buffer h k = elim h [ ]
reverse-digit_loop (suc rounds) num buffer h k = elim (Bool-cases (ltb num 10)) [
  | inl small ↦
      rw
        (
          digit_loop_step rounds num buffer k,
          digit_loop_zero rounds (num / 10) (buffer ++ ((num % 10 + b'0') ∷ [])) (ground arith),
          reverse-push buffer (num % 10 + b'0'),
          decimal_small num (ground arith),
        )
        (ap (λ c. c ∷ reverse buffer) (ground arith))
  | inr big ↦
      rw
        (
          digit_loop_step rounds num buffer k,
          reverse-digit_loop rounds (num / 10) (buffer ++ ((num % 10 + b'0') ∷ [])) (ground arith)
              (ground arith),
          reverse-push buffer (num % 10 + b'0'),
          decimal_step num (ground arith),
          append_assoc,
        )
        (ap (λ c. decimal (num / 10) ++ (c ∷ reverse buffer)) (omega arith))
]

no_zero : (num : ℕ) → (if◌then◌else◌ {A = List ℕ} (suc num == 0) (b'0' ∷ []) []) ≡ []
no_zero num = ground arith

-- `int_to_string` writes every number that is not negative in decimal, as `%d` does.
pub int_to_string-decimal : (num : ℕ) → int_to_string num ≡ decimal num
unfolding int_to_string
int_to_string-decimal zero =
    rw (digit_loop_zero 1 0 (b'0' ∷ []) refl, decimal_small 0 (omega arith))
int_to_string-decimal (suc num) =
    ap (λ b. reverse (digit_loop (suc (suc num)) (suc num) b)) (no_zero num)
    ∙ reverse-digit_loop (suc (suc num)) (suc num) [] (omega arith) (omega arith)
    ∙ append-nil (decimal (suc num))

-- A printed number is read back as itself.
pub strtol-int_to_string : (num : ℕ) → strtol (int_to_string num) ≡ pos num
unfolding read_digits
strtol-int_to_string num =
    ap strtol (int_to_string-decimal num ∙ sym (append-nil (decimal num))) ∙ strtol-decimal num []
