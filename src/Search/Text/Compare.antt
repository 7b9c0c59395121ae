-- ===== src/Search/Text/Compare.antt =====
-- `stringlen`, `stringcmp` and `toLowercase` of pa1/mystring.c.
use systemprogramminglab.Prelude.{ℕ, ◌+◌, ◌≡◌, ◌↔◌, refl, true, List, [], ◌∷◌, arith, length}
use systemprogramminglab.Search.Text.{stringlen_loop, stringlen, stringcmp, lower, to_lowercase}

stringlen_loop-length : (s : List ℕ) (n : ℕ) → stringlen_loop s n ≡ n + length s
unfolding stringlen_loop
stringlen_loop-length [] n = omega arith
stringlen_loop-length (c ∷ s) n = omega (arith, stringlen_loop-length s (n + 1))

pub stringlen-length : (s : List ℕ) → stringlen s ≡ length s
unfolding stringlen
stringlen-length s = omega (arith, stringlen_loop-length s 0)

pub stringcmp_self : (a : List ℕ) → stringcmp a a ≡ true
unfolding stringcmp
stringcmp_self [] = refl
stringcmp_self (x ∷ a) = ground (arith, stringcmp_self a)

pub stringcmp_sound : (a b : List ℕ) → stringcmp a b ≡ true → a ≡ b
unfolding stringcmp
stringcmp_sound [] [] h = refl
stringcmp_sound [] (y ∷ b) h = cc
stringcmp_sound (x ∷ a) [] h = cc
stringcmp_sound (x ∷ a) (y ∷ b) h = ground (arith, stringcmp_sound a b)

-- `stringcmp` returns 1 exactly where the two texts are equal.
pub stringcmp_iff : (a b : List ℕ) → (stringcmp a b ≡ true) ↔ (a ≡ b)
stringcmp_iff a b = (stringcmp_sound a b, λ e. rw e (stringcmp_self b))

lower_idem : (c : ℕ) → lower (lower c) ≡ lower c
unfolding lower
lower_idem c = ground arith

-- A text in lower case stays as it is.
pub to_lowercase_idem : (s : List ℕ) → to_lowercase (to_lowercase s) ≡ to_lowercase s
unfolding to_lowercase
to_lowercase_idem [] = refl
to_lowercase_idem (c ∷ s) = cc (lower_idem c, to_lowercase_idem s)
