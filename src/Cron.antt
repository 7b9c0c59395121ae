-- ===== src/Cron.antt =====
-- week7/cron.c: whether a line of the crontab is due, and what is run then. `strtok_r` is given a
-- pointer there that points nowhere; it is taken to point to a pointer of its own.
pub mod Due
pub mod Rounds
mod Tests
use systemprogramminglab.Prelude.{
  ℕ, Bool, true, false, ◌&&◌, Option, none, some, List, [], ◌∷◌, ◌==◌, if◌then◌else◌, ◌>>=◌, take,
  ℤ, pos, ◌==ℤ◌,
}
use systemprogramminglab.Libc.Decimal.Casts.{strtol_int}
use systemprogramminglab.Libc.Texts.{c_text, tokens}

-- `tm->tm_min` and `tm->tm_hour`
pub record Time : Type 0 where
  pub min : ℕ
  pub hour : ℕ

-- The first three tokens; with fewer, a test reads through NULL.
abbrev pub three : List (List ℕ) → Option (List ℕ × List ℕ × List ℕ)
three [] = none
three (a ∷ []) = none
three (a ∷ b ∷ []) = none
three (a ∷ b ∷ c ∷ more) = some (a, b, c)

abbrev pub is_star : List ℕ → Bool
is_star [] = false
is_star (c ∷ w) = c == b'*'

-- The condition, for the first two tokens. Both numbers are read from the first.
unfoldable pub is_due : Time → List ℕ → List ℕ → Bool
is_due now token0 token1 =
    let min = if is_star token0 then pos now.min else strtol_int token0 in
    let hour = if is_star token1 then pos now.hour else strtol_int token0 in
    (min ==ℤ pos now.min) && (hour ==ℤ pos now.hour)

-- A round of the loop, on the bytes of the crontab: the command that `sh` is given, if one is.
unfoldable pub check : Time → List ℕ → Option (Option (List ℕ))
unfolding is_due
check now crontab = do
  (token0, token1, path) ← three (tokens b' ' (c_text (take 511 crontab)))
  some (if is_due now token0 token1 then some path else none)
