-- ===== src/Search/Run.antt =====
-- How a call of pa1/main.c can end: with a result, with an access through NULL or outside an
-- array, or not within the rounds that its loops are given.
use systemprogramminglab.Prelude.{Option, none, some}

pub data Run (A : Type 0) : Type 0 where
  done : A → Run A
  fault : Run A
  out_of_fuel : Run A

infixl 5 ◌>>=◌
abbrev pub ◌>>=◌ : {A B : Type 0} → Run A → (A → Run B) → Run B
done a >>= f = f a
fault >>= f = fault
out_of_fuel >>= f = out_of_fuel

-- The result of a loop on fuel.
abbrev pub looped : {A : Type 0} → Option A → Run A
looped none = out_of_fuel
looped (some a) = done a
