-- ===== src/Prelude/Ints.antt =====
-- C's `int`: its value, a signed integer, and arrays indexed by one.
use Prim.Native.Nat.{ℕ, zero, suc, ◌<◌}
use mathlib.Core.Path.{◌≡◌, refl, ap}
use mathlib.Core.Logic.{◌↔◌}
use mathlib.Core.Bool.{Bool, true, false}
use mathlib.Core.List.{List, [], ◌∷◌}
use mathlib.Core.Option.{Option, none, some}
use native.Mathlib.Omega.{arith}
use systemprogramminglab.Prelude.Tests.{ltb, ◌==◌, if◌then◌else◌}
use systemprogramminglab.Prelude.Lists.{length, get_elem?, set, get_elem?-none, length-set}

-- `negsuc n` is -(n + 1).
pub data ℤ : Type 0 where
  pos : ℕ → ℤ
  negsuc : ℕ → ℤ

infix 50 ◌==ℤ◌
abbrev pub ◌==ℤ◌ : ℤ → ℤ → Bool
pos a ==ℤ pos b = a == b
negsuc a ==ℤ negsuc b = a == b
_ ==ℤ _ = false

-- `i < 0`
abbrev pub is_neg : ℤ → Bool
is_neg (pos n) = false
is_neg (negsuc n) = true

-- `i < n` for a constant `n ≥ 0`
abbrev pub ltb_pos : ℤ → ℕ → Bool
ltb_pos (pos i) n = ltb i n
ltb_pos (negsuc i) n = true

pub ==ℤ_iff : (a b : ℤ) → ((a ==ℤ b) ≡ true) ↔ (a ≡ b)
==ℤ_iff a b = ground arith

pub ==ℤ_self : (a : ℤ) → (a ==ℤ a) ≡ true
==ℤ_self a = (==ℤ_iff a a).1 refl

module _ {ℓ} {A : Type ℓ} where
  -- `a[i]`; an index out of the array is a fault.
  abbrev pub index : List A → ℤ → Option A
  index xs (pos i) = get_elem? xs i
  index xs (negsuc i) = none

  -- `a[i] = v`
  abbrev pub store : List A → ℤ → A → Option (List A)
  store xs (pos i) v = if ltb i (length xs) then some (set xs i v) else none
  store xs (negsuc i) v = none

-- `i` is an index of an array of `n` entries.
abbrev pub InRange : ℕ → ℤ → Type 0
InRange n (pos i) = i < n
InRange n (negsuc i) = ⊥

pub index_out {ℓ} : {A : Type ℓ} (xs : List A) (i : ℤ) → ¬ InRange (length xs) i → index xs i ≡ none
index_out xs (pos i) h = get_elem?-none xs i (omega arith)
index_out xs (negsuc i) h = refl

module _ {A : Type 0} where
  index-set :
      (xs : List A) (i j : ℕ) (v : A)
      → i < length xs
      → get_elem? (set xs i v) j ≡ (if i == j then some v else get_elem? xs j)
  index-set [] i j v h = elim h [ ]
  index-set (x ∷ xs) zero zero v h = refl
  index-set (x ∷ xs) zero (suc j) v h = ground arith
  index-set (x ∷ xs) (suc i) zero v h = ground arith
  index-set (x ∷ xs) (suc i) (suc j) v h = ground (arith, index-set xs i j v)

  -- What an array holds after a write.
  pub index-store :
      (xs : List A) (i j : ℤ) (v : A) {xs' : List A}
      → store xs i v ≡ some xs'
      → index xs' j ≡ (if i ==ℤ j then some v else index xs j)
  index-store xs (pos i) (pos j) v e = ground (arith, index-set xs i j v)
  index-store xs (pos i) (negsuc j) v e = refl
  index-store xs (negsuc i) j v e = cc

  set-set_self :
      (xs : List A) (i : ℕ) (v w : A) → get_elem? xs i ≡ some v → set (set xs i w) i v ≡ xs
  set-set_self [] i v w e = refl
  set-set_self (x ∷ xs) zero v w e = cc
  set-set_self (x ∷ xs) (suc i) v w e = ap (λ t. x ∷ t) (set-set_self xs i v w e)

  -- Writing the old entry back undoes a write.
  pub store-store :
      (xs : List A) (i : ℤ) (v w : A) {xs' : List A}
      → index xs i ≡ some v
      → store xs i w ≡ some xs'
      → store xs' i v ≡ some xs
  store-store xs (pos i) v w e e' = ground (arith, set-set_self xs i v w, length-set xs i w)
  store-store xs (negsuc i) v w e e' = cc

  pub store_of_index :
      (xs : List A) (i : ℤ) (v w : A)
      → index xs i ≡ some v
      → (xs' : List A) × (store xs i w ≡ some xs')
  store_of_index xs (pos i) v w e = (set xs i w, ground (arith, get_elem?-none xs i))
  store_of_index xs (negsuc i) v w e = cc

  set_same : (xs : List A) (i : ℕ) (v : A) → get_elem? xs i ≡ some v → set xs i v ≡ xs
  set_same [] i v e = refl
  set_same (x ∷ xs) zero v e = cc
  set_same (x ∷ xs) (suc i) v e = ap (λ t. x ∷ t) (set_same xs i v e)

  -- Writing what is there changes nothing.
  pub store_same : (xs : List A) (i : ℤ) (v : A) → index xs i ≡ some v → store xs i v ≡ some xs
  store_same xs (pos i) v e = ground (arith, set_same xs i v, get_elem?-none xs i)
  store_same xs (negsuc i) v e = cc

-- `i + 1` and `i - 1`
abbrev pub inc : ℤ → ℤ
inc (pos n) = pos (suc n)
inc (negsuc zero) = pos 0
inc (negsuc (suc n)) = negsuc n

abbrev pub dec : ℤ → ℤ
dec (pos zero) = negsuc 0
dec (pos (suc n)) = pos n
dec (negsuc n) = negsuc (suc n)
