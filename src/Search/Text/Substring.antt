-- ===== src/Search/Text/Substring.antt =====
-- `issubstring` of pa1/mystring.c.
use systemprogramminglab.Prelude.{
  ℕ, zero, suc, ◌<◌, ◌≡◌, ◌≢◌, refl, inl, inr, Bool, true, false, Option, none, some, List, [], ◌∷◌,
  ◌++◌, arith, Bool-cases, drop, Lacks,
}
use systemprogramminglab.Search.Text.{next, same_prefix, issubstring}

-- The least offset with a property, if there is one.
abbrev pub IsLeast : (ℕ → Bool) → Option ℕ → Type 0
IsLeast p none = (o : ℕ) → p o ≡ false
IsLeast p (some o) = (p o ≡ true) × ((j : ℕ) → j < o → p j ≡ false)

pub IsLeast-next :
    (p : ℕ → Bool) (r : Option ℕ) → p 0 ≡ false → IsLeast (λ o. p (suc o)) r → IsLeast p (next r)
IsLeast-next p none h all = λ o. cases o
  where
    cases : (o : ℕ) → p o ≡ false
    cases zero = h
    cases (suc o) = all o
IsLeast-next p (some o) h (hit, least) = (hit, before)
  where
    before : (j : ℕ) → j < suc o → p j ≡ false
    before zero k = h
    before (suc j) k = least j (omega arith)

-- Whether a copy of `substr` starts at an offset.
unfoldable pub copy_at : List ℕ → List ℕ → ℕ → Bool
copy_at substr str o = same_prefix substr (drop o str)

copy_at-nil : (x : ℕ) (substr : List ℕ) (o : ℕ) → copy_at (x ∷ substr) [] o ≡ false
unfolding copy_at same_prefix
copy_at-nil x substr zero = refl
copy_at-nil x substr (suc o) = refl

issubstring_end : (substr : List ℕ) → issubstring substr [] ≡ none
unfolding issubstring
issubstring_end substr = refl

module _ (x : ℕ) (substr : List ℕ) (c : ℕ) (str : List ℕ) where
  issubstring-hit :
      same_prefix (x ∷ substr) (c ∷ str) ≡ true → issubstring (x ∷ substr) (c ∷ str) ≡ some 0
  unfolding issubstring
  issubstring-hit h = ground arith

  issubstring-miss :
      same_prefix (x ∷ substr) (c ∷ str) ≡ false
      → issubstring (x ∷ substr) (c ∷ str) ≡ next (issubstring (x ∷ substr) str)
  unfolding issubstring
  issubstring-miss h = ground arith

-- `issubstring` returns the first place where a copy of `substr` starts, and NULL where there is
-- none, if `substr` is not the empty text.
pub issubstring-IsLeast :
    (substr str : List ℕ) → substr ≢ [] → IsLeast (copy_at substr str) (issubstring substr str)
unfolding copy_at
issubstring-IsLeast [] str h = absurd (h refl)
issubstring-IsLeast (x ∷ substr) [] h = rw (issubstring_end (x ∷ substr)) (copy_at-nil x substr)
issubstring-IsLeast (x ∷ substr) (c ∷ str) h =
    elim (Bool-cases (same_prefix (x ∷ substr) (c ∷ str))) [
      | inl hit ↦ rw (issubstring-hit x substr c str hit) (hit, λ j k. absurd (omega arith))
      | inr miss ↦ rw (issubstring-miss x substr c str miss) (
          IsLeast-next (copy_at (x ∷ substr) (c ∷ str)) (issubstring (x ∷ substr) str) miss
            (issubstring-IsLeast (x ∷ substr) str h))
    ]

-- The empty text is never found in a text.
pub issubstring_nil : (str : List ℕ) → Lacks 0 str → issubstring [] str ≡ none
unfolding issubstring
issubstring_nil [] h = refl
issubstring_nil (c ∷ str) h = ground (arith, issubstring_nil str)

prefix-split :
    (substr str : List ℕ) → same_prefix substr str ≡ true → (back : List ℕ) × (str ≡ substr ++ back)
unfolding same_prefix
prefix-split [] str h = (str, refl)
prefix-split (x ∷ substr) [] h = absurd (cc)
prefix-split (x ∷ substr) (c ∷ str) h =
    let (back, e) = prefix-split substr str (ground arith) in (back, ground (arith, e))
