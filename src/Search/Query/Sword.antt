-- ===== src/Search/Query/Sword.antt =====
-- `handle_sword` of pa1/main.c: the places that it prints for a line.
use systemprogramminglab.Prelude.{
  ℕ, zero, suc, ◌+◌, ◌<◌, ◌≡◌, ◌≢◌, refl, ◌∙◌, sym, ap, inl, inr, Bool, true, false, ◌&&◌, Option,
  none, some, List, [], ◌∷◌, arith, if◌then◌else◌, Bool-cases, Option-cases, length, length-drop,
  drop,
}
use systemprogramminglab.Search.Text.{next, stringcmp, is_blank}
use systemprogramminglab.Search.Text.Compare.{stringcmp_sound}
use systemprogramminglab.Search.Text.Words.{first_word, find, isincluded-find}
use systemprogramminglab.Search.Run.{done}
use systemprogramminglab.Search.Query.{sword_hits}

-- All places, counted from `base` on, where a word equal to `word` starts; `start` says whether a
-- word may start at the first byte.
unfoldable pub places : List ℕ → Bool → List ℕ → ℕ → List ℕ
places word start [] base = []
places word start (c ∷ s) base =
    let rest = places word (is_blank c) s (base + 1) in
    if start && stringcmp word (first_word (c ∷ s)) then base ∷ rest else rest

blank_word : (c : ℕ) (s : List ℕ) → is_blank c ≡ true → first_word (c ∷ s) ≡ []
unfolding first_word
blank_word c s h = rw h

inside_word : (c : ℕ) (s : List ℕ) → is_blank c ≡ false → first_word (c ∷ s) ≡ c ∷ first_word s
unfolding first_word
inside_word c s h = rw h

next_ne_zero : (r : Option ℕ) → next r ≢ some 0
next_ne_zero none = cc
next_ne_zero (some o) = λ e. ground arith

next-suc : (r : Option ℕ) (o : ℕ) → next r ≡ some (suc o) → r ≡ some o
next-suc none o e = cc
next-suc (some k) o e = ground arith

module _ (x : ℕ) (xs : List ℕ) where
  abbrev word : List ℕ
  word = x ∷ xs

  places-none :
      (start : Bool) (s : List ℕ) (base : ℕ)
      → find word start s ≡ none
      → places word start s base ≡ []
  unfolding places find
  places-none start [] base e = refl
  places-none start (c ∷ s) base e = ground (arith, places-none (is_blank c) s (base + 1))

  -- Where no word equal to `word` starts at the first byte, it does not matter whether one may.
  places-miss :
      (s : List ℕ) (base : ℕ)
      → stringcmp word (first_word s) ≡ false
      → places word true s base ≡ places word false s base
  unfolding places
  places-miss [] base e = refl
  places-miss (c ∷ s) base e = rw e

  shorter : (ys : List ℕ) → suc (length ys) ≡ length word → stringcmp word ys ≡ false
  shorter ys e = elim (Bool-cases (stringcmp word ys)) [
    | inl same ↦ absurd (omega (arith, ap length (stringcmp_sound word ys same)))
    | inr other ↦ other
  ]

  behind-hit :
      (c : ℕ) (s : List ℕ)
      → stringcmp word (first_word (c ∷ s)) ≡ true
      → (is_blank c ≡ false) × (stringcmp word (first_word s) ≡ false)
  unfolding first_word
  behind-hit c s e = elim (Bool-cases (is_blank c)) [
    | inl blank ↦
        let same : word ≡ [] = stringcmp_sound word [] (rw (blank_word c s blank) at e) in
        absurd (cc)
    | inr inside ↦
        let same : word ≡ c ∷ first_word s =
          stringcmp_sound word (c ∷ first_word s) (rw (inside_word c s inside) at e) in
        (inside, shorter (first_word s) (omega (arith, ap length same)))
  ]

  hit_here :
      (c : ℕ) (s : List ℕ) (base : ℕ)
      → stringcmp word (first_word (c ∷ s)) ≡ true
      → ◌≡◌ {A = List ℕ}
          (base ∷ places word (is_blank c) s (base + 1))
          ((base + 0) ∷ places word true s (base + 1))
  hit_here c s base hit =
      let (inside, miss) = behind-hit c s hit in
      rw (inside, places-miss s (base + 1) miss)
        (ap (λ k. k ∷ places word false s (base + 1)) (omega arith))

  places-some :
      (start : Bool) (s : List ℕ) (base o : ℕ)
      → find word start s ≡ some o
      → places word start s base ≡ (base + o) ∷ places word true (drop (suc o) s) (base + suc o)
  unfolding places find
  places-some start [] base o e = absurd (cc)
  places-some start (c ∷ s) base zero e =
      ground (arith, hit_here c s base, next_ne_zero (find word (is_blank c) s))
  places-some start (c ∷ s) base (suc o) e =
      ground (arith, next-suc (find word (is_blank c) s) o, places-some (is_blank c) s (base + 1) o)

  last_round :
      (fuel : ℕ) (s : List ℕ) (base : ℕ)
      → find word true s ≡ none
      → sword_hits (suc fuel) word s base ≡ done []
  unfolding sword_hits
  last_round fuel s base absent = ground (arith, isincluded-find x xs s)

  round :
      (fuel : ℕ) (s : List ℕ) (base o : ℕ) {hits : List ℕ}
      → find word true s ≡ some o
      → sword_hits fuel word (drop (suc o) s) (base + suc o) ≡ done hits
      → sword_hits (suc fuel) word s base ≡ done ((base + o) ∷ hits)
  unfolding sword_hits
  round fuel s base o found rest = ground (arith, isincluded-find x xs s)

  shorter_rest :
      (s : List ℕ) (o fuel : ℕ)
      → find word true s ≡ some o
      → length s < suc fuel
      → length (drop (suc o) s) < fuel
  unfolding find
  shorter_rest [] o fuel e h = absurd (cc)
  shorter_rest (c ∷ s) o fuel e h = omega (arith, length-drop o s)

  sword_hits-places :
      (fuel : ℕ) (s : List ℕ) (base : ℕ)
      → length s < fuel
      → sword_hits fuel word s base ≡ done (places word true s base)
  sword_hits-places zero s base h = elim h [ ]
  sword_hits-places (suc fuel) s base h = elim (Option-cases (find word true s)) [
    | inl absent ↦ last_round fuel s base absent ∙ ap done (sym (places-none true s base absent))
    | inr (o, found) ↦
        let rest =
          sword_hits-places fuel (drop (suc o) s) (base + suc o) (shorter_rest s o fuel found h) in
        round fuel s base o found rest ∙ ap done (sym (places-some true s base o found))
  ]

-- For a line and a word that is not the empty text, `handle_sword` prints exactly the places where
-- a word equal to the one looked for starts, in order, and its loop ends.
pub sword_hits_lem :
    (word content : List ℕ)
    → word ≢ []
    → sword_hits (suc (length content)) word content 0 ≡ done (places word true content 0)
sword_hits_lem [] content h = absurd (h refl)
sword_hits_lem (x ∷ xs) content h =
    sword_hits-places x xs (suc (length content)) content 0 (omega arith)
