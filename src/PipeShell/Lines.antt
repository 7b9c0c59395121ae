-- ===== src/PipeShell/Lines.antt =====
-- What the shell of week9 makes of a line.
use systemprogramminglab.Prelude.{
  ℕ, ◌≡◌, ◌<◌, refl, true, false, some, List, [], ◌∷◌, ◌++◌, lt→ltb, length, All, All-append,
  All-map, Lacks, arith,
}
use systemprogramminglab.Libc.Texts.{same, IsToken, joined_by, tokens-joined_by}
use systemprogramminglab.PipeShell.{begins, split_at, fits, make_tokens, has}

-- A word of a command that does not begin with `t`.
abbrev pub IsPlain : ℕ → List ℕ → Type 0
IsPlain t w = IsToken b' ' w × (begins t w ≡ false)

split_at-mark :
    (t : ℕ) (ws : List (List ℕ)) (m : List ℕ) (vs : List (List ℕ))
    → All (IsPlain t) ws
    → begins t m ≡ true
    → split_at t (ws ++ (m ∷ vs)) ≡ (ws, vs)
unfolding split_at
split_at-mark t [] m vs h e = rw (e) refl
split_at-mark t (w ∷ ws) m vs h e = rw (h.0.1, split_at-mark t ws m vs h.1 e) refl

fits-some : (ws : List (List ℕ)) → length ws < 128 → fits ws ≡ some ws
unfolding fits
fits-some ws h = rw (lt→ltb (length ws) 128 h) refl

-- A line whose words are given, with a word that begins with `t` in the middle, is taken apart into
-- the words in front of it and the words behind it, if both are fewer than 128. The words have no
-- spaces, are not empty, and those in front do not begin with `t`.
pub make_tokens_lem :
    (t : ℕ) (w : List ℕ) (ws : List (List ℕ)) (m : List ℕ) (vs : List (List ℕ))
    → All (IsPlain t) (w ∷ ws)
    → All (IsToken b' ') (m ∷ vs)
    → begins t m ≡ true
    → length (w ∷ ws) < 128
    → length vs < 128
    → make_tokens t (joined_by b' ' (w ∷ (ws ++ (m ∷ vs)))) ≡ some (w ∷ ws, vs)
unfolding make_tokens
make_tokens_lem t w ws m vs h k e a b =
    rw
      (
        tokens-joined_by b' ' w (ws ++ (m ∷ vs))
            (All-append (IsToken b' ') (w ∷ ws) (m ∷ vs) (All-map (λ w h. h.0) (w ∷ ws) h) k),
        split_at-mark t (w ∷ ws) m vs h e,
        fits-some (w ∷ ws) a,
        fits-some vs b,
      )
      refl

pub data Mark : Type 0 where
  bar : Mark
  more : Mark
  less : Mark

abbrev pub byte : Mark → ℕ
byte bar = b'|'
byte more = b'>'
byte less = b'<'

-- A word without any of the three.
abbrev pub IsOrdinary : List ℕ → Type 0
IsOrdinary w = IsToken b' ' w × (Lacks b'|' w × (Lacks b'>' w × Lacks b'<' w))

module _ (b : ℕ) where
  has_left : (x y : List ℕ) → has b x ≡ true → has b (x ++ y) ≡ true
  unfolding has
  has_left [] y h = absurd (ground (arith, h))
  has_left (c ∷ x) y h = ground (arith, h, has_left x y)

  has_right : (x y : List ℕ) → has b y ≡ true → has b (x ++ y) ≡ true
  unfolding has
  has_right [] y h = h
  has_right (c ∷ x) y h = rw (has_right x y h) ground arith

  has_behind : (d : ℕ) (y : List ℕ) → has b y ≡ true → has b (d ∷ y) ≡ true
  unfolding has
  has_behind d y h = rw (h) ground arith

  pub has-joined_by :
      (d : ℕ) (ws : List (List ℕ)) (m : List ℕ) (vs : List (List ℕ))
      → has b m ≡ true
      → has b (joined_by d (ws ++ (m ∷ vs))) ≡ true
  unfolding joined_by
  has-joined_by d [] m [] h = h
  has-joined_by d [] m (v ∷ vs) h = has_left m _ h
  has-joined_by d (w ∷ []) m vs h = has_right w _ (has_behind d _ (has-joined_by d [] m vs h))
  has-joined_by d (w ∷ u ∷ ws) m vs h =
      has_right w _ (has_behind d _ (has-joined_by d (u ∷ ws) m vs h))

  pub has-Lacks : (s : List ℕ) → Lacks b s → has b s ≡ false
  unfolding has
  has-Lacks [] h = refl
  has-Lacks (c ∷ s) h = rw (has-Lacks s h.1) ground (arith, h.0)

  pub has-same : (s t : List ℕ) → same s t ≡ true → has b s ≡ has b t
  unfolding has same
  has-same [] [] e = refl
  has-same [] (y ∷ t) e = absurd (ground arith)
  has-same (x ∷ s) [] e = absurd (ground arith)
  has-same (x ∷ s) (y ∷ t) e = ground (arith, has-same s t)
