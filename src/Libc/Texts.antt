-- ===== src/Libc/Texts.antt =====
-- What the sources use of the C library on texts: `strlen`, `strstr` and a run of `strtok_r`. An
-- array is the list of its bytes; behind the last one stands a NUL.
use systemprogramminglab.Prelude.{
  ℕ, suc, ◌≡◌, ◌≢◌, refl, ◌∙◌, sym, ap, Bool, true, false, Option, none, some, List, [], ◌∷◌, ◌++◌,
  append_assoc, append-nil, arith, ◌==◌, if◌then◌else◌, length, All, Lacks, Lacks-append,
}

-- The text at the start of an array: the bytes up to the first NUL.
unfoldable pub c_text : List ℕ → List ℕ
c_text [] = []
c_text (c ∷ s) = if c == 0 then [] else c ∷ c_text s

pub c_text_whole : (s : List ℕ) → Lacks 0 s → c_text s ≡ s
unfolding c_text
c_text_whole [] h = refl
c_text_whole (c ∷ s) h = ground (arith, c_text_whole s)

pub c_text_stop : (s rest : List ℕ) → Lacks 0 s → c_text (s ++ (0 ∷ rest)) ≡ s
unfolding c_text
c_text_stop [] rest h = refl
c_text_stop (c ∷ s) rest h = ground (arith, c_text_stop s rest)

-- `strcmp` as a test of equality.
unfoldable pub same : List ℕ → List ℕ → Bool
same [] [] = true
same [] (y ∷ b) = false
same (x ∷ a) [] = false
same (x ∷ a) (y ∷ b) = if x == y then same a b else false

unfoldable pub starts : List ℕ → List ℕ → Bool
starts [] s = true
starts (x ∷ p) [] = false
starts (x ∷ p) (c ∷ s) = if x == c then starts p s else false

abbrev pub shift : Option ℕ → Option ℕ
shift none = none
shift (some o) = some (suc o)

-- `strstr(s, p)`, as an offset from `s`, for a text `p` that is not empty.
unfoldable pub strstr : List ℕ → List ℕ → Option ℕ
unfolding starts
strstr [] p = none
strstr (c ∷ s) p = let rest = shift (strstr s p) in if starts p (c ∷ s) then some 0 else rest

abbrev pub keep : List ℕ → List (List ℕ) → List (List ℕ)
keep [] ws = ws
keep (c ∷ w) ws = (c ∷ w) ∷ ws

-- The token that a text begins with, which may be empty, and the tokens behind it.
unfoldable pub parts : ℕ → List ℕ → List ℕ × List (List ℕ)
parts d [] = ([], [])
parts d (c ∷ s) = let (w, ws) = parts d s in if c == d then ([], keep w ws) else (c ∷ w, ws)

-- What `strtok_r` returns, call after call until NULL, for one delimiter.
unfoldable pub tokens : ℕ → List ℕ → List (List ℕ)
unfolding parts
tokens d s = let (w, ws) = parts d s in keep w ws

-- Texts with a delimiter between two.
unfoldable pub joined_by : ℕ → List (List ℕ) → List ℕ
joined_by d [] = []
joined_by d (w ∷ []) = w
joined_by d (w ∷ v ∷ ws) = w ++ (d ∷ joined_by d (v ∷ ws))

-- A token.
abbrev pub IsToken : ℕ → List ℕ → Type 0
IsToken d w = (w ≢ []) × Lacks d w

-- A text that is not empty, and whose last byte is not `b`.
abbrev pub EndsNot : ℕ → List ℕ → Type 0
EndsNot b [] = ⊥
EndsNot b (c ∷ []) = c ≢ b
EndsNot b (c ∷ d ∷ s) = EndsNot b (d ∷ s)

parts-word :
    (d : ℕ) (w s : List ℕ) → Lacks d w → parts d (w ++ s) ≡ (w ++ (parts d s).0, (parts d s).1)
unfolding parts
parts-word d [] s h = refl
parts-word d (c ∷ w) s h = ground (arith, parts-word d w s, h.0)

parts_sep : (d : ℕ) (s : List ℕ) → parts d (d ∷ s) ≡ ([], tokens d s)
unfolding parts tokens
parts_sep d s = ground arith

abbrev joint : List ℕ × List (List ℕ) → List (List ℕ)
joint (w, ws) = keep w ws

tokens-parts : (d : ℕ) (s : List ℕ) → tokens d s ≡ joint (parts d s)
unfolding tokens
tokens-parts d s = refl

parts_nil : (d : ℕ) → parts d [] ≡ ([], [])
unfolding parts
parts_nil d = refl

pub tokens-cons : (d : ℕ) (w s : List ℕ) → IsToken d w → tokens d (w ++ (d ∷ s)) ≡ w ∷ tokens d s
tokens-cons d [] s h = absurd (h.0 refl)
tokens-cons d (c ∷ w) s h =
    tokens-parts d (c ∷ (w ++ (d ∷ s)))
    ∙ ap joint (parts-word d (c ∷ w) (d ∷ s) h.1)
    ∙ ap (λ (q : List ℕ × List (List ℕ)). (c ∷ (w ++ q.0)) ∷ q.1) {y = ([], tokens d s)}
        (parts_sep d s)
    ∙ ap (λ t. (c ∷ t) ∷ tokens d s) (append-nil w)

pub tokens_sep : (d : ℕ) (s : List ℕ) → tokens d (d ∷ s) ≡ tokens d s
tokens_sep d s = tokens-parts d (d ∷ s) ∙ ap joint (parts_sep d s)

pub tokens_one : (d : ℕ) (w : List ℕ) → IsToken d w → tokens d w ≡ w ∷ []
tokens_one d [] h = absurd (h.0 refl)
tokens_one d (c ∷ w) h =
    ap (tokens d) (sym (append-nil (c ∷ w)))
    ∙ tokens-parts d (c ∷ (w ++ []))
    ∙ ap joint (parts-word d (c ∷ w) [] h.1)
    ∙ ap (λ (q : List ℕ × List (List ℕ)). (c ∷ (w ++ q.0)) ∷ q.1) {y = ([], [])} (parts_nil d)
    ∙ ap (λ t. (c ∷ t) ∷ []) (append-nil w)

-- The tokens of texts with one delimiter between two are those texts.
pub tokens-joined_by :
    (d : ℕ) (w : List ℕ) (ws : List (List ℕ))
    → All (IsToken d) (w ∷ ws)
    → tokens d (joined_by d (w ∷ ws)) ≡ w ∷ ws
unfolding joined_by
tokens-joined_by d w [] h = tokens_one d w h.0
tokens-joined_by d w (v ∷ ws) h =
    tokens-cons d w (joined_by d (v ∷ ws)) h.0 ∙ ap (λ t. w ∷ t) (tokens-joined_by d v ws h.1)

-- And so they are if more text follows behind a delimiter.
pub tokens-joined_more :
    (d : ℕ) (w : List ℕ) (ws : List (List ℕ)) (s : List ℕ)
    → All (IsToken d) (w ∷ ws)
    → tokens d (joined_by d (w ∷ ws) ++ (d ∷ s)) ≡ (w ∷ ws) ++ tokens d s
unfolding joined_by
tokens-joined_more d w [] s h = tokens-cons d w s h.0
tokens-joined_more d w (v ∷ ws) s h =
    ap (tokens d) (append_assoc w (d ∷ joined_by d (v ∷ ws)) (d ∷ s))
    ∙ tokens-cons d w (joined_by d (v ∷ ws) ++ (d ∷ s)) h.0
    ∙ ap (λ t. w ∷ t) (tokens-joined_more d v ws s h.1)

-- A text that the second byte of `p` is not in has no copy of `p`.
pub strstr-Lacks : (a b : ℕ) (p s : List ℕ) → Lacks b s → strstr s (a ∷ b ∷ p) ≡ none
unfolding strstr
strstr-Lacks a b p [] h = refl
strstr-Lacks a b p (c ∷ []) h = ground arith
strstr-Lacks a b p (c ∷ d ∷ s) h = ground (arith, h.1.0, strstr-Lacks a b p (d ∷ s) h.1)

starts_self : (p rest : List ℕ) → starts p (p ++ rest) ≡ true
unfolding starts
starts_self [] rest = refl
starts_self (x ∷ p) rest = ground (arith, starts_self p rest)

-- The first copy of `p` stands behind a text that its second byte is not in, if that is not its
-- first byte.
pub strstr_first :
    (a b : ℕ) (p front rest : List ℕ)
    → a ≢ b
    → Lacks b front
    → strstr (front ++ (a ∷ b ∷ (p ++ rest))) (a ∷ b ∷ p) ≡ some (length front)
unfolding strstr
strstr_first a b p [] rest ne h = ground (arith, starts_self p rest)
strstr_first a b p (c ∷ []) rest ne h = ground (arith, strstr_first a b p [] rest ne tt)
strstr_first a b p (c ∷ d ∷ front) rest ne h =
    ground (arith, h.1.0, strstr_first a b p (d ∷ front) rest ne h.1)

pub strstr_miss :
    (c : ℕ) (s p : List ℕ) → starts p (c ∷ s) ≡ false → strstr s p ≡ none → strstr (c ∷ s) p ≡ none
unfolding strstr
strstr_miss c s p h k = rw (h, k) refl

pub starts_first : (a c : ℕ) (p s : List ℕ) → c ≢ a → starts (a ∷ p) (c ∷ s) ≡ false
unfolding starts
starts_first a c p s ne = ground arith

pub starts_second : (a b c d : ℕ) (p s : List ℕ) → d ≢ b → starts (a ∷ b ∷ p) (c ∷ d ∷ s) ≡ false
unfolding starts
starts_second a b c d p s ne = ground arith

pub joined_by-Lacks :
    (b d : ℕ) (ws : List (List ℕ)) → d ≢ b → All (Lacks b) ws → Lacks b (joined_by d ws)
unfolding joined_by
joined_by-Lacks b d [] ne h = tt
joined_by-Lacks b d (w ∷ []) ne h = h.0
joined_by-Lacks b d (w ∷ v ∷ ws) ne h =
    Lacks-append b w _ h.0 (ne, joined_by-Lacks b d (v ∷ ws) ne h.1)
