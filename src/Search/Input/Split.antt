-- ===== src/Search/Input/Split.antt =====
-- The words of a query of pa1/main.c, split at its spaces.
use systemprogramminglab.Prelude.{
  ℕ, zero, suc, ◌+◌, ◌<◌, ◌≡◌, ◌≢◌, refl, ◌∙◌, ap, List, [], ◌∷◌, ◌++◌, arith, length,
  length-append, take, drop, All, Lacks,
}
use systemprogramminglab.Search.Run.{done}
use systemprogramminglab.Search.Input.{span_length, split_words}

-- Words with a space between two.
unfoldable pub joined : List (List ℕ) → List ℕ
joined [] = []
joined (w ∷ []) = w
joined (w ∷ v ∷ ws) = w ++ (b' ' ∷ joined (v ∷ ws))

span-word : (w rest : List ℕ) → Lacks b' ' w → span_length (w ++ (b' ' ∷ rest)) ≡ length w
unfolding span_length
span-word [] rest h = refl
span-word (c ∷ w) rest h = ground (arith, span-word w rest)

span-last : (w : List ℕ) → Lacks b' ' w → span_length w ≡ length w
unfolding span_length
span-last [] h = refl
span-last (c ∷ w) h = ground (arith, span-last w)

pub take_front : (w rest : List ℕ) → take (length w) (w ++ rest) ≡ w
take_front [] rest = refl
take_front (c ∷ w) rest = ap (λ t. c ∷ t) (take_front w rest)

drop_front : (w rest : List ℕ) → drop (length w) (w ++ rest) ≡ rest
drop_front [] rest = refl
drop_front (c ∷ w) rest = drop_front w rest

take_whole : (w : List ℕ) → take (length w) w ≡ w
take_whole [] = refl
take_whole (c ∷ w) = ap (λ t. c ∷ t) (take_whole w)

drop_whole : (w : List ℕ) → drop (length w) w ≡ []
drop_whole [] = refl
drop_whole (c ∷ w) = drop_whole w

abbrev pub IsWord : List ℕ → Type 0
IsWord w = (w ≢ []) × Lacks b' ' w

step_last :
    (fuel c : ℕ) (s : List ℕ)
    → drop (span_length (c ∷ s)) (c ∷ s) ≡ []
    → split_words (suc fuel) (c ∷ s) ≡ done (take (span_length (c ∷ s)) (c ∷ s) ∷ [])
unfolding split_words
step_last fuel c s e = ground arith

step_more :
    (fuel c : ℕ) (s : List ℕ) {x : ℕ} {rest : List ℕ} {words : List (List ℕ)}
    → drop (span_length (c ∷ s)) (c ∷ s) ≡ x ∷ rest
    → split_words fuel rest ≡ done words
    → split_words (suc fuel) (c ∷ s) ≡ done (take (span_length (c ∷ s)) (c ∷ s) ∷ words)
unfolding split_words
step_more fuel c s e h = ground arith

split_last : (fuel : ℕ) (w : List ℕ) → IsWord w → split_words (suc fuel) w ≡ done (w ∷ [])
split_last fuel [] h = absurd (h.0 refl)
split_last fuel (c ∷ w) h =
    step_last fuel c w (ap (λ n. drop n (c ∷ w)) (span-last (c ∷ w) h.1) ∙ drop_whole (c ∷ w))
    ∙ ap (λ t. done (t ∷ []))
        (ap (λ n. take n (c ∷ w)) (span-last (c ∷ w) h.1) ∙ take_whole (c ∷ w))

split_more :
    (fuel : ℕ) (w rest : List ℕ) {words : List (List ℕ)}
    → IsWord w
    → split_words fuel rest ≡ done words
    → split_words (suc fuel) (w ++ (b' ' ∷ rest)) ≡ done (w ∷ words)
split_more fuel [] rest h e = absurd (h.0 refl)
split_more fuel (c ∷ w) rest {words} h e =
    let t : List ℕ = w ++ (b' ' ∷ rest) in
    step_more fuel c t
      (ap (λ n. drop n (c ∷ t)) (span-word (c ∷ w) rest h.1) ∙ drop_front (c ∷ w) (b' ' ∷ rest)) e
    ∙ ap (λ k. done (k ∷ words))
        (ap (λ n. take n (c ∷ t)) (span-word (c ∷ w) rest h.1) ∙ take_front (c ∷ w) (b' ' ∷ rest))

length-joined_cons :
    (w v : List ℕ) (ws : List (List ℕ))
    → length (joined (w ∷ v ∷ ws)) ≡ length w + 1 + length (joined (v ∷ ws))
unfolding joined
length-joined_cons w v ws = omega (arith, length-append w (b' ' ∷ joined (v ∷ ws)))

-- The loop takes apart what spaces hold together, with a round for each byte and one more.
pub split-joined :
    (fuel : ℕ) (w : List ℕ) (ws : List (List ℕ))
    → All IsWord (w ∷ ws)
    → length (joined (w ∷ ws)) < fuel
    → split_words fuel (joined (w ∷ ws)) ≡ done (w ∷ ws)
unfolding joined
split-joined zero w ws h k = elim k [ ]
split-joined (suc fuel) w [] h k = split_last fuel w h.0
split-joined (suc fuel) w (v ∷ ws) h k =
    split_more fuel w (joined (v ∷ ws)) h.0
      (split-joined fuel v ws h.1 (omega (arith, length-joined_cons w v ws)))
