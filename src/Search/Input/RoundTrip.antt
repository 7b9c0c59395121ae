-- ===== src/Search/Input/RoundTrip.antt =====
-- Every query that a user can type for pa1/main.c is resolved to its kind and its words.
use systemprogramminglab.Prelude.{
  ℕ, ◌≤◌, take_all, suc, ◌-◌, ◌≡◌, ◌≢◌, refl, ◌∙◌, ap, false, none, some, List, [], ◌∷◌, ◌++◌,
  arith, codes, length, length-append, take, drop, drop_last, drop_last-append, All, Lacks,
}
use systemprogramminglab.Search.Text.{deref, stringcmp, issubstring}
use systemprogramminglab.Libc.Texts.{c_text, c_text_whole}
use systemprogramminglab.Search.Run.{done}
use systemprogramminglab.Search.Input.{
  sword, mword, cword, regexp, split_words, quoted, resolve_text, resolve_input,
}
use systemprogramminglab.Search.Input.Split.{joined, IsWord, take_front, split-joined}

find_char_none : (ch : ℕ) (t : List ℕ) → Lacks ch t → issubstring (ch ∷ []) t ≡ none
unfolding issubstring
find_char_none ch [] h = refl
find_char_none ch (c ∷ t) h = ground (arith, find_char_none ch t)

find_char :
    (ch : ℕ) (front back : List ℕ)
    → Lacks ch front
    → issubstring (ch ∷ []) (front ++ (ch ∷ back)) ≡ some (length front)
unfolding issubstring
find_char ch [] back h = ground arith
find_char ch (c ∷ front) back h = ground (arith, find_char ch front back)

-- The bytes of a line of at most 4096 bytes, its newline included, come down to the text of the
-- line.
resolve_line :
    (t : List ℕ) → Lacks 0 t → length t ≤ 4095 → resolve_input (t ++ (b'\n' ∷ [])) ≡ resolve_text t
resolve_line [] h short = unfold resolve_input in refl
resolve_line (c ∷ t) h short =
    unfold resolve_input in
    ap (λ s. resolve_text (c_text (drop_last s)))
      (take_all 4096 (c ∷ t ++ (b'\n' ∷ [])) (omega (arith, length-append (c ∷ t) (b'\n' ∷ []))))
    ∙ ap resolve_text (ap c_text (drop_last-append (c ∷ t) b'\n') ∙ c_text_whole (c ∷ t) h)

-- A text that is none of the special inputs.
abbrev pub IsPlain : List ℕ → Type 0
IsPlain t = (stringcmp (codes "PA1EXIT") t ≡ false) × (deref t ≢ b'"') × Lacks 0 t

-- A line of at most 4096 bytes with one word is a query for that word.
pub resolve_sword :
    (w : List ℕ)
    → IsPlain w
    → Lacks b'*' w
    → Lacks b' ' w
    → length w ≤ 4095
    → resolve_input (w ++ (b'\n' ∷ [])) ≡ done (sword, w ∷ [])
resolve_sword w plain star space short = resolve_line w plain.2 short ∙ go
  where
    go : resolve_text w ≡ done (sword, w ∷ [])
    go =
        unfold resolve_text in
        ground (arith, find_char_none b'*' w star, find_char_none b' ' w space)

many :
    (t : List ℕ) {words : List (List ℕ)}
    → IsPlain t
    → Lacks b'*' t
    → (o : ℕ) → issubstring (codes " ") t ≡ some o
    → split_words (suc (length t)) t ≡ done words
    → resolve_text t ≡ done (mword, words)
unfolding resolve_text
many t plain star o spaced split = ground (arith, find_char_none b'*' t star)

-- A line of several words, of at most 4096 bytes, with one space between two, is a query for all of them.
pub resolve_mword :
    (w v : List ℕ) (ws : List (List ℕ))
    → All IsWord (w ∷ v ∷ ws)
    → IsPlain (joined (w ∷ v ∷ ws))
    → Lacks b'*' (joined (w ∷ v ∷ ws))
    → length (joined (w ∷ v ∷ ws)) ≤ 4095
    → resolve_input (joined (w ∷ v ∷ ws) ++ (b'\n' ∷ [])) ≡ done (mword, w ∷ v ∷ ws)
resolve_mword w v ws words plain star short =
    resolve_line (joined (w ∷ v ∷ ws)) plain.2 short
    ∙ many (joined (w ∷ v ∷ ws)) plain star (length w) spaced
        (split-joined (suc (length (joined (w ∷ v ∷ ws)))) w (v ∷ ws) words (omega arith))
  where
    spaced : issubstring (codes " ") (joined (w ∷ v ∷ ws)) ≡ some (length w)
    spaced = unfold joined in find_char b' ' w (joined (v ∷ ws)) words.0.1

Lacks-append : (b : ℕ) (s t : List ℕ) → Lacks b s → Lacks b t → Lacks b (s ++ t)
Lacks-append b [] t h k = k
Lacks-append b (c ∷ s) t h k = (h.0, Lacks-append b s t h.1 k)

drop_past : (w : List ℕ) (c : ℕ) (rest : List ℕ) → drop (suc (length w)) (w ++ (c ∷ rest)) ≡ rest
drop_past [] c rest = refl
drop_past (x ∷ w) c rest = drop_past w c rest

take_inner : (p : List ℕ) (n : ℕ) → n ≡ length p → take n (p ++ (b'"' ∷ [])) ≡ p
take_inner p n e = ap (λ k. take k (p ++ (b'"' ∷ []))) e ∙ take_front p (b'"' ∷ [])

quoted_text : (p : List ℕ) → resolve_text (b'"' ∷ (p ++ (b'"' ∷ []))) ≡ done (cword, p ∷ [])
unfolding resolve_text quoted stringcmp
quoted_text p =
    ground (arith, length-append p (b'"' ∷ []), take_inner p (suc (length (p ++ (b'"' ∷ []))) - 2))

-- A text in double quotes, on a line of at most 4096 bytes, is a query for that run of words.
pub resolve_cword :
    (p : List ℕ)
    → Lacks 0 p
    → length p ≤ 4093
    → resolve_input ((b'"' ∷ (p ++ (b'"' ∷ []))) ++ (b'\n' ∷ [])) ≡ done (cword, p ∷ [])
resolve_cword p h short =
    resolve_line (b'"' ∷ (p ++ (b'"' ∷ [])))
      ((omega arith), Lacks-append 0 p (b'"' ∷ []) h (omega arith))
      (omega (arith, length-append p (b'"' ∷ [])))
    ∙ quoted_text p

-- Two texts with an asterisk between them, on a line of at most 4096 bytes, are a query for a line in which one follows the other.
pub resolve_regexp :
    (p q : List ℕ)
    → IsPlain (p ++ (b'*' ∷ q))
    → Lacks b'*' p
    → length (p ++ (b'*' ∷ q)) ≤ 4095
    → resolve_input ((p ++ (b'*' ∷ q)) ++ (b'\n' ∷ [])) ≡ done (regexp, p ∷ q ∷ [])
resolve_regexp p q plain star short = resolve_line (p ++ (b'*' ∷ q)) plain.2 short ∙ go
  where
    go : resolve_text (p ++ (b'*' ∷ q)) ≡ done (regexp, p ∷ q ∷ [])
    go =
        unfold resolve_text in
        ground (arith, find_char b'*' p q star, take_front p (b'*' ∷ q), drop_past p b'*' q)
