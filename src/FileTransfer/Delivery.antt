-- ===== src/FileTransfer/Delivery.antt =====
-- What arrives is what was file_messages, however it is cut into pieces.
use systemprogramminglab.Prelude.{
  ℕ, ◌≡◌, ◌≢◌, refl, ◌∙◌, sym, ap, subst, true, false, some, List, [], ◌∷◌, ◌++◌, append_assoc,
  append-nil, ◌>>=◌, drop_last-append, All, Lacks, arith,
}
use systemprogramminglab.FileTransfer.{
  Message, file_name, contents, naming, receiving, ends_in_nul, serve,
}

-- The bytes of some pieces.
unfoldable pub flat : List (List ℕ) → List ℕ
flat [] = []
flat (x ∷ xs) = x ++ flat xs

-- A name arrives in one piece, the bytes of a file and the NUL in pieces of any sizes but 0.
pub data Delivered : List Message → List (List ℕ) → Type 0 where
  finished : Delivered [] []
  named :
      (name : List ℕ) (ms : List Message) (cs : List (List ℕ))
      → Delivered ms cs
      → Delivered (file_name name ∷ ms) (name ∷ cs)
  cut :
      (bytes : List ℕ) (xs : List (List ℕ)) (ms : List Message) (cs : List (List ℕ))
      → All (λ x. x ≢ []) xs
      → flat xs ≡ bytes ++ (0 ∷ [])
      → Delivered ms cs
      → Delivered (contents bytes ∷ ms) (xs ++ cs)

tail_of : List ℕ → List ℕ
tail_of [] = []
tail_of (x ∷ xs) = xs

cons_tail : (a b : ℕ) (s t : List ℕ) → a ∷ s ≡ b ∷ t → s ≡ t
unfolding tail_of
cons_tail a b s t e = ap tail_of e

no_cons {ℓ} : {A : Type ℓ} {a : A} {s : List A} → a ∷ s ≢ []
no_cons = cc

cons_again :
    (a b : ℕ) (x more bytes s t : List ℕ)
    → a ∷ s ≡ b ∷ t
    → bytes ≡ x ++ more
    → b ∷ bytes ≡ a ∷ (x ++ more)
cons_again a b x more bytes s t e p = cc

rest_empty : (x r : List ℕ) → x ++ r ≡ [] → r ≡ []
rest_empty [] r e = e
rest_empty (a ∷ x) r e = absurd (no_cons e)

-- A first piece that is not the last ends in front of the NUL.
split :
    (x r bytes : List ℕ)
    → x ++ r ≡ bytes ++ (0 ∷ [])
    → r ≢ []
    → (more : List ℕ) × (bytes ≡ x ++ more) × (r ≡ more ++ (0 ∷ []))
split [] r bytes e ne = (bytes, refl, e)
split (a ∷ x) r [] e ne = absurd (ne (rest_empty x r (cons_tail a 0 (x ++ r) [] e)))
split (a ∷ x) r (b ∷ bytes) e ne =
    let (more, p, q) = split x r bytes (cons_tail a b (x ++ r) (bytes ++ (0 ∷ [])) e) ne in
    (more, cons_again a b x more bytes (x ++ r) (bytes ++ (0 ∷ [])) e p, q)

ends_plain : (c : ℕ) (x : List ℕ) → Lacks 0 (c ∷ x) → ends_in_nul (c ∷ x) ≡ false
ends_plain c [] h = ground (arith, h.0)
ends_plain c (d ∷ x) h = ends_plain d x h.1

ends_nul : (bytes : List ℕ) → ends_in_nul (bytes ++ (0 ∷ [])) ≡ true
ends_nul [] = refl
ends_nul (c ∷ []) = refl
ends_nul (c ∷ d ∷ bytes) = ends_nul (d ∷ bytes)

prefix-Lacks : (b : ℕ) (x y : List ℕ) → Lacks b (x ++ y) → Lacks b x × Lacks b y
prefix-Lacks b [] y h = (tt, h)
prefix-Lacks b (c ∷ x) y h = let (p, q) = prefix-Lacks b x y h.1 in ((h.0, p), q)

flat_ne : (xs : List (List ℕ)) → All (λ x. x ≢ []) xs → xs ≢ [] → flat xs ≢ []
unfolding flat
flat_ne [] h ne = absurd (ne refl)
flat_ne ([] ∷ xs) h ne = absurd (h.0 refl)
flat_ne ((c ∷ x) ∷ xs) h ne = no_cons

pub serve_last :
    (name bytes x : List ℕ) (cs : List (List ℕ))
    → serve (receiving name bytes) ((x ++ (0 ∷ [])) ∷ cs)
      ≡ (do rest ← serve naming cs; some (record { name = name; bytes = bytes ++ x } ∷ rest))
unfolding serve
serve_last name bytes [] cs = refl
serve_last name bytes (c ∷ x) cs = rw (ends_nul (c ∷ x), drop_last-append (c ∷ x) 0) refl

serve_more :
    (name bytes x : List ℕ) (cs : List (List ℕ))
    → x ≢ []
    → Lacks 0 x
    → serve (receiving name bytes) (x ∷ cs) ≡ serve (receiving name (bytes ++ x)) cs
unfolding serve
serve_more name bytes [] cs ne h = absurd (ne refl)
serve_more name bytes (c ∷ x) cs ne h = rw (ends_plain c x h) refl

-- The pieces of the bytes of a file without NUL are put together.
pub serve_pieces :
    (xs : List (List ℕ)) (name done bytes : List ℕ) (cs : List (List ℕ))
    → All (λ x. x ≢ []) xs
    → flat xs ≡ bytes ++ (0 ∷ [])
    → Lacks 0 bytes
    → serve (receiving name done) (xs ++ cs)
      ≡ (do rest ← serve naming cs; some (record { name = name; bytes = done ++ bytes } ∷ rest))
unfolding flat
serve_pieces [] name done [] cs h e k = absurd (no_cons (sym e))
serve_pieces [] name done (b ∷ bytes) cs h e k = absurd (no_cons (sym e))
serve_pieces (x ∷ []) name done bytes cs h e k =
    ap (λ t. serve (receiving name done) (t ∷ cs)) (sym (append-nil x) ∙ e)
    ∙ serve_last name done bytes cs
serve_pieces (x ∷ y ∷ xs) name done bytes cs h e k =
    let (more, p, q) = split x (flat (y ∷ xs)) bytes e (flat_ne (y ∷ xs) h.1 no_cons) in
    let (px, pm) = prefix-Lacks 0 x more (subst (Lacks 0) p k) in
    serve_more name done x ((y ∷ xs) ++ cs) h.0 px
    ∙ serve_pieces (y ∷ xs) name (done ++ x) more cs h.1 q pm
    ∙ ap (λ t. serve naming cs >>= λ rest. some (record { name = name; bytes = t } ∷ rest))
        (append_assoc done x more ∙ ap (λ t. done ++ t) (sym p))
