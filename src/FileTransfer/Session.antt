-- ===== src/FileTransfer/Session.antt =====
-- The client and the server of week11 together.
use systemprogramminglab.Prelude.{
  ℕ, zero, suc, ◌≡◌, ◌≢◌, ◌<◌, refl, ◌∙◌, sym, ap, Option, none, some, List, [], ◌∷◌, ◌++◌,
  append_assoc, append-nil, lt→ltb, if◌then◌else◌, ◌>>=◌, length, length-append, ◌+◌, take, codes,
  All, Lacks, arith, Bool-cases, Option-cases, inl, inr,
}
use systemprogramminglab.Libc.Texts.{c_text, c_text_whole, c_text_stop, same}
use systemprogramminglab.FileTransfer.{
  maxfilename, maxfiledata, Message, file_name, contents, client, Copy, naming, receiving, serve,
}
use systemprogramminglab.FileTransfer.Delivery.{
  flat, Delivered, finished, named, cut, serve_pieces, serve_last,
}

-- A name that fits, and is a text.
abbrev pub IsFileName : List ℕ → Type 0
IsFileName name = (name ≢ []) × (Lacks 0 name × (length name < maxfilename))

-- The messages in turn: a name, and then the bytes of a file without NUL, unless the name is the
-- last message.
abbrev IsTalk : List Message → Type 0
IsTalk [] = Unit
IsTalk (contents bytes ∷ ms) = ⊥
IsTalk (file_name name ∷ []) = IsFileName name
IsTalk (file_name name ∷ file_name other ∷ ms) = ⊥
IsTalk (file_name name ∷ contents bytes ∷ ms) = IsFileName name × (Lacks 0 bytes × IsTalk ms)

abbrev pub saved_as : List ℕ → List ℕ → Copy
saved_as name bytes = record { name = name ++ codes "_copy"; bytes = bytes }

abbrev saved : List Message → List Copy
saved [] = []
saved (contents bytes ∷ ms) = []
saved (file_name name ∷ []) = saved_as name [] ∷ []
saved (file_name name ∷ file_name other ∷ ms) = []
saved (file_name name ∷ contents bytes ∷ ms) = saved_as name bytes ∷ saved ms

serve_name :
    (name : List ℕ) (cs : List (List ℕ))
    → IsFileName name
    → serve naming (name ∷ cs) ≡ serve (receiving (name ++ codes "_copy") []) cs
unfolding serve
serve_name [] cs h = absurd (h.0 refl)
serve_name (c ∷ name) cs h =
    rw (lt→ltb (length (c ∷ name)) maxfilename h.1.1, c_text_whole (c ∷ name) h.1.0) refl

serve_end :
    (name : List ℕ) → serve (receiving name []) [] ≡ some (record { name = name; bytes = [] } ∷ [])
unfolding serve
serve_end name = refl

serve_nothing : serve naming [] ≡ some []
unfolding serve
serve_nothing = refl

serve-saved :
    (ms : List Message) (cs : List (List ℕ))
    → Delivered ms cs
    → IsTalk ms
    → serve naming cs ≡ some (saved ms)
serve-saved _ _ finished h = serve_nothing
serve-saved _ _ (cut bytes xs ms cs e f d) h = absurd h
serve-saved _ _ (named name _ _ finished) h =
    serve_name name [] h ∙ serve_end (name ++ codes "_copy")
serve-saved _ _ (named name _ _ (named other ms cs d)) h = absurd h
serve-saved _ _ (named name _ _ (cut bytes xs ms cs e f d)) h =
    serve_name name (xs ++ cs) h.0
    ∙ serve_pieces xs (name ++ codes "_copy") [] bytes cs e f h.1.0
    ∙ ap (λ t. t >>= λ rest. some (saved_as name bytes ∷ rest)) (serve-saved ms cs d h.1.1)

-- The copies that there should be: of every file up to `quit` or a name of no file, with as many
-- bytes as fit in the buffer of the client; a name of no file leaves an empty one.
abbrev copy_of : List ℕ → Option (List ℕ) → List Copy → List Copy
copy_of name none rest = saved_as name [] ∷ []
copy_of name (some bytes) rest = saved_as name (take maxfiledata bytes) ∷ rest

unfoldable pub copies : (List ℕ → Option (List ℕ)) → List (List ℕ) → List Copy
copies files [] = []
copies files (name ∷ names) =
    let rest = copies files names in
    if same name (codes "quit") then [] else copy_of name (files name) rest

take-Lacks : (n b : ℕ) (s : List ℕ) → Lacks b s → Lacks b (take n s)
take-Lacks zero b s h = tt
take-Lacks (suc n) b [] h = tt
take-Lacks (suc n) b (c ∷ s) h = (h.0, take-Lacks n b s h.1)

abbrev Talks : (List ℕ → Option (List ℕ)) → List (List ℕ) → Type 0
Talks files names =
    (ms : List Message) × (client files names ≡ some ms)
    × IsTalk ms
    × (saved ms ≡ copies files names)

talk_step :
    (files : List ℕ → Option (List ℕ)) (name : List ℕ) (names : List (List ℕ))
    → IsFileName name
    → ((bytes : List ℕ) → files name ≡ some bytes → Lacks 0 bytes)
    → Talks files names
    → Talks files (name ∷ names)
unfolding client copies
talk_step files name names h k (ms, e, t, s) = elim (Bool-cases (same name (codes "quit"))) [
  | inl q ↦ ([], rw (q, lt→ltb (length name) maxfilename h.1.1) refl, tt, rw (q) refl)
  | inr q ↦ elim (Option-cases (files name)) [
    | inl n ↦ (
      file_name name ∷ [],
      rw (q, lt→ltb (length name) maxfilename h.1.1, e, n) refl,
      h,
      rw (q, n) refl,
    )
    | inr (bytes, f) ↦ (
      file_name name ∷ contents (take maxfiledata bytes) ∷ ms,
      rw (q, lt→ltb (length name) maxfilename h.1.1, e, f) refl,
      (h, (take-Lacks maxfiledata 0 bytes (k bytes f), t)),
      rw (q, f, s) refl,
    )
  ]
]

talks :
    (files : List ℕ → Option (List ℕ)) (names : List (List ℕ))
    → All IsFileName names
    → ((name bytes : List ℕ) → files name ≡ some bytes → Lacks 0 bytes)
    → Talks files names
unfolding client copies
talks files [] h k = ([], refl, tt, refl)
talks files (name ∷ names) h k = talk_step files name names h.0 (k name) (talks files names h.1 k)

-- For names of 1 to 49 bytes and files without NUL, the client stays inside its array; and however
-- the bytes of a file and the NUL behind them are cut into pieces, if each name arrives in one piece
-- by itself, the server stays inside its arrays, ends when the client has, and has the copies of the
-- files up to `quit` or the name of no file, each with its first 200000 bytes.
pub serve-client :
    (files : List ℕ → Option (List ℕ)) (names : List (List ℕ))
    → All IsFileName names
    → ((name bytes : List ℕ) → files name ≡ some bytes → Lacks 0 bytes)
    → (ms : List Message) × (client files names ≡ some ms)
      × ((cs : List (List ℕ)) → Delivered ms cs → serve naming cs ≡ some (copies files names))
serve-client files names h k =
    let (ms, e, t, s) = talks files names h k in (ms, e, λ cs d. serve-saved ms cs d t ∙ ap some s)

ends_ne : (s : List ℕ) → s ++ (0 ∷ []) ≢ []
ends_ne [] = cc
ends_ne (c ∷ s) = cc

serve_nul_name :
    (b : List ℕ) (cs : List (List ℕ))
    → Lacks 0 b
    → length b + 1 < maxfilename
    → serve naming ((b ++ (0 ∷ [])) ∷ cs) ≡ serve (receiving (b ++ codes "_copy") []) cs
unfolding serve c_text
serve_nul_name [] cs h l = refl
serve_nul_name (c ∷ b) cs h l =
    rw
      (
        c_text_stop (c ∷ b) [] h,
        lt→ltb (length ((c ∷ b) ++ (0 ∷ []))) maxfilename (omega (arith, length-append b (0 ∷ []))),
      )
      refl

-- If the bytes of a file have a NUL and a piece ends with it, the copy ends there, and the bytes
-- behind it are taken for the name of another file, if they are fewer than 49 and have no NUL.
pub serve_nul :
    (name a b : List ℕ)
    → IsFileName name
    → Lacks 0 b
    → length b + 1 < maxfilename
    → Delivered
        (file_name name ∷ contents (a ++ (0 ∷ b)) ∷ [])
        (name ∷ (a ++ (0 ∷ [])) ∷ (b ++ (0 ∷ [])) ∷ [])
      × (serve naming (name ∷ (a ++ (0 ∷ [])) ∷ (b ++ (0 ∷ [])) ∷ [])
          ≡ some (saved_as name a ∷ saved_as b [] ∷ []))
unfolding flat
serve_nul name a b h k l = (
  named name _ _ (
      cut (a ++ (0 ∷ b)) ((a ++ (0 ∷ [])) ∷ (b ++ (0 ∷ [])) ∷ []) [] [] (ends_ne a, (ends_ne b, tt))
        (append_assoc a (0 ∷ []) ((b ++ (0 ∷ [])) ++ [])
          ∙ ap (λ t. a ++ (0 ∷ t)) (append-nil (b ++ (0 ∷ [])))
          ∙ sym (append_assoc a (0 ∷ b) (0 ∷ [])))
        finished),
  serve_name name _ h
      ∙ serve_last (name ++ codes "_copy") [] a _
      ∙ ap (λ t. t >>= λ rest. some (saved_as name a ∷ rest))
          (serve_nul_name b [] k l ∙ serve_end (b ++ codes "_copy")),
)
