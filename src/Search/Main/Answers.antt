-- ===== src/Search/Main/Answers.antt =====
-- The program of pa1 from its input to its output: for queries of one word and of several words.
use systemprogramminglab.Prelude.{
  ℕ, ◌+◌, ◌≤◌, ◌≡◌, ◌≢◌, refl, ◌∙◌, Option-cases, inl, inr, Bool, true, false, none, some, List, [],
  ◌∷◌, ◌++◌, map, if◌then◌else◌, codes, length, length-append, leb, take_all, ap, All, Lacks, arith,
}
use systemprogramminglab.Search.Run.{Run, done, ◌>>=◌}
use systemprogramminglab.Search.Text.{stringcmp, to_lowercase}
use systemprogramminglab.Search.Text.Words.{find, isincluded-find}
use systemprogramminglab.Search.Index.Lines.{layout, text}
use systemprogramminglab.Search.Index.Whole.{IsShort, read_file_lem}
use systemprogramminglab.Search.Input.{exit, resolve_text, resolve_input}
use systemprogramminglab.Libc.Texts.{c_text}
use systemprogramminglab.Search.Input.Split.{joined, IsWord}
use systemprogramminglab.Search.Input.RoundTrip.{IsPlain, resolve_sword, resolve_mword}
use systemprogramminglab.Search.Query.{
  Output, print_hits, print_line, finish, handle, sword_line, mword_line, all_included,
}
use systemprogramminglab.Search.Query.Lines.{over_lines, handle-over_lines}
use systemprogramminglab.Search.Query.Sword.{places, sword_hits_lem}
use systemprogramminglab.Search.Main.{dispatch, main_loop, pieces, reads_of, program}

-- What a user may ask.
pub data Ask : Type 0 where
  for_word : List ℕ → Ask
  for_words : List ℕ → List ℕ → List (List ℕ) → Ask

-- The line that is typed.
abbrev pub typed : Ask → List ℕ
typed (for_word w) = w ++ (b'\n' ∷ [])
typed (for_words w v ws) = joined (w ∷ v ∷ ws) ++ (b'\n' ∷ [])

abbrev pub IsTyped : Ask → Type 0
IsTyped (for_word w) = (w ≢ []) × IsPlain w × Lacks b'*' w × Lacks b' ' w × (length w ≤ 4095)
IsTyped (for_words w v ws) =
    All IsWord (w ∷ v ∷ ws)
    × IsPlain (joined (w ∷ v ∷ ws))
    × Lacks b'*' (joined (w ∷ v ∷ ws))
    × (length (joined (w ∷ v ∷ ws)) ≤ 4095)

-- Whether each of the words is a word of the line.
unfoldable pub holds_all : List (List ℕ) → List ℕ → Bool
holds_all [] content = true
holds_all (w ∷ ws) content = elim (find w true content) [
  | none ↦ false
  | some _ ↦ holds_all ws content
]

-- What is written for a line, with its number.
unfoldable pub reply_line : Ask → List ℕ → ℕ → Output → Output
reply_line (for_word w) content n out = print_hits n (places w true content 0) out
reply_line (for_words w v ws) content n out =
    if holds_all (w ∷ v ∷ ws) content
    then record { flag = true; bytes = out.bytes ++ print_line n }
    else out

unfoldable pub reply_lines : Ask → List (List ℕ) → ℕ → Output → Output
reply_lines ask [] n out = out
reply_lines ask (l ∷ ls) n out = reply_lines ask ls (n + 1) (reply_line ask (to_lowercase l) n out)

-- The answer to a query on a file of those lines.
abbrev pub answer_to : Bool → List (List ℕ) → Ask → List ℕ
answer_to seekable ls ask =
    finish seekable (reply_lines ask ls 1 (record { flag = false; bytes = [] }))

unfoldable pub answers : Bool → List (List ℕ) → List Ask → List ℕ
answers seekable ls [] = []
answers seekable ls (ask ∷ asks) = answer_to seekable ls ask ++ answers seekable ls asks

over_lines-reply :
    (line : List ℕ → ℕ → Output → Run Output) (ask : Ask)
    → ((content : List ℕ) (n : ℕ) (out : Output)
        → line content n out ≡ done (reply_line ask content n out))
    → (ls : List (List ℕ)) (n : ℕ) (out : Output)
    → over_lines line ls n out ≡ done (reply_lines ask ls n out)
unfolding over_lines reply_lines
over_lines-reply line ask each [] n out = refl
over_lines-reply line ask each (l ∷ ls) n out =
    rw (each (to_lowercase l) n out)
      (over_lines-reply line ask each ls (n + 1) (reply_line ask (to_lowercase l) n out))

sword_line-reply :
    (w : List ℕ)
    → w ≢ []
    → (content : List ℕ) (n : ℕ) (out : Output)
    → sword_line w content n out ≡ done (reply_line (for_word w) content n out)
unfolding sword_line reply_line
sword_line-reply w ne content n out = rw (sword_hits_lem w content ne) refl

all_included-holds_all :
    (ws : List (List ℕ)) (content : List ℕ)
    → All IsWord ws
    → all_included ws content ≡ done (holds_all ws content)
unfolding all_included holds_all
all_included-holds_all [] content h = refl
all_included-holds_all ([] ∷ ws) content h = absurd (h.0.0 refl)
all_included-holds_all ((x ∷ w) ∷ ws) content h = elim (Option-cases (find (x ∷ w) true content)) [
  | inl e ↦ rw (all_included, holds_all, isincluded-find x w content, e) refl
  | inr (o, e) ↦
      rw (all_included, holds_all, isincluded-find x w content, e)
        (all_included-holds_all ws content h.1)
]

mword_line-reply :
    (w v : List ℕ) (ws : List (List ℕ))
    → All IsWord (w ∷ v ∷ ws)
    → (content : List ℕ) (n : ℕ) (out : Output)
    → mword_line (w ∷ v ∷ ws) content n out ≡ done (reply_line (for_words w v ws) content n out)
unfolding mword_line reply_line
mword_line-reply w v ws h content n out = rw (all_included-holds_all (w ∷ v ∷ ws) content h) refl

resolve_exit : resolve_input (codes "PA1EXIT\n") ≡ done (exit, [])
unfolding resolve_input resolve_text c_text stringcmp
resolve_exit = refl

module _ (seekable : Bool) (l : List ℕ) (ls : List (List ℕ)) (tail : List ℕ)
    (h : All (Lacks 0) (l ∷ ls)) where
  handle-answer_to :
      (line : List ℕ → ℕ → Output → Run Output) (ask : Ask)
      → ((content : List ℕ) (n : ℕ) (out : Output)
          → line content n out ≡ done (reply_line ask content n out))
      → handle line seekable (text (l ∷ ls) tail) (layout 0 0 (l ∷ ls))
        ≡ done (answer_to seekable (l ∷ ls) ask)
  handle-answer_to line ask each =
      rw
        (
          handle-over_lines line seekable l ls tail h,
          over_lines-reply line ask each (l ∷ ls) 1 (record { flag = false; bytes = [] }),
        )
        refl

  main_loop-ask :
      (ask : Ask) (inputs : List (List ℕ))
      → IsTyped ask
      → main_loop seekable (text (l ∷ ls) tail) (layout 0 0 (l ∷ ls)) (typed ask ∷ inputs) ≡ (do
        rest ← main_loop seekable (text (l ∷ ls) tail) (layout 0 0 (l ∷ ls)) inputs
        done (answer_to seekable (l ∷ ls) ask ++ rest))
  unfolding main_loop dispatch
  main_loop-ask (for_word w) inputs (ne, plain, star, space, short) =
      rw
        (
          resolve_sword w plain star space short,
          handle-answer_to (sword_line w) (for_word w) (sword_line-reply w ne),
        )
        refl
  main_loop-ask (for_words w v ws) inputs (words, plain, star, short) =
      rw
        (
          resolve_mword w v ws words plain star short,
          handle-answer_to (mword_line (w ∷ v ∷ ws)) (for_words w v ws)
              (mword_line-reply w v ws words),
        )
        refl

  main_loop-answers :
      (asks : List Ask)
      → All IsTyped asks
      → main_loop seekable
          (text (l ∷ ls) tail)
          (layout 0 0 (l ∷ ls))
          (map typed asks ++ (codes "PA1EXIT\n" ∷ []))
        ≡ done (answers seekable (l ∷ ls) asks)
  unfolding answers main_loop
  main_loop-answers [] all = rw resolve_exit refl
  main_loop-answers (ask ∷ asks) all =
      main_loop-ask ask (map typed asks ++ (codes "PA1EXIT\n" ∷ [])) all.0
      ∙ rw (main_loop-answers asks all.1) refl

-- A line that one read takes.
delivered_one :
    (line : List ℕ) (more : List (List ℕ))
    → length line ≤ 4096
    → reads_of (line ∷ more) ≡ line ∷ reads_of more
unfolding reads_of pieces
delivered_one line more h =
    let fits : leb (length line) 4096 ≡ true = ground arith in rw (fits, take_all 4096 line h) refl

typed-short : (ask : Ask) → IsTyped ask → length (typed ask) ≤ 4096
typed-short (for_word w) h = omega (arith, length-append w (b'\n' ∷ []), h.4)
typed-short (for_words w v ws) h =
    omega (arith, length-append (joined (w ∷ v ∷ ws)) (b'\n' ∷ []), h.3)

reads_of-typed :
    (asks : List Ask)
    → All IsTyped asks
    → reads_of (map typed asks ++ (codes "PA1EXIT\n" ∷ []))
      ≡ map typed asks ++ (codes "PA1EXIT\n" ∷ [])
unfolding reads_of pieces
reads_of-typed [] h = refl
reads_of-typed (ask ∷ asks) h =
    delivered_one (typed ask) (map typed asks ++ (codes "PA1EXIT\n" ∷ [])) (typed-short ask h.0)
    ∙ ap (λ t. typed ask ∷ t) (reads_of-typed asks h.1)

-- The whole program, on a file of at least one line, whose lines have fewer than 4096 bytes and no
-- NUL, with fewer than 4096 bytes behind the last newline, and with a round of fuel for each line
-- and two more. It is asked for words and for sets of words, none empty, with no NUL, no asterisk
-- and no quote in front, each on a line of at most 4096 bytes, and then to exit. It ends without an
-- invalid access. The words are compared as they are typed, with the lines whose letters have been
-- put in lower case. For a word it writes the number of every line and the places in it where that
-- word stands; for a set of words it writes the number of every line that has them all; then comes
-- a newline.
pub program-answers :
    (fuel : ℕ) (seekable : Bool) (l : List ℕ) (ls : List (List ℕ)) (tail : List ℕ) (asks : List Ask)
    → All (Lacks b'\n') (l ∷ ls)
    → All (Lacks 0) (l ∷ ls)
    → All IsShort (l ∷ ls)
    → Lacks b'\n' tail
    → IsShort tail
    → length (l ∷ ls) + 2 ≤ fuel
    → All IsTyped asks
    → program fuel seekable (text (l ∷ ls) tail) (map typed asks ++ (codes "PA1EXIT\n" ∷ []))
      ≡ done (answers seekable (l ∷ ls) asks)
unfolding program
program-answers fuel seekable l ls tail asks newlines nuls short last few enough all =
    let (r, e, f) = read_file_lem fuel (l ∷ ls) tail newlines last short few enough in
    rw (e, f, reads_of-typed asks all) (main_loop-answers seekable l ls tail nuls asks all)
