-- ===== src/Search/Tests.antt =====
-- The theorems on pa1 at short texts.
use systemprogramminglab.Prelude.{
  ℕ, ◌≡◌, refl, true, Option, some, map, List, [], ◌∷◌, ◌++◌, arith, replicate, All, Lacks, codes,
  length, ◌≤◌,
}
use systemprogramminglab.Search.Text.{
  stringcmp, isincluded, isincluded_loop, word_length, next_word,
}
use systemprogramminglab.Search.Text.Substring.{IsLeast}
use systemprogramminglab.Search.Text.Words.{word_at, isincluded-IsLeast}
use systemprogramminglab.Search.Index.{Index, read_file}
use systemprogramminglab.Search.Index.Lines.{layout, text}
use systemprogramminglab.Search.Index.Whole.{read_file_lem}
use systemprogramminglab.Search.Run.{done}
use systemprogramminglab.Search.Input.Split.{joined}
use systemprogramminglab.Search.Input.RoundTrip.{IsPlain}
use systemprogramminglab.Search.Main.{program}
use systemprogramminglab.Search.Main.Answers.{
  Ask, for_word, for_words, IsTyped, typed, answers, program-answers,
}

abbrev ab : List ℕ
ab = b'a' ∷ b'b' ∷ []

abbrev cd : List ℕ
cd = b'c' ∷ b'd' ∷ []

abbrev line : List ℕ
line = ab ++ (b' ' ∷ cd)

abbrev ls : List (List ℕ)
ls = line ∷ ab ∷ []

isincluded-IsLeast_example :
    (r : Option ℕ) × (isincluded cd line ≡ some r) × IsLeast (word_at cd true line) r
isincluded-IsLeast_example = isincluded-IsLeast cd line (ground arith)

read_file_lem_example :
    (r : Index) × (read_file 9 (text ls cd) ≡ some r) × (r.entries ≡ layout 0 0 ls)
read_file_lem_example =
    read_file_lem 9 ls cd (ground arith) (ground arith) (ground arith) (omega arith) (omega arith)

abbrev long_line : List ℕ
long_line = replicate 4096 b'a'

IsPlain-ab : IsPlain ab
unfolding stringcmp
IsPlain-ab = ground arith

IsPlain-pair : IsPlain (joined (ab ∷ cd ∷ []))
unfolding stringcmp joined
IsPlain-pair = ground arith

ab_last : isincluded ab ab ≡ some (some 0)
unfolding isincluded isincluded_loop stringcmp word_length
ab_last = refl

ab_ends : next_word ab ≡ some 2
unfolding next_word
ab_ends = refl

abbrev asks : List Ask
asks = for_word ab ∷ for_words ab cd [] ∷ []

plain_letters : Lacks b'*' (joined (ab ∷ cd ∷ []))
unfolding joined
plain_letters = ground arith

pair_short : length (joined (ab ∷ cd ∷ [])) ≤ 4095
unfolding joined
pair_short = omega arith

asks-IsTyped : All IsTyped asks
asks-IsTyped = (
  (ground arith, IsPlain-ab, ground arith, ground arith, omega arith),
  ((ground arith, IsPlain-pair, plain_letters, pair_short), tt),
)

program-answers_example :
    program 9 true (text ls cd) (map typed asks ++ (codes "PA1EXIT\n" ∷ []))
    ≡ done (answers true ls asks)
program-answers_example =
    program-answers 9 true line (ab ∷ []) cd asks (ground arith) (ground arith) (ground arith)
      (ground arith) (omega arith) (omega arith) asks-IsTyped
