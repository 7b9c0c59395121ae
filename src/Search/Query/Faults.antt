-- ===== src/Search/Query/Faults.antt =====
-- Queries on which pa1/main.c reads through NULL or writes outside an array.
use systemprogramminglab.Prelude.{
  ℕ, ◌≤◌, ◌≡◌, refl, ◌∙◌, ap, Bool, some, List, [], ◌∷◌, arith, length, drop, Lacks,
}
use systemprogramminglab.Search.Text.{next_word, isincluded}
use systemprogramminglab.Search.Index.{Index, read_file}
use systemprogramminglab.Search.Index.Lines.{layout, unlines}
use systemprogramminglab.Search.Index.Whole.{IsShort, read_file_lem}
use systemprogramminglab.Search.Run.{Run, fault}
use systemprogramminglab.Search.Query.{Output, second_word, regexp_line, handle}
use systemprogramminglab.Search.Query.Lines.{handle_nil}

-- A file of fewer than 4096 bytes with no newline, such as the empty file that `open` creates for
-- a name that does not exist, has an empty index, on which every handler reads through NULL.
pub no_lines :
    (fuel : ℕ) (file : List ℕ) (line : List ℕ → ℕ → Output → Run Output) (seekable : Bool)
    → Lacks b'\n' file
    → IsShort file
    → 2 ≤ fuel
    → (r : Index) × (read_file fuel file ≡ some r) × (handle line seekable file r.entries ≡ fault)
unfolding layout unlines
no_lines fuel file line seekable h k f =
    let (r, e, entries) = read_file_lem fuel [] file tt h tt k (omega arith) in
    (r, e, ap (handle line seekable file) entries ∙ handle_nil line seekable file)

drop-length : (s : List ℕ) → drop (length s) s ≡ []
drop-length [] = refl
drop-length (c ∷ s) = drop-length s

second_word_fault :
    (word2 start : List ℕ) → next_word start ≡ some (length start) → second_word word2 start ≡ fault
unfolding second_word next_word
second_word_fault word2 start e = ground (arith, drop-length start)

-- If the first word of a REGEXP query is found at the last word of a line, with nothing but blanks
-- behind it, then `handle_regexp` reads through the NULL that `nextWord` returns.
pub regexp_last :
    (word1 word2 content : List ℕ) (line_num pos : ℕ) (out : Output)
    → isincluded word1 content ≡ some (some pos)
    → next_word (drop pos content) ≡ some (length (drop pos content))
    → regexp_line word1 word2 content line_num out ≡ fault
unfolding regexp_line
regexp_last word1 word2 content line_num pos out e h =
    ground (arith, second_word_fault word2 (drop pos content) h)
