-- ===== src/Search/Main.antt =====
-- `main` of pa1/main.c: the index of the file, and the loop over the queries.
pub mod Answers
use systemprogramminglab.Prelude.{
  ℕ, zero, suc, Bool, Option, none, some, List, [], ◌∷◌, ◌++◌, length, take, drop, leb,
  if◌then◌else◌,
}
use systemprogramminglab.Search.Run.{Run, done, fault, ◌>>=◌, looped}
use systemprogramminglab.Search.Index.{Entry, Index, read_file}
use systemprogramminglab.Search.Input.{Mode, sword, mword, cword, regexp, exit, resolve_input}
use systemprogramminglab.Search.Query.{handle, sword_line, mword_line, cword_line, regexp_line}

-- `inputList->tail->content`, where `word` is the head.
abbrev pub last_of : List ℕ → List (List ℕ) → List ℕ
last_of word [] = word
last_of word (next ∷ words) = last_of next words

-- The `switch`: a handler reads the head of the list without a test.
unfoldable pub dispatch : Bool → List ℕ → List Entry → Mode → List (List ℕ) → Run (List ℕ)
dispatch seekable file index exit words = done []
dispatch seekable file index sword [] = fault
dispatch seekable file index sword (word ∷ words) = handle (sword_line word) seekable file index
dispatch seekable file index mword words = handle (mword_line words) seekable file index
dispatch seekable file index cword [] = fault
dispatch seekable file index cword (word ∷ words) = handle (cword_line word) seekable file index
dispatch seekable file index regexp [] = fault
dispatch seekable file index regexp (word ∷ words) =
    handle (regexp_line word (last_of word words)) seekable file index

-- The loop over the inputs that `read` delivers. At the end of the input `read` returns 0, and
-- `resolve_input` writes in front of its array.
unfoldable pub main_loop : Bool → List ℕ → List Entry → List (List ℕ) → Run (List ℕ)
main_loop seekable file index [] = resolve_input [] >>= λ r. done []
main_loop seekable file index (input ∷ inputs) = do
  (mode, words) ← resolve_input input
  elim mode [
    | exit ↦ done []
    | kind ↦ do
      out ← dispatch seekable file index kind words
      rest ← main_loop seekable file index inputs
      done (out ++ rest)
  ]

-- What the reads of at most BUFSIZE bytes deliver of the bytes that are typed at once; each but the
-- last takes 4096 of them, and `rounds` bounds their number.
unfoldable pub pieces : ℕ → List ℕ → List (List ℕ)
pieces zero bytes = []
pieces (suc rounds) bytes =
    let rest = pieces rounds (drop 4096 bytes) in
    take 4096 bytes ∷ (if leb (length bytes) 4096 then [] else rest)

unfoldable pub reads_of : List (List ℕ) → List (List ℕ)
unfolding pieces
reads_of [] = []
reads_of (typed ∷ more) = pieces (suc (length typed)) typed ++ reads_of more

-- The bytes that the program writes for a file and what is typed, a line at a time. `seekable` says
-- whether standard output can seek; `fuel` is for `read_file`.
unfoldable pub program : ℕ → Bool → List ℕ → List (List ℕ) → Run (List ℕ)
unfolding main_loop reads_of
program fuel seekable file typed = do
  r ← looped (read_file fuel file)
  main_loop seekable file r.entries (reads_of typed)
