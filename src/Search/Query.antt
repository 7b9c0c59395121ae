-- ===== src/Search/Query.antt =====
-- `extractLine` and the four handlers of pa1/main.c. A handler returns the bytes that it writes to
-- standard output.
pub mod Lines
pub mod Sword
pub mod Faults
use systemprogramminglab.Prelude.{
  ℕ, zero, suc, ◌+◌, ◌-◌, Bool, true, false, ◌&&◌, ◌||◌, Option, none, some, List, [], ◌∷◌, ◌++◌,
  ◌==◌, if◌then◌else◌, length, get_elem?, take, drop, drop_last, codes,
}
use systemprogramminglab.Search.Text.{
  is_blank, deref, issubstring, next_word, isincluded, stringlen, to_lowercase,
}
use systemprogramminglab.Search.Number.{int_to_string}
use systemprogramminglab.Search.Index.{Entry}
use systemprogramminglab.Search.Run.{Run, done, fault, out_of_fuel, ◌>>=◌, looped}
use systemprogramminglab.Libc.Texts.{c_text}

-- The `size` bytes that were read, with the NUL in place of a newline at their end.
unfoldable pub chomp : List ℕ → ℕ → List ℕ
chomp content size = elim (get_elem? content (size - 1)) [
  | some c ↦ if c == b'\n' then take (size - 1) content else content
  | none ↦ content
]

-- `extractLine`, at position `pos` of the file.
unfoldable pub extract_line : List ℕ → ℕ → ℕ → List ℕ
unfolding chomp
extract_line file pos size = to_lowercase (c_text (chomp (take size (drop pos file)) size))

-- What a handler has written when it looks at the next line: `flag` and the bytes.
pub record Output : Type 0 where
  pub flag : Bool
  pub bytes : List ℕ

-- `lineNum:idx `
unfoldable pub print_hit : ℕ → ℕ → List ℕ
print_hit line_num idx = int_to_string line_num ++ (b':' ∷ (int_to_string idx ++ (b' ' ∷ [])))

-- `lineNum `
unfoldable pub print_line : ℕ → List ℕ
print_line line_num = int_to_string line_num ++ (b' ' ∷ [])

-- The `while` loop of `handle_sword`, from the pointer `content + base` on, with `fuel` rounds.
unfoldable pub sword_hits : ℕ → List ℕ → List ℕ → ℕ → Run (List ℕ)
sword_hits zero word rest base = out_of_fuel
sword_hits (suc fuel) word rest base = elim (isincluded word rest) [
  | none ↦ out_of_fuel
  | some none ↦ done []
  | some (some pos) ↦ elim (sword_hits fuel word (drop (suc pos) rest) (base + suc pos)) [
    | done hits ↦ done ((base + pos) ∷ hits)
    | fault ↦ fault
    | out_of_fuel ↦ out_of_fuel
  ]
]

unfoldable pub print_hits : ℕ → List ℕ → Output → Output
print_hits line_num [] out = out
print_hits line_num (idx ∷ hits) out =
    print_hits line_num hits (record { flag = true; bytes = out.bytes ++ print_hit line_num idx })

unfoldable pub sword_line : List ℕ → List ℕ → ℕ → Output → Run Output
sword_line word content line_num out = do
  hits ← sword_hits (suc (length content)) word content 0
  done (print_hits line_num hits out)

-- The inner loop of `handle_mword`: whether it runs to the end of the input list.
unfoldable pub all_included : List (List ℕ) → List ℕ → Run Bool
all_included [] content = done true
all_included (word ∷ words) content = elim (isincluded word content) [
  | none ↦ out_of_fuel
  | some none ↦ done false
  | some (some _) ↦ all_included words content
]

unfoldable pub mword_line : List (List ℕ) → List ℕ → ℕ → Output → Run Output
mword_line words content line_num out = do
  found ← all_included words content
  done (if found then record { flag = true; bytes = out.bytes ++ print_line line_num } else out)

-- The `while` loop of `handle_cword`, from `startp`, which is `content + base`.
unfoldable pub cword_hits : ℕ → List ℕ → List ℕ → ℕ → Run (List ℕ)
cword_hits zero phrase startp base = out_of_fuel
cword_hits (suc fuel) phrase [] base = done []
cword_hits (suc fuel) phrase (c ∷ s) base = elim (issubstring phrase (c ∷ s)) [
  | none ↦ done []
  | some pos ↦ elim (next_word (c ∷ s)) [
    | none ↦ fault
    | some k ↦ elim (cword_hits fuel phrase (drop k (c ∷ s)) (base + k)) [
      | done hits ↦ done (
          let behind = deref (drop (pos + stringlen phrase) (c ∷ s)) in
          if (pos == 0) && (is_blank behind || (behind == 0)) then base ∷ hits else hits)
      | fault ↦ fault
      | out_of_fuel ↦ out_of_fuel
    ]
  ]
]

unfoldable pub cword_line : List ℕ → List ℕ → ℕ → Output → Run Output
cword_line phrase content line_num out = do
  hits ← cword_hits (suc (length content)) phrase content 0
  done (print_hits line_num hits out)

-- The second condition of `handle_regexp`, where `start` is the place of the first word:
-- `isincluded` reads through the pointer that `nextWord` gives it.
unfoldable pub second_word : List ℕ → List ℕ → Run (Option ℕ)
second_word word2 start = elim (next_word start) [
  | none ↦ fault
  | some k ↦ elim (next_word (drop k start)) [
    | none ↦ fault
    | some j ↦ looped (isincluded word2 (drop j (drop k start)))
  ]
]

unfoldable pub regexp_line : List ℕ → List ℕ → List ℕ → ℕ → Output → Run Output
regexp_line word1 word2 content line_num out = do
  start ← looped (isincluded word1 content)
  elim start [
    | none ↦ done out
    | some pos ↦ do
      found ← second_word word2 (drop pos content)
      elim found [
        | none ↦ done out
        | some _ ↦ done (record { flag = true; bytes = out.bytes ++ print_line line_num })
      ]
  ]

-- The loop over the index: each line is read from where the last one ended.
unfoldable pub for_lines :
    (List ℕ → ℕ → Output → Run Output) → List ℕ → List Entry → ℕ → Output → Run Output
unfolding extract_line
for_lines line file [] pos out = done out
for_lines line file (e ∷ index) pos out = do
  out' ← line (extract_line file pos e.size) e.line_num out
  for_lines line file index (pos + e.size) out'

-- `lseek(1, -1, SEEK_CUR)` takes the last space back if standard output can seek.
unfoldable pub finish : Bool → Output → List ℕ
finish seekable out =
    if out.flag && seekable then drop_last out.bytes ++ (b'\n' ∷ []) else out.bytes ++ (b'\n' ∷ [])

-- A handler: with no line in the index it reads through NULL.
unfoldable pub handle :
    (List ℕ → ℕ → Output → Run Output) → Bool → List ℕ → List Entry → Run (List ℕ)
unfolding for_lines finish
handle line seekable file [] = fault
handle line seekable file (e ∷ index) = do
  out ← for_lines line file (e ∷ index) e.offset (record { flag = false; bytes = [] })
  done (finish seekable out)
