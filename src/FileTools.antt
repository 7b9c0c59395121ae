-- ===== src/FileTools.antt =====
-- The commands of pa2 that pass on the bytes of a file: pa2/head.c, pa2/tail.c, pa2/cat.c and
-- pa2/cp.c.
pub mod Lines
pub mod Tail
pub mod Commands
pub mod Copies
mod Tests
use systemprogramminglab.Prelude.{
  ℕ, zero, suc, ◌+◌, ◌-◌, Bool, true, false, not, ◌&&◌, Option, none, some, List, [], ◌∷◌, ◌++◌,
  ◌==◌, if◌then◌else◌, ltb, length, get_or, take, drop, ℤ, pos, negsuc,
}
use systemprogramminglab.Libc.Decimal.Casts.{strtol_int}

-- `cnt < line`
abbrev pub is_below : ℕ → ℤ → Bool
is_below cnt (pos line) = ltb cnt line
is_below cnt (negsuc _) = false

-- `line` and `file` as the `switch` on `argc` sets them, from `argv[1]` on; `argv[argc]` is NULL.
-- The inner `none` is standard input, the outer one the message of an error.
unfoldable pub arguments : List (List ℕ) → Option (ℤ × Option (List ℕ))
unfolding strtol_int
arguments [] = some (pos 10, none)
arguments (file ∷ []) = some (pos 10, some file)
arguments (_ ∷ line ∷ []) = some (strtol_int line, none)
arguments (_ ∷ line ∷ file ∷ []) = some (strtol_int line, some file)
arguments (_ ∷ _ ∷ _ ∷ _ ∷ _) = none

-- The loop of head.c: what it writes, from the bytes still to read.
unfoldable pub head_loop : ℤ → ℕ → List ℕ → List ℕ
head_loop line cnt [] = []
head_loop line cnt (b ∷ bytes) =
    let rest = head_loop line (if b == b'\n' then cnt + 1 else cnt) bytes in
    if is_below cnt line then b ∷ rest else []

unfoldable pub head : ℤ → List ℕ → List ℕ
head line file = head_loop line 0 file

-- The first loop of tail.c, from the position `offset`, which it also returns: a round reads the
-- byte there and goes one position down.
unfoldable pub tail_loop : ℤ → List ℕ → ℕ → ℕ → ℕ
tail_loop line file zero cnt = 0
tail_loop line file (suc k) cnt =
    let below = tail_loop line file k (
      if (get_or file (suc k) 0 == b'\n') && not (suc k == length file - 1)
      then cnt + 1
      else cnt) in
    if is_below cnt line then below else suc k

-- Where the output of tail.c starts. In an empty file the first `lseek` fails, and leaves the
-- position 0.
unfoldable pub tail_start : ℤ → List ℕ → ℕ
tail_start line file =
    let offset = tail_loop line file (length file - 1) 0 in if offset == 0 then 0 else offset + 2

unfoldable pub tail : ℤ → List ℕ → List ℕ
unfolding tail_start
tail line file = drop (tail_start line file) file

-- The loop of cat.c and of cp.c: blocks of up to `size` bytes until one is empty; `none` where the
-- fuel runs out.
unfoldable pub copy_loop : ℕ → ℕ → List ℕ → Option (List ℕ)
copy_loop size zero file = none
copy_loop size (suc fuel) file = elim (take size file) [
  | [] ↦ some []
  | b ∷ block ↦ elim (copy_loop size fuel (drop size file)) [
    | none ↦ none
    | some rest ↦ some ((b ∷ block) ++ rest)
  ]
]

-- `buf` of cat.c is an array of 4096 pointers, of eight bytes each.
unfoldable pub cat : ℕ → List ℕ → Option (List ℕ)
cat fuel file = copy_loop 32768 fuel file

unfoldable pub cp : ℕ → List ℕ → Option (List ℕ)
cp fuel file = copy_loop 4096 fuel file
