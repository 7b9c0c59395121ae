-- ===== src/Search/Index.antt =====
-- `read_file` of pa1/main.c: the index of the lines of a file, read in blocks.
pub mod Lines
pub mod Loop
pub mod Whole
pub mod Nodes
use systemprogramminglab.Prelude.{
  ℕ, zero, suc, ◌+◌, ◌-◌, Bool, true, false, Option, none, some, List, [], ◌∷◌, ◌++◌, ltb, ◌==◌,
  if◌then◌else◌, ◌≡◌, refl, length, take, drop,
}

abbrev pub bufsize : ℕ
bufsize = 4096

-- The payload of a `Node` of the index.
pub record Entry : Type 0 where
  pub offset : ℕ
  pub size : ℕ
  pub line_num : ℕ

-- The variables of `read_file` that outlive a block: `offset`, `lineCnt` and the list.
pub record Index : Type 0 where
  pub offset : ℕ
  pub line_count : ℕ
  pub entries : List Entry

abbrev pub start : Index
start = record { offset = 0; line_count = 0; entries = [] }

-- `insert_at_tail_idx(indexList, create_node_idx(offset, size, ++lineCnt)); offset += size;`
unfoldable pub add_line : ℕ → Index → Index
add_line size r = record {
  offset = r.offset + size;
  line_count = r.line_count + 1;
  entries =
      r.entries ++ (record { offset = r.offset; size = size; line_num = r.line_count + 1 } ∷ []);
}

-- The two inner loops over the rest of a block, with `held` bytes between `start` and `end`. They
-- stop at the end of the block: by the outer test if `held` is 0, otherwise by the `break`.
unfoldable pub scan : List ℕ → ℕ → Index → ℕ × Index
unfolding add_line
scan [] held r = (held, r)
scan (c ∷ block) held r = elim (c == b'\n') [
  | true ↦ scan block 0 (add_line (held + 1) r)
  | false ↦ scan block (held + 1) r
]

-- The position behind a block that ended at position `pos`. With bytes held, `size` is `held + 1`;
-- if there is a byte to read behind the block, then `lseek` goes back by `size` from behind it.
unfoldable pub next_position : List ℕ → ℕ → ℕ → ℕ
next_position file pos held =
    if held == 0 then pos else if ltb pos (length file) then pos + 1 - (held + 1) else pos

-- What the loop does with the block `buffer`, read at position `pos`: the position and the index
-- behind it.
unfoldable pub read_block : List ℕ → ℕ → List ℕ → Index → ℕ × Index
read_block file pos buffer r =
    let (held, r') = scan buffer 0 r in (next_position file (pos + length buffer) held, r')

-- The outer loop, at position `pos` of the file; `none` where the fuel runs out.
unfoldable pub read_loop : ℕ → List ℕ → ℕ → Index → Option Index
read_loop zero file pos r = none
read_loop (suc fuel) file pos r =
    let (pos', r') = read_block file pos (take bufsize (drop pos file)) r in
    elim (length (take bufsize (drop pos file)) == 0) [
      | true ↦ some r
      | false ↦ read_loop fuel file pos' r'
    ]

-- Into an empty list, from the start of the file.
unfoldable pub read_file : ℕ → List ℕ → Option Index
read_file fuel file = read_loop fuel file 0 start

two_lines :
    read_file 3 (b'a' ∷ b'\n' ∷ b'b' ∷ b'c' ∷ b'\n' ∷ b'd' ∷ [])
    ≡ some (record {
      offset = 5;
      line_count = 2;
      entries =
          record { offset = 0; size = 2; line_num = 1 }
          ∷ record { offset = 2; size = 3; line_num = 2 }
          ∷ [];
    })
unfolding read_file read_loop read_block scan next_position
two_lines = refl
