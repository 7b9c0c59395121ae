-- ===== src/FileTools/Tests.antt =====
-- The theorems on the commands of pa2 at short files.
use systemprogramminglab.Prelude.{ℕ, ◌≡◌, refl, List, [], ◌∷◌, ◌++◌, arith, pos, none, codes, false}
use systemprogramminglab.Libc.Texts.{same}
use systemprogramminglab.FileTools.{tail}
use systemprogramminglab.FileTools.Commands.{
  enoent, bytes, fails, Disk, Done, complaint, put, cp_main,
}
use systemprogramminglab.FileTools.Copies.{left_by_cp, cp_main_lem}
use systemprogramminglab.FileTools.Lines.{unlines}
use systemprogramminglab.FileTools.Tail.{tail_lem}

abbrev ls : List (List ℕ)
ls = (b'a' ∷ b'b' ∷ []) ∷ [] ∷ []

abbrev rest : List ℕ
rest = b'c' ∷ b'd' ∷ []

tail_lem_example : tail (pos 2) (rest ++ (b'\n' ∷ unlines ls)) ≡ unlines ls
tail_lem_example = tail_lem rest (b'a' ∷ b'b' ∷ []) ([] ∷ []) (ground arith) (omega arith)

-- A disk with one file.
abbrev disk : Disk
disk = put (λ name. fails enoent) (codes "kept") (bytes (codes "text"))

-- There is no file `gone`: the text of the other file is lost.
cp_main_lem_example :
    (done : Done) × (cp_main (λ name. none) disk (codes "gone" ∷ codes "kept" ∷ []) ≡ done)
    × (done.0 ≡ complaint (disk (codes "gone")))
    × (done.1 (codes "kept")
        ≡ bytes (left_by_cp (same (codes "gone") (codes "kept")) (disk (codes "gone"))))
    × ((name : List ℕ) → same name (codes "kept") ≡ false → done.1 name ≡ disk name)
cp_main_lem_example = cp_main_lem (λ name. none) disk (codes "gone") (codes "kept") [] refl
