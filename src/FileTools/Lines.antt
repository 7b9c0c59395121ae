-- ===== src/FileTools/Lines.antt =====
-- What the commands of pa2 write, in terms of the lines of the file.
use systemprogramminglab.Prelude.{
  ℕ, zero, suc, ◌+◌, ◌≤◌, ◌<◌, ◌≡◌, refl, ◌∙◌, ap, some, List, [], ◌∷◌, ◌++◌, append_assoc, arith,
  length, length-drop, drop, take-append-drop, All, Lacks, pos,
}
use systemprogramminglab.FileTools.{head_loop, head, copy_loop, cat, cp}

-- The lines, each with its newline.
unfoldable pub unlines : List (List ℕ) → List ℕ
unlines [] = []
unlines (l ∷ ls) = l ++ (b'\n' ∷ unlines ls)

head_loop-enough : (n cnt : ℕ) (file : List ℕ) → n ≤ cnt → head_loop (pos n) cnt file ≡ []
unfolding head_loop
head_loop-enough n cnt [] le = refl
head_loop-enough n cnt (b ∷ file) le = ground arith

head_loop-line :
    (n cnt : ℕ) (l file : List ℕ)
    → cnt < n
    → Lacks b'\n' l
    → head_loop (pos n) cnt (l ++ (b'\n' ∷ file)) ≡ l ++ (b'\n' ∷ head_loop (pos n) (cnt + 1) file)
unfolding head_loop
head_loop-line n cnt [] file less h = ground arith
head_loop-line n cnt (b ∷ l) file less h = ground (arith, head_loop-line n cnt l file less h.1)

head_loop-lines :
    (n cnt : ℕ) (ls : List (List ℕ)) (file : List ℕ)
    → cnt + length ls ≡ n
    → All (Lacks b'\n') ls
    → head_loop (pos n) cnt (unlines ls ++ file) ≡ unlines ls
unfolding unlines
head_loop-lines n cnt [] file e h = head_loop-enough n cnt file (omega arith)
head_loop-lines n cnt (l ∷ ls) file e h =
    ap (head_loop (pos n) cnt) (append_assoc l (b'\n' ∷ unlines ls) file)
    ∙ head_loop-line n cnt l (unlines ls ++ file) (omega arith) h.0
    ∙ ap (λ t. l ++ (b'\n' ∷ t)) (head_loop-lines n (cnt + 1) ls file (omega arith) h.1)

-- Asked for as many lines as a file begins with, `head` writes those lines, their newlines
-- included, and nothing of what follows them.
pub head_lem :
    (ls : List (List ℕ)) (file : List ℕ)
    → All (Lacks b'\n') ls
    → head (pos (length ls)) (unlines ls ++ file) ≡ unlines ls
unfolding head
head_lem ls file h = head_loop-lines (length ls) 0 ls file (omega arith) h

-- Blocks of any size that is not 0, and a round for each byte and one more.
copy_loop_lem :
    (size fuel : ℕ) (file : List ℕ)
    → 0 < size
    → length file < fuel
    → copy_loop size fuel file ≡ some file
unfolding copy_loop
copy_loop_lem size zero file h less = absurd (omega arith)
copy_loop_lem (suc size) (suc fuel) [] h less = refl
copy_loop_lem (suc size) (suc fuel) (b ∷ file) h less =
    rw
      (copy_loop_lem (suc size) fuel (drop size file) (omega arith)
        (omega (arith, length-drop size file)))
      (ap (λ t. some (b ∷ t)) (take-append-drop size file))
copy_loop_lem zero (suc fuel) file h less = absurd (omega arith)

-- With a round for each byte and one more, `cp` and `cat` end, and pass every byte on in order.
pub cp_lem :
    (fuel : ℕ) (file : List ℕ)
    → length file < fuel
    → (cp fuel file ≡ some file) × (cat fuel file ≡ some file)
unfolding cp cat
cp_lem fuel file less = (
  copy_loop_lem 4096 fuel file (omega arith) less,
  copy_loop_lem 32768 fuel file (omega arith) less,
)
