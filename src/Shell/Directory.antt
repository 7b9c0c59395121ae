-- ===== src/Shell/Directory.antt =====
-- `init_dir` of pa2/main.c: the directory in which the shell looks for the commands of pa2.
-- `realpath` is a parameter: the real path of a directory, or NULL.
use systemprogramminglab.Prelude.{
  ℕ, ◌≡◌, refl, Option, none, some, List, [], ◌∷◌, ◌++◌, ◌==◌, if◌then◌else◌, ◌>>=◌, length, drop,
  arith, Lacks,
}

-- The text up to its last slash; without one, the loop leaves the array in front.
unfoldable pub up_to_slash : List ℕ → Option (List ℕ)
up_to_slash [] = none
up_to_slash (c ∷ s) =
    let rest = up_to_slash s in
    elim rest [ some t ↦ some (c ∷ t) | none ↦ if c == b'/' then some (c ∷ []) else none ]

-- `strncpy(old, new, strlen(new))`, which writes no NUL.
unfoldable pub overwrite : List ℕ → List ℕ → List ℕ
overwrite old new = new ++ drop (length new) old

unfoldable pub init_dir : (List ℕ → Option (List ℕ)) → List ℕ → Option (List ℕ)
unfolding up_to_slash overwrite
init_dir realpath arg = do dir ← up_to_slash arg; real ← realpath dir; some (overwrite dir real)

up_to_slash_name : (name : List ℕ) → Lacks b'/' name → up_to_slash name ≡ none
unfolding up_to_slash
up_to_slash_name [] h = refl
up_to_slash_name (c ∷ name) h = rw (up_to_slash_name name h.1) ground (arith, h.0)

up_to_slash_dir :
    (dir name : List ℕ)
    → Lacks b'/' name
    → up_to_slash (dir ++ (b'/' ∷ name)) ≡ some (dir ++ (b'/' ∷ []))
unfolding up_to_slash
up_to_slash_dir [] name h = rw (up_to_slash_name name h) refl
up_to_slash_dir (c ∷ dir) name h = rw (up_to_slash_dir dir name h) refl

-- For a path of a directory and a name, the directory becomes its real path, followed by what the
-- path as it was written has behind as many bytes: the end of a path that was longer stays.
pub init_dir_lem :
    (realpath : List ℕ → Option (List ℕ)) (dir name real : List ℕ)
    → Lacks b'/' name
    → realpath (dir ++ (b'/' ∷ [])) ≡ some real
    → init_dir realpath (dir ++ (b'/' ∷ name))
      ≡ some (real ++ drop (length real) (dir ++ (b'/' ∷ [])))
unfolding init_dir
init_dir_lem realpath dir name real h r = rw (up_to_slash_dir dir name h, r) refl
