-- ===== src/FileTools/Copies.antt =====
-- What pa2/cp.c leaves of the files, and where pa2/mv.c moves one to.
use systemprogramminglab.Prelude.{
  ℕ, suc, ◌≡◌, refl, ap, inl, inr, Bool, Bool-cases, true, false, Option, none, some, List, [], ◌∷◌,
  ◌++◌, length, Lacks, arith,
}
use systemprogramminglab.Libc.Texts.{same}
use systemprogramminglab.FileTools.Lines.{cp_lem}
use systemprogramminglab.FileTools.Commands.{
  Errno, Found, bytes, fails, Disk, Done, put, copied, copy_to, complaint, cp_main, behind_slash,
  ends_in_slash, mv_target,
}

same_self : (s : List ℕ) → same s s ≡ true
unfolding same
same_self [] = refl
same_self (c ∷ s) = ground (arith, same_self s)

-- What `cp` leaves in the destination: what the source held, unless it could not be opened or is the
-- destination itself.
abbrev pub left_by_cp : Bool → Found → List ℕ
left_by_cp true found = []
left_by_cp false (bytes s) = s
left_by_cp false (fails e) = []

copied_lem :
    (disk : Disk) (src dest : List ℕ) (found : Found)
    → disk src ≡ found
    → copied found (put disk dest (bytes []) src) ≡ left_by_cp (same src dest) found
unfolding put
copied_lem disk src dest (bytes s) e = elim (Bool-cases (same src dest)) [
  | inl h ↦ rw (h, (cp_lem 1 [] (omega arith)).0) refl
  | inr h ↦ rw (h, e, (cp_lem (suc (length s)) s (omega arith)).0) refl
]
copied_lem disk src dest (fails e') e = elim (Bool-cases (same src dest)) [
  | inl h ↦ rw h refl
  | inr h ↦ rw h refl
]

-- Where the destination can be opened for writing, `cp` leaves in it what the source held, but nothing if the
-- source could not be opened or has the same name; all other names are as they were.
pub cp_main_lem :
    (denied : List ℕ → Option Errno) (disk : Disk) (src dest : List ℕ) (more : List (List ℕ))
    → denied dest ≡ none
    → (done : Done) × (cp_main denied disk (src ∷ dest ∷ more) ≡ done)
      × (done.0 ≡ complaint (disk src))
      × (done.1 dest ≡ bytes (left_by_cp (same src dest) (disk src)))
      × ((name : List ℕ) → same name dest ≡ false → done.1 name ≡ disk name)
unfolding cp_main put
cp_main_lem denied disk src dest more ok = (
  copy_to none disk src dest,
  rw ok refl,
  refl,
  rw (same_self dest) (ap bytes (copied_lem disk src dest (disk src) refl)),
  λ name other. rw other refl,
)

behind_slash-Lacks : (name : List ℕ) → Lacks b'/' name → behind_slash name ≡ none
unfolding behind_slash
behind_slash-Lacks [] h = refl
behind_slash-Lacks (c ∷ name) h = rw (behind_slash-Lacks name h.1) (ground (arith, h.0))

behind_slash-append :
    (front name : List ℕ) → Lacks b'/' name → behind_slash (front ++ (b'/' ∷ name)) ≡ some name
unfolding behind_slash
behind_slash-append [] name h = rw (behind_slash-Lacks name h) refl
behind_slash-append (c ∷ front) name h = rw (behind_slash-append front name h) refl

-- A file goes into a directory under the last part of its path.
pub mv_target_lem :
    (front name dest : List ℕ)
    → Lacks b'/' name
    → ends_in_slash dest ≡ false
    → mv_target true (front ++ (b'/' ∷ name)) dest ≡ dest ++ (b'/' ∷ name)
unfolding mv_target
mv_target_lem front name dest h e = rw (behind_slash-append front name h, e) refl
