-- ===== src/Shell/Command/Scans.antt =====
-- What a round of the loop over the redirections does to a text taken apart around the place where
-- the redirection stands.
use systemprogramminglab.Prelude.{
  ℕ, suc, ◌+◌, ◌-◌, ◌≡◌, refl, ◌∙◌, sym, ap, subst, true, false, Option, some, List, [], ◌∷◌, ◌++◌,
  append_assoc, append-nil, ◌==◌, length, length-append, get_or, set, drop, Lacks, arith,
}
use systemprogramminglab.Libc.Texts.{c_text, EndsNot}
use systemprogramminglab.Shell.Command.{Scan, trim, mark, or_else}

-- What stands behind a name: nothing, a space, or the NUL that has taken its place.
pub data Behind : Type 0 where
  nothing : Behind
  space : Behind
  nul : Behind

abbrev pub bytes : Behind → List ℕ
bytes nothing = []
bytes space = b' ' ∷ []
bytes nul = 0 ∷ []

-- The part of it that belongs to the text.
abbrev pub seen : Behind → List ℕ
seen nothing = []
seen space = b' ' ∷ []
seen nul = []

abbrev pub trimmed : Behind → Behind
trimmed nothing = nothing
trimmed space = nul
trimmed nul = nul

pub c_text-append : (s : List ℕ) (z : Behind) → Lacks 0 s → c_text (s ++ bytes z) ≡ s ++ seen z
unfolding c_text
c_text-append [] nothing h = refl
c_text-append [] space h = refl
c_text-append [] nul h = refl
c_text-append (c ∷ s) z h = ground (arith, c_text-append s z h.1)

module _ {ℓ} {A : Type ℓ} where
  pub drop-append : (xs ys : List A) (i : ℕ) → drop (length xs + i) (xs ++ ys) ≡ drop i ys
  drop-append [] ys i = ap (λ j. drop j ys) (omega arith)
  drop-append (x ∷ xs) ys i =
      ap (λ j. drop j (x ∷ (xs ++ ys))) {y = suc (length xs + i)} (omega arith)
      ∙ drop-append xs ys i

  pub set-append :
      (xs ys : List A) (i : ℕ) (v : A) → set (xs ++ ys) (length xs + i) v ≡ xs ++ set ys i v
  set-append [] ys i v = ap (λ j. set ys j v) (omega arith)
  set-append (x ∷ xs) ys i v =
      ap (λ j. set (x ∷ (xs ++ ys)) j v) {y = suc (length xs + i)} (omega arith)
      ∙ ap (λ t. x ∷ t) (set-append xs ys i v)

  get_or-append :
      (xs ys : List A) (i : ℕ) (d : A) → get_or (xs ++ ys) (length xs + i) d ≡ get_or ys i d
  get_or-append [] ys i d = ap (λ j. get_or ys j d) (omega arith)
  get_or-append (x ∷ xs) ys i d =
      ap (λ j. get_or (x ∷ (xs ++ ys)) j d) {y = suc (length xs + i)} (omega arith)
      ∙ get_or-append xs ys i d

-- The last byte of a name that does not end in a space.
last_byte :
    (f rest : List ℕ)
    → EndsNot b' ' f
    → (n : ℕ) × (length f ≡ suc n) × ((get_or (f ++ rest) n 0 == b' ') ≡ false)
last_byte [] rest h = absurd h
last_byte (c ∷ []) rest h = (0, refl, ground arith)
last_byte (c ∷ d ∷ f) rest h = let (n, e, b) = last_byte (d ∷ f) rest h in (suc n, omega arith, b)

get_or_last :
    (pre f rest : List ℕ)
    → EndsNot b' ' f
    → (get_or (pre ++ (f ++ rest)) (length pre + length f - 1) 0 == b' ') ≡ false
get_or_last pre f rest h =
    let (n, e, b) = last_byte f rest h in
    let at : length pre + length f - 1 ≡ length pre + n = omega arith in
    rw (at, get_or-append pre (f ++ rest) n 0) b

pub at_end :
    {A B : Type 0} (g : List A → ℕ → B) (xs ys : List A) (y : B)
    → g (xs ++ ys) (length xs + 0) ≡ y
    → g (xs ++ ys) (length xs) ≡ y
at_end g xs ys y e = ap (g (xs ++ ys)) {x = length xs} {y = length xs + 0} (omega arith) ∙ e

get_or_space :
    (pre f : List ℕ) → (get_or (pre ++ (f ++ (b' ' ∷ []))) (length pre + length f) 0 == b' ') ≡ true
get_or_space pre f =
    rw
      (
        get_or-append pre (f ++ (b' ' ∷ [])) (length f) 0,
        at_end (λ xs i. get_or xs i 0) f (b' ' ∷ []) b' ' (get_or-append f (b' ' ∷ []) 0 0),
      )
      refl

set_space :
    (pre f : List ℕ)
    → set (pre ++ (f ++ (b' ' ∷ []))) (length pre + length f) 0 ≡ pre ++ (f ++ (0 ∷ []))
set_space pre f =
    set-append pre (f ++ (b' ' ∷ [])) (length f) 0
    ∙ ap (λ t. pre ++ t)
        (at_end (λ xs i. set xs i 0) f (b' ' ∷ []) (f ++ (0 ∷ [])) (set-append f (b' ' ∷ []) 0 0))

drop_all : (pre rest : List ℕ) → drop (length pre) (pre ++ rest) ≡ rest
drop_all [] rest = refl
drop_all (x ∷ pre) rest = drop_all pre rest

-- The text behind a redirection loses the space behind the name.
pub trim_lem :
    (pre f : List ℕ) (z : Behind)
    → EndsNot b' ' f
    → Lacks 0 f
    → trim (pre ++ (f ++ bytes z)) (length pre) ≡ pre ++ (f ++ bytes (trimmed z))
unfolding trim
trim_lem pre f nothing e h =
    let last =
      subst (λ t. (get_or (pre ++ t) (length pre + length f - 1) 0 == b' ') ≡ false) (append-nil f)
        (get_or_last pre f [] e) in
    rw (drop_all pre (f ++ []), c_text-append f nothing h, append-nil f, last) refl
trim_lem pre f nul e h =
    rw
      (
        drop_all pre (f ++ (0 ∷ [])),
        c_text-append f nul h,
        append-nil f,
        get_or_last pre f (0 ∷ []) e,
      )
      refl
trim_lem pre f space e h =
    let at : length pre + (length f + 1) - 1 ≡ length pre + length f = omega arith in
    rw
      (
        drop_all pre (f ++ (b' ' ∷ [])),
        c_text-append f space h,
        length-append f (b' ' ∷ []),
        at,
        get_or_space pre f,
        set_space pre f,
      )
      refl

-- A redirection behind `pre`, with a name behind it.
abbrev pub marked : ℕ → List ℕ → List ℕ → List ℕ → Behind → Option ℕ → Scan
marked a op pre f z end = record {
  text = pre ++ ((0 ∷ op) ++ (f ++ bytes (trimmed z)));
  at = suc (length pre);
  command_end = some (or_else end (suc (length pre)));
}

split_off : (pre op rest : List ℕ) → pre ++ (op ++ rest) ≡ (pre ++ op) ++ rest
split_off pre op rest = sym (append_assoc pre op rest)

trim_behind :
    (pre op f : List ℕ) (z : Behind)
    → EndsNot b' ' f
    → Lacks 0 f
    → trim (pre ++ (op ++ (f ++ bytes z))) (length pre + length op)
      ≡ pre ++ (op ++ (f ++ bytes (trimmed z)))
trim_behind pre op f z e h =
    rw
      (
        split_off pre op (f ++ bytes z),
        split_off pre op (f ++ bytes (trimmed z)),
        sym (length-append pre op),
      )
      (trim_lem (pre ++ op) f z e h)

pub mark_lem :
    (a : ℕ) (op pre f : List ℕ) (z : Behind) (at : ℕ) (end : Option ℕ)
    → EndsNot b' ' f
    → Lacks 0 f
    → mark
        (a ∷ op)
        true
        (record { text = pre ++ ((a ∷ op) ++ (f ++ bytes z)); at = at; command_end = end })
        (length pre)
      ≡ (marked a op pre f z end, some (length pre + suc (length op)))
unfolding mark
mark_lem a op pre f z at end e h =
    rw
      (
        trim_behind pre (a ∷ op) f z e h,
        at_end (λ xs i. set xs i 0) pre ((a ∷ op) ++ (f ++ bytes (trimmed z)))
            (pre ++ ((0 ∷ op) ++ (f ++ bytes (trimmed z))))
            (set-append pre ((a ∷ op) ++ (f ++ bytes (trimmed z))) 0 0),
      )
      refl
