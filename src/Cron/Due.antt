-- ===== src/Cron/Due.antt =====
-- When a line of the crontab is due.
use systemprogramminglab.Prelude.{
  ℕ, ◌≡◌, ◌≤◌, refl, Bool, true, false, ◌&&◌, none, some, List, [], ◌∷◌, ◌==◌, if◌then◌else◌,
  length, pos, ◌==ℤ◌, Lacks, arith, take_all,
}
use systemprogramminglab.Libc.Decimal.{read_digits}
use systemprogramminglab.Libc.Decimal.Casts.{strtol_int}
use systemprogramminglab.Libc.Texts.{
  c_text_whole, IsToken, joined_by, joined_by-Lacks, tokens-joined_by,
}
use systemprogramminglab.Cron.{Time, is_star, is_due, check}

-- A field of a line: a star, or a text that `strtol` reads as `n`, as an `int`.
pub data Field : Type 0 where
  star : Field
  number : List ℕ → ℕ → Field

abbrev pub field_text : Field → List ℕ
field_text star = b'*' ∷ []
field_text (number text n) = text

abbrev pub IsField : Field → Type 0
IsField star = Unit
IsField (number text n) =
    IsToken b' ' text × (Lacks 0 text × ((is_star text ≡ false) × (strtol_int text ≡ pos n)))

-- Whether the minute field and the hour field let the command run at a time: where the hour is a
-- number, it is compared with the number of the minute field, which is 0 for a star.
abbrev pub matches : ℕ → Field → Bool
matches now star = true
matches now (number text n) = n == now

abbrev pub value : Field → ℕ
value star = 0
value (number text n) = n

abbrev pub runs_at : Time → Field → Field → Bool
runs_at now minute star = matches now.min minute
runs_at now minute (number text h) = matches now.min minute && (value minute == now.hour)

star_value : strtol_int (b'*' ∷ []) ≡ pos 0
unfolding strtol_int read_digits
star_value = refl

self : (n : ℕ) → (pos n ==ℤ pos n) ≡ true
self n = ground arith

is_due_lem :
    (now : Time) (minute hour : Field)
    → IsField minute
    → IsField hour
    → is_due now (field_text minute) (field_text hour) ≡ runs_at now minute hour
unfolding is_due
is_due_lem now star star h k = ground arith
is_due_lem now star (number t n) h k = rw (k.1.1.0, star_value) ground arith
is_due_lem now (number s m) star h k = rw (h.1.1.0, h.1.1.1) ground arith
is_due_lem now (number s m) (number t n) h k = rw (h.1.1.0, h.1.1.1, k.1.1.0) ground arith

field-IsToken : (f : Field) → IsField f → IsToken b' ' (field_text f)
field-IsToken star h = (cc, ground arith)
field-IsToken (number text n) h = h.0

field-Lacks : (f : Field) → IsField f → Lacks 0 (field_text f)
field-Lacks star h = ground arith
field-Lacks (number text n) h = h.1.0

abbrev pub line : Field → Field → List ℕ → List ℕ
line minute hour path = joined_by b' ' (field_text minute ∷ field_text hour ∷ path ∷ [])

-- A crontab of at most 511 bytes with a minute, an hour and a command without spaces, each a star
-- or a number, which is what an `int` keeps of what `strtol` reads: the command is run where the minute is that of the time, or a star, and the hour is a
-- star, or the number of the minute field is the hour of the time.
pub check_lem :
    (now : Time) (minute hour : Field) (path : List ℕ)
    → IsField minute
    → IsField hour
    → IsToken b' ' path
    → Lacks 0 path
    → length (line minute hour path) ≤ 511
    → check now (line minute hour path) ≡ some (if runs_at now minute hour then some path else none)
unfolding check
check_lem now minute hour path h k p z b =
    let words : List (List ℕ) = field_text minute ∷ field_text hour ∷ path ∷ [] in
    rw
      (
        take_all 511 (line minute hour path) b,
        c_text_whole (line minute hour path) (
            joined_by-Lacks 0 b' ' words (cc)
              (field-Lacks minute h, (field-Lacks hour k, (z, tt)))),
        tokens-joined_by b' ' (field_text minute) (field_text hour ∷ path ∷ [])
            (field-IsToken minute h, (field-IsToken hour k, (p, tt))),
        is_due_lem now minute hour h k,
      )
      refl
