-- ===== src/Cron/Tests.antt =====
-- The theorem on week7 for a line that is meant for half past eight.
use systemprogramminglab.Prelude.{
  ◌≡◌, refl, none, some, codes, arith, Lacks, length, ◌≤◌, ℕ, List, [], ◌∷◌, ◌>>=◌, ◌/◌, ◌%◌, ◌+◌,
}
use systemprogramminglab.Libc.Texts.{IsToken, joined_by}
use systemprogramminglab.Libc.Decimal.Casts.{strtol_int}
use systemprogramminglab.Cron.{Time, check}
use systemprogramminglab.Cron.Rounds.{cron_rounds, each_minute, cron_rounds_lem}
use systemprogramminglab.Cron.Due.{Field, number, IsField, line, check_lem}

abbrev thirty : Field
thirty = number (codes "30") 30

abbrev eight : Field
eight = number (codes "8") 8

thirty-IsField : IsField thirty
unfolding strtol_int
thirty-IsField = (ground arith, (ground arith, (refl, refl)))

eight-IsField : IsField eight
unfolding strtol_int
eight-IsField = (ground arith, (ground arith, (refl, refl)))

path-IsToken : IsToken b' ' (codes "/bin/date")
path-IsToken = ground arith

path_text : Lacks 0 (codes "/bin/date")
path_text = ground arith

line_fits : length (line thirty eight (codes "/bin/date")) ≤ 511
unfolding joined_by
line_fits = omega arith

check_lem_example :
    check (record { min = 30; hour = 8 }) (line thirty eight (codes "/bin/date")) ≡ some none
check_lem_example =
    check_lem (record { min = 30; hour = 8 }) thirty eight (codes "/bin/date") thirty-IsField
      eight-IsField path-IsToken path_text line_fits

abbrev wall : ℕ → Time
wall time = record { min = time / 60 % 60; hour = time / 3600 % 24 }

abbrev table : ℕ → List ℕ
table time = codes "30 30 /bin/date"

cron_rounds_lem_example : cron_rounds wall table (2 ∷ 1 ∷ 59 ∷ []) 75 ≡ (do
  command ← check (wall 75) (table 75)
  commands ← each_minute wall table 2 (75 / 60 + 1)
  some (command ∷ commands))
cron_rounds_lem_example = cron_rounds_lem wall table (1 ∷ 59 ∷ []) 75 2 (omega arith) (ground arith)
