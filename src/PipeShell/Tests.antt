-- ===== src/PipeShell/Tests.antt =====
-- The theorems on week9 for three lines.
use systemprogramminglab.Prelude.{◌≡◌, refl, some, [], ◌∷◌, Lacks, codes, arith}
use systemprogramminglab.Libc.Texts.{tokens, same}
use systemprogramminglab.PipeShell.{run_line, plain}
use systemprogramminglab.PipeShell.Marks.{process_of}

single : run_line (codes "ls -l\n") ≡ some (plain (process_of (codes "ls") (codes "-l" ∷ [])))
unfolding run_line tokens same
single = refl

wc-Lacks : Lacks b' ' (codes "wc")
wc-Lacks = ground arith
