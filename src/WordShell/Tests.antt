-- ===== src/WordShell/Tests.antt =====
-- The shell of week6 on two lines.
use systemprogramminglab.Prelude.{◌≡◌, refl, none, some, [], ◌∷◌, codes}
use systemprogramminglab.Libc.Texts.{starts, tokens}
use systemprogramminglab.WordShell.{run_lines}

two_lines :
    run_lines (codes "ls  -l\n" ∷ codes "quitter\n" ∷ codes "ls\n" ∷ [])
    ≡ some (record { path = codes "/bin/ls"; args = codes "ls" ∷ codes "-l" ∷ [] } ∷ [])
unfolding run_lines tokens starts
two_lines = refl

blank : run_lines (codes "  \n" ∷ []) ≡ none
unfolding run_lines tokens
blank = refl
