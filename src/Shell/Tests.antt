-- ===== src/Shell/Tests.antt =====
-- The theorems on the shell of pa2 on concrete lines, and runs of its parser.
use systemprogramminglab.Prelude.{
  ℕ, ◌≡◌, refl, true, false, Option, none, some, List, [], ◌∷◌, ◌++◌, map, All, Lacks, codes,
  if◌then◌else◌, arith, pos,
}
use systemprogramminglab.Libc.Texts.{c_text, same, strstr, tokens, joined_by, EndsNot}
use systemprogramminglab.Chain.{Chain}
use systemprogramminglab.Chain.Links.{Holds}
use systemprogramminglab.Chain.Collected.{walk, empty_list}
use systemprogramminglab.Shell.Commands.{
  Text, text_of, cells_of, list_pipelines, delete_all_node, list_pipelines_lem,
}
use systemprogramminglab.Shell.Pipelines.{parse_pipelines, drop_daemon, piped, IsCommand}
use systemprogramminglab.Shell.Command.{
  Redirects, Command, executable, commands, parse_command, kind_of,
}
use systemprogramminglab.Shell.Command.Outputs.{IsPlainName, stays, appends}
use systemprogramminglab.Shell.Command.Written.{
  IsWord, reads, keeps, command_text, redirects, parse_command_lem,
}
use systemprogramminglab.Shell.Stages.{first_arg, program_path, run_commands}
use systemprogramminglab.Shell.Stages.Wiring.{chain_from, run_commands_lem}
use systemprogramminglab.Shell.Line.{run_line, launch, has_unknown}
use systemprogramminglab.Shell.Line.Whole.{IsWords, line_texts, command_of, run_line_lem}

abbrev none_yet : Redirects
none_yet = record { input = none; output = none; append = none }

both :
    parse_command (codes "sort -r < in > out ") none_yet
    ≡ some (
      record { kind = executable; args = codes "sort" ∷ codes "-r" ∷ [] },
      record { input = some (codes "in"); output = some (codes "out"); append = none },
    )
unfolding parse_command tokens c_text strstr same
both = refl

abbrev looked_up : List ℕ → Option (List ℕ)
unfolding kind_of
looked_up w = program_path (codes "/home/u/pa2") (kind_of w) w

-- The programs that are run for words of each kind.
programs :
    (looked_up (codes "sort") ≡ some (codes "/bin/sort"))
    × (looked_up (codes "cat") ≡ some (codes "/home/u/pa2/cat"))
    × (looked_up (codes "./a.out") ≡ some (codes "./a.out"))
    × (looked_up (codes "cd") ≡ none)
    × (looked_up (codes "vi") ≡ none)
unfolding looked_up kind_of same
programs = (refl, refl, refl, refl, refl)

-- cat < in | sort -r | grep x >> out
abbrev cat_words : List (List ℕ)
cat_words = codes "cat" ∷ []

abbrev sort_words : List (List ℕ)
sort_words = codes "sort" ∷ codes "-r" ∷ []

abbrev grep_words : List (List ℕ)
grep_words = codes "grep" ∷ codes "x" ∷ []

a_line :
    piped (
      line_texts
        (cat_words ∷ sort_words ∷ grep_words ∷ [])
        (reads (codes "in"))
        (appends (codes "out")))
    ≡ codes "cat < in | sort -r | grep x >> out"
unfolding piped line_texts joined_by
a_line = refl

in_name : IsPlainName (codes "in")
in_name = ground arith

out_name : IsPlainName (codes "out")
out_name = ground arith

cat_IsWords : IsWords cat_words
cat_IsWords = ground arith

sort_IsWords : IsWords sort_words
sort_IsWords = ground arith

grep_IsWords : IsWords grep_words
grep_IsWords = ground arith

abbrev all_texts : List (List ℕ)
all_texts =
    line_texts (cat_words ∷ sort_words ∷ grep_words ∷ []) (reads (codes "in"))
      (appends (codes "out"))

all_texts-IsCommand : All IsCommand all_texts
unfolding line_texts joined_by
all_texts-IsCommand = (ground arith, (ground arith, (ground arith, tt)))

all_texts-EndsNot : EndsNot b'&' (piped all_texts)
unfolding piped line_texts joined_by
all_texts-EndsNot = ground arith

abbrev here : List ℕ
here = codes "/home"

not_exit : same (first_arg cat_words) (codes "exit") ≡ false
unfolding same
not_exit = refl

not_cd : same (first_arg cat_words) (codes "cd") ≡ false
unfolding same
not_cd = refl

all_known : has_unknown (map command_of (cat_words ∷ sort_words ∷ grep_words ∷ [])) ≡ false
unfolding has_unknown kind_of same
all_known = refl

run_line_lem_example :
    run_line here (piped all_texts ++ (b'\n' ∷ []))
    ≡ some (
        launch (
          chain_from here
            (redirects (reads (codes "in")) (appends (codes "out")))
            3
            0
            (map command_of (cat_words ∷ sort_words ∷ grep_words ∷ []))))
run_line_lem_example =
    run_line_lem here cat_words (sort_words ∷ grep_words ∷ []) (some (codes "in"))
      (appends (codes "out")) (cat_IsWords, (sort_IsWords, (grep_IsWords, tt))) in_name out_name
      all_texts-IsCommand all_texts-EndsNot not_exit not_cd all_known

parse_command_lem_example :
    parse_command
      (command_text sort_words (reads (codes "in")) (appends (codes "out")) true)
      (redirects (keeps none) stays)
    ≡ some (
      record { kind = kind_of (codes "sort"); args = sort_words },
      redirects (reads (codes "in")) (appends (codes "out")),
    )
parse_command_lem_example =
    parse_command_lem (codes "sort") (codes "-r" ∷ []) (reads (codes "in")) (appends (codes "out"))
      true sort_IsWords.0 sort_IsWords.1 in_name out_name

one-IsWord : All IsWord (codes "sort" ∷ [])
one-IsWord = (sort_IsWords.0.0, tt)

out-IsWord : IsWord (codes "out")
out-IsWord = ground arith

abbrev three_commands : List Command
three_commands = map command_of (cat_words ∷ sort_words ∷ grep_words ∷ [])

abbrev to_out : Redirects
to_out = redirects (reads (codes "in")) (appends (codes "out"))

run_commands_lem_example :
    run_commands here to_out three_commands ≡ chain_from here to_out 3 0 three_commands
run_commands_lem_example = run_commands_lem here to_out three_commands

abbrev real_path : List ℕ → Option (List ℕ)
real_path dir = some (if same dir (codes "/a/b/../../c/") then codes "/c" else dir)

real_path_c : real_path (codes "/a/b/../../c" ++ (b'/' ∷ [])) ≡ some (codes "/c")
unfolding same
real_path_c = refl

mini_Lacks : Lacks b'/' (codes "mini")
mini_Lacks = ground arith

abbrev two_commands : List (List ℕ)
two_commands = codes "ls " ∷ codes "wc" ∷ []

two_commands_parsed : parse_pipelines (codes "ls | wc") ≡ some two_commands
unfolding parse_pipelines drop_daemon tokens
two_commands_parsed = refl

list_pipelines_lem_example :
    (t : Chain Text) × (list_pipelines (empty_list (λ a. none)) (10 ∷ 20 ∷ []) (codes "ls | wc")
      ≡ some t)
    × (walk 2 t.heap t.head ≡ some (map (text_of commands) two_commands))
    × (t.num ≡ pos 2)
    × (u : Chain Text) × (delete_all_node 3 t ≡ some u)
    × Holds u []
    × All (λ cell. u.heap cell.0 ≡ none) (cells_of (10 ∷ 20 ∷ []) two_commands)
list_pipelines_lem_example =
    list_pipelines_lem (λ a. none) (10 ∷ 20 ∷ []) (codes "ls | wc") two_commands two_commands_parsed
      (omega arith) (ground arith)
