-- ===== src/FileTools/Commands.antt =====
-- `main` of the commands of pa2 on files: pa2/head.c, pa2/tail.c, pa2/cat.c, pa2/cp.c, pa2/mv.c and
-- pa2/rm.c, from their arguments to what they print and what the files are behind them.
use systemprogramminglab.Prelude.{
  ℕ, suc, Bool, false, ◌&&◌, Option, none, some, List, [], ◌∷◌, ◌++◌, ◌==◌, if◌then◌else◌, length,
  codes, ℤ,
}
use systemprogramminglab.Libc.Decimal.{decimal}
use systemprogramminglab.Libc.Texts.{same}
use systemprogramminglab.FileTools.{arguments, head, tail, cat, cp}

pub data Errno : Type 0 where
  eacces eisdir enoent enotdir eperm : Errno
  other : ℕ → Errno

unfoldable pub print_err : List ℕ → Errno → List ℕ
unfolding decimal
print_err cmd eacces = cmd ++ codes ": Permission denied\n"
print_err cmd eisdir = cmd ++ codes ": Is a directory\n"
print_err cmd enoent = cmd ++ codes ": No such file or directory\n"
print_err cmd enotdir = cmd ++ codes ": Not a directory\n"
print_err cmd eperm = cmd ++ codes ": Operation not permitted\n"
print_err cmd (other n) = cmd ++ (codes ": Error Occured: " ++ (decimal n ++ (b'\n' ∷ [])))

-- What opening a name for reading finds. Two names stand for two files.
pub data Found : Type 0 where
  bytes : List ℕ → Found
  fails : Errno → Found

abbrev pub Disk : Type 0
Disk = List ℕ → Found

unfoldable pub put : Disk → List ℕ → Found → Disk
put disk name found n = if same n name then found else disk n

abbrev pub whole : Option (List ℕ) → List ℕ
whole none = []
whole (some s) = s

abbrev pub shown : List ℕ → (List ℕ → List ℕ) → Found → List ℕ
shown cmd f (bytes s) = f s
shown cmd f (fails e) = print_err cmd e

-- What is done to the file that the arguments name, or to standard input.
abbrev pub with_file :
    Disk → List ℕ → List ℕ → (ℤ → List ℕ → List ℕ) → Option (ℤ × Option (List ℕ)) → List ℕ
with_file disk stdin cmd f none = print_err cmd (other 0)
with_file disk stdin cmd f (some (line, none)) = f line stdin
with_file disk stdin cmd f (some (line, some name)) = shown cmd (f line) (disk name)

unfoldable pub head_main : Disk → List ℕ → List (List ℕ) → List ℕ
unfolding arguments head print_err
head_main disk stdin argv = with_file disk stdin (codes "head") head (arguments argv)

-- Standard input is taken to be a file, in which `lseek` can move.
unfoldable pub tail_main : Disk → List ℕ → List (List ℕ) → List ℕ
unfolding arguments tail print_err
tail_main disk stdin argv = with_file disk stdin (codes "tail") tail (arguments argv)

-- The loop of `cat`, with a round for each byte and one more.
abbrev pub passed_on : List ℕ → List ℕ
passed_on s = whole (cat (suc (length s)) s)

unfoldable pub cat_main : Disk → List ℕ → List (List ℕ) → List ℕ
unfolding cat print_err
cat_main disk stdin [] = passed_on stdin
cat_main disk stdin (name ∷ more) = shown (codes "cat") passed_on (disk name)

-- A command prints something, and leaves the files.
abbrev pub Done : Type 0
Done = List ℕ × Disk

abbrev pub missing : List ℕ → List ℕ
missing cmd = cmd ++ codes ": missing file operand\n"

abbrev pub missing_destination : List ℕ → List ℕ → List ℕ
missing_destination cmd name =
    cmd ++ (codes ": missing destination file operand after '" ++ (name ++ codes "'\n"))

-- What `open` of the source prints, and what is read from it once the destination is open. A read
-- from the descriptor -1 fails.
abbrev pub complaint : Found → List ℕ
complaint (bytes s) = []
complaint (fails e) = print_err (codes "cp") e

abbrev pub copied : Found → Found → List ℕ
copied (bytes s) (bytes t) = whole (cp (suc (length t)) t)
copied others found = []

-- `denied` is why a name cannot be opened for writing, if it cannot. The destination is emptied by
-- `open`, also where the source could not be opened.
abbrev pub copy_to : Option Errno → Disk → List ℕ → List ℕ → Done
copy_to (some e) disk src dest = (complaint (disk src) ++ print_err (codes "cp") e, disk)
copy_to none disk src dest =
    let opened = put disk dest (bytes []) in
    (complaint (disk src), put opened dest (bytes (copied (disk src) (opened src))))

unfoldable pub cp_main : (List ℕ → Option Errno) → Disk → List (List ℕ) → Done
unfolding put cp print_err
cp_main denied disk [] = (missing (codes "cp"), disk)
cp_main denied disk (src ∷ []) = (missing_destination (codes "cp") src, disk)
cp_main denied disk (src ∷ dest ∷ more) = copy_to (denied dest) disk src dest

-- The text behind the last slash.
unfoldable pub behind_slash : List ℕ → Option (List ℕ)
behind_slash [] = none
behind_slash (c ∷ s) = elim (behind_slash s) [
  | some name ↦ some name
  | none ↦ if c == b'/' then some s else none
]

abbrev pub base_of : List ℕ → Option (List ℕ) → List ℕ
base_of path none = path
base_of path (some name) = name

abbrev pub ends_in_slash : List ℕ → Bool
ends_in_slash [] = false
ends_in_slash (c ∷ []) = c == b'/'
ends_in_slash (c ∷ d ∷ s) = ends_in_slash (d ∷ s)

-- Where `mv` moves a file to, if `stat` says that it is a file and the destination a directory.
unfoldable pub mv_target : Bool → List ℕ → List ℕ → List ℕ
unfolding behind_slash
mv_target into src dest =
    let name = base_of src (behind_slash src) in
    let path = if ends_in_slash dest then dest ++ name else dest ++ (b'/' ∷ name) in
    if into then path else dest

-- `rename`, which does nothing where both names are the same.
abbrev pub rename : Option Errno → Disk → List ℕ → List ℕ → Done
rename (some e) disk src dest = (print_err (codes "mv") e, disk)
rename none disk src dest =
    ([], if same src dest then disk else put (put disk dest (disk src)) src (fails enoent))

-- `is_file` and `is_directory` are what `stat` says, where it succeeds; `denied` is why a name cannot
-- be renamed to another, if it cannot.
unfoldable pub mv_main :
    (List ℕ → Bool)
    → (List ℕ → Bool)
    → (List ℕ → List ℕ → Option Errno)
    → Disk
    → List (List ℕ)
    → Done
unfolding mv_target put print_err
mv_main is_file is_directory denied disk [] = (missing (codes "mv"), disk)
mv_main is_file is_directory denied disk (src ∷ []) = (missing_destination (codes "mv") src, disk)
mv_main is_file is_directory denied disk (src ∷ dest ∷ more) =
    let target = mv_target (is_file src && is_directory dest) src dest in
    rename (denied src target) disk src target

abbrev pub unlink : Option Errno → Disk → List ℕ → Done
unlink (some e) disk name = (print_err (codes "rm") e, disk)
unlink none disk name = ([], put disk name (fails enoent))

unfoldable pub rm_main : (List ℕ → Option Errno) → Disk → List (List ℕ) → Done
unfolding put print_err
rm_main denied disk [] = (codes "rm: missing operand\n", disk)
rm_main denied disk (name ∷ more) = unlink (denied name) disk name
