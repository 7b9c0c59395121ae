-- ===== src/Shell/Stages.antt =====
-- The processes that `main` of pa2/main.c starts for the commands of a line: what each of them reads
-- and writes through the two pairs `fd1` and `fd2`, and which ends of pipes are open where. The pipe
-- that is made for the `i`th command has the number `i`.
pub mod Wiring
use systemprogramminglab.Prelude.{
  ℕ, zero, suc, ◌+◌, ◌%◌, Bool, true, false, not, ◌&&◌, Option, none, some, List, [], ◌∷◌, ◌++◌,
  ◌==◌, if◌then◌else◌, length, codes,
}
use systemprogramminglab.Shell.Command.{
  Kind, commandline, pipeline, commands, command, executable, implement, builtin, path, unknown,
  Command, Redirects,
}

-- The pipes in `fd1` and `fd2`, where `none` is -1, and the pipes of which the shell has the end
-- for reading and the end for writing open.
pub record Pipes : Type 0 where
  pub fd1 : Option ℕ
  pub fd2 : Option ℕ
  pub reads : List ℕ
  pub writes : List ℕ

pub data Source : Type 0 where
  terminal : Source
  from_pipe : ℕ → Source
  from_file : List ℕ → Source

pub data Sink : Type 0 where
  screen : Sink
  to_pipe : ℕ → Sink
  truncating : List ℕ → Sink
  appending : List ℕ → Sink

-- A child: the program that it becomes, if it does, its input and output, and the pipes whose end
-- for writing it still has besides its output.
pub record Child : Type 0 where
  pub program : Option (List ℕ)
  pub args : List (List ℕ)
  pub input : Source
  pub output : Sink
  pub writes : List ℕ

abbrev pub is_odd : ℕ → Bool
is_odd i = not (i % 2 == 0)

-- `pipe(fd2)` or `pipe(fd1)`
unfoldable pub make_pipe : ℕ → Pipes → Pipes
make_pipe i p = record {
  fd1 = if is_odd i then p.fd1 else some i;
  fd2 = if is_odd i then some i else p.fd2;
  reads = i ∷ p.reads;
  writes = i ∷ p.writes;
}

-- The pairs that the `i`th command reads from and writes to.
abbrev pub pair_in : ℕ → Pipes → Option ℕ
pair_in i p = if is_odd i then p.fd1 else p.fd2

abbrev pub pair_out : ℕ → Pipes → Option ℕ
pair_out i p = if is_odd i then p.fd2 else p.fd1

unfoldable pub close : Option ℕ → List ℕ → List ℕ
close none ends = ends
close (some i) [] = []
close (some i) (j ∷ ends) = let rest = close (some i) ends in if j == i then ends else j ∷ rest

-- `dup2`, which fails and changes nothing for -1.
abbrev pub source_of : Option ℕ → Source
source_of none = terminal
source_of (some i) = from_pipe i

abbrev pub sink_of : Option ℕ → Sink
sink_of none = screen
sink_of (some i) = to_pipe i

abbrev pub file_in : Option (List ℕ) → Source → Source
file_in none s = s
file_in (some f) s = from_file f

abbrev pub file_out : Option (List ℕ) → Option (List ℕ) → Sink → Sink
file_out (some f) append s = truncating f
file_out none (some f) s = appending f
file_out none none s = s

-- What `execv` is given; a name that is too long for the array is not considered.
abbrev pub program_path : List ℕ → Kind → List ℕ → Option (List ℕ)
program_path directory commandline w = none
program_path directory pipeline w = none
program_path directory commands w = none
program_path directory command w = none
program_path directory executable w = some (codes "/bin/" ++ w)
program_path directory implement w = some (directory ++ (b'/' ∷ w))
program_path directory builtin w = none
program_path directory path w = some w
program_path directory unknown w = none

abbrev pub first_arg : List (List ℕ) → List ℕ
first_arg [] = []
first_arg (w ∷ ws) = w

-- Whether the `i`th of `n` commands writes to a pipe.
abbrev pub is_piped : ℕ → ℕ → Bool
is_piped i n = not (n == 1) && not (suc i == n)

-- The child for the `i`th of `n` commands.
unfoldable pub child : List ℕ → Redirects → ℕ → ℕ → Pipes → Command → Child
unfolding close
child directory r n i p c = record {
  program = program_path directory c.kind (first_arg c.args);
  args = c.args;
  input = if i == 0 then file_in r.input terminal else source_of (pair_in i p);
  output =
      let piped = if is_piped i n then sink_of (pair_out i p) else screen in
      if suc i == n then file_out r.output r.append piped else piped;
  writes = if is_piped i n then close (pair_out i p) p.writes else p.writes;
}

-- What the shell does once the child has ended.
unfoldable pub close_ends : ℕ → ℕ → Pipes → Pipes
unfolding close
close_ends n i p = record p {
  reads = if i == 0 then p.reads else close (pair_in i p) p.reads;
  writes = if is_piped i n then close (pair_out i p) p.writes else p.writes;
}

-- The loop over the commands from the `i`th on.
unfoldable pub start_children : List ℕ → Redirects → ℕ → ℕ → Pipes → List Command → List Child
unfolding make_pipe child close_ends
start_children directory r n i p [] = []
start_children directory r n i p (c ∷ cs) =
    child directory r n i (make_pipe i p) c
    ∷ start_children directory r n (suc i) (close_ends n i (make_pipe i p)) cs

abbrev pub no_pipes : Pipes
no_pipes = record { fd1 = none; fd2 = none; reads = []; writes = [] }

unfoldable pub run_commands : List ℕ → Redirects → List Command → List Child
unfolding start_children
run_commands directory r cs = start_children directory r (length cs) 0 no_pipes cs
