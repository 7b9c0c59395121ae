-- ===== src/Shell/Stages/Wiring.antt =====
-- The commands of a line stand in a chain.
use systemprogramminglab.Prelude.{
  ℕ, zero, suc, ◌+◌, ◌-◌, ◌≡◌, ◌<◌, refl, ap, some, List, [], ◌∷◌, ◌==◌, if◌then◌else◌, length,
  arith,
}
use systemprogramminglab.Shell.Command.{Command, Redirects}
use systemprogramminglab.Shell.Stages.{
  Pipes, terminal, from_pipe, screen, to_pipe, Child, make_pipe, pair_in, close, file_in, file_out,
  program_path, first_arg, child, close_ends, start_children, no_pipes, run_commands,
}

-- The child for the `i`th of `n` commands: it reads the pipe in front of it and writes the one
-- behind it; the first reads and the last writes where the line says. The last has the end for
-- writing of a pipe of its own that nothing reads, the others have no such end besides their output.
unfoldable pub chained : List ℕ → Redirects → ℕ → ℕ → Command → Child
chained directory r n i c = record {
  program = program_path directory c.kind (first_arg c.args);
  args = c.args;
  input = if i == 0 then file_in r.input terminal else from_pipe (i - 1);
  output = if suc i == n then file_out r.output r.append screen else to_pipe i;
  writes = if suc i == n then i ∷ [] else [];
}

unfoldable pub chain_from : List ℕ → Redirects → ℕ → ℕ → List Command → List Child
unfolding chained
chain_from directory r n i [] = []
chain_from directory r n i (c ∷ cs) =
    chained directory r n i c ∷ chain_from directory r n (suc i) cs

-- Before the `i`th command only the end for reading of the last pipe is open.
abbrev Before : ℕ → Pipes → Type 0
Before zero p = (p.reads ≡ []) × (p.writes ≡ [])
Before (suc i) p = (pair_in (suc i) p ≡ some i) × ((p.reads ≡ i ∷ []) × (p.writes ≡ []))

child-chained :
    (directory : List ℕ) (r : Redirects) (n i : ℕ) (p : Pipes) (c : Command)
    → i < n
    → Before i p
    → child directory r n i (make_pipe i p) c ≡ chained directory r n i c
unfolding child chained make_pipe close
child-chained directory r n zero p c h b = ground (arith, b.0, b.1)
child-chained directory r n (suc i) p c h b = ground (arith, b.0, b.1.0, b.1.1)

close_ends-Before :
    (n i : ℕ) (p : Pipes) → suc i < n → Before i p → Before (suc i) (close_ends n i (make_pipe i p))
unfolding close_ends make_pipe close
close_ends-Before n zero p h b = (refl, (ground (arith, b.0), ground (arith, b.1)))
close_ends-Before n (suc i) p h b =
    (ground (arith, b.0), (ground (arith, b.0, b.1.0), ground (arith, b.1.1)))

start_children_chained :
    (directory : List ℕ) (r : Redirects) (n i : ℕ) (p : Pipes) (cs : List Command)
    → i + length cs ≡ n
    → Before i p
    → start_children directory r n i p cs ≡ chain_from directory r n i cs
unfolding start_children chain_from
start_children_chained directory r n i p [] e b = refl
start_children_chained directory r n i p (c ∷ []) e b =
    rw (child-chained directory r n i p c (omega arith) b) refl
start_children_chained directory r n i p (c ∷ d ∷ cs) e b =
    rw (child-chained directory r n i p c (omega arith) b) (
      ap (λ t. chained directory r n i c ∷ t)
        (start_children_chained directory r n (suc i) (close_ends n i (make_pipe i p)) (d ∷ cs)
          (omega arith) (close_ends-Before n i p (omega arith) b)))

-- The children of a line stand in a chain: each reads the pipe that the one in front of it writes,
-- the first reads and the last writes where the line says, and no child has an end for writing of
-- the pipe that it reads.
pub run_commands_lem :
    (directory : List ℕ) (r : Redirects) (cs : List Command)
    → run_commands directory r cs ≡ chain_from directory r (length cs) 0 cs
unfolding run_commands
run_commands_lem directory r cs =
    start_children_chained directory r (length cs) 0 no_pipes cs (omega arith) (refl, refl)
