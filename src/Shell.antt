-- ===== src/Shell.antt =====
-- pa2/main.c: the shell, from a line of input to the programs that it starts and what each of them
-- reads and writes. `none` is an access through NULL or outside an array.
pub mod Pipelines
pub mod Command
pub mod Stages
pub mod Line
pub mod Directory
pub mod Commands
mod Tests
