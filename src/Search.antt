-- ===== src/Search.antt =====
-- The word search program of pa1: its text functions, the line index of a file, its input and its
-- four kinds of query.
pub mod Text
pub mod Number
pub mod Index
pub mod Run
pub mod Input
pub mod Query
pub mod Main
mod Tests
