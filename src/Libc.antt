-- ===== src/Libc.antt =====
-- What the sources use of the C library on text: `%d` of printf and `strtol` in base ten.
pub mod Decimal
pub mod Texts
