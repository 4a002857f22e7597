-- ===== src/Clib.antt =====
-- What the program uses of the C library: `strcmp`, `bsearch`, `strtoul`, `snprintf`,
-- `strstr` and `strsep`.
pub mod Search
pub mod Number
pub mod Printf
pub mod Strings
