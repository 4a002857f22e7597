-- ===== src/Format.antt =====
-- src/common/format.c and src/include/formats.h: the buffers of a query, its header and footer, and
-- the lines of its results.
pub mod Buffers
pub mod Options
pub mod Tables
pub mod Lines
pub mod Keeps
