-- ===== src/Handy.antt =====
-- src/common/handy.c.
pub mod Entities
pub mod Strip
pub mod Request
