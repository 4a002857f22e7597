-- ===== src/Engines.antt =====
-- src/common/engines.c.
pub mod Load
pub mod Key
pub mod Query
pub mod Held
