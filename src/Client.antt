-- ===== src/Client.antt =====
-- src/clients/gnugol.c.
pub mod Options
pub mod Setup
pub mod Environ
pub mod Main
