-- ===== src/Server.antt =====
-- The server, src/gnugold/server.
pub mod Options
pub mod Loop
pub mod Replies
pub mod Dummy
pub mod Listening
