-- ===== src/Server.antt =====
-- server.rs: the parts that the server computes itself.
pub mod Flags
pub mod Modules
pub mod Respond
pub mod Runtime
pub mod Static
