-- ===== src/Runtime.antt =====
-- runtime/context.rs: the stores that all requests share.
pub mod Clock
pub mod Lru
pub mod RateLimit
pub mod Cache
mod Tests
