-- ===== src/Middleware.antt =====
-- middleware/: the parts of middleware that the program computes itself.
pub mod RateLimit
pub mod Assert
pub mod Cache
pub mod Validate
mod Tests
