-- ===== src/Executor.antt =====
-- The executor.
pub mod Error
pub mod Modules
pub mod Context
pub mod Env
pub mod Shown
pub mod Tags
pub mod Resolver
pub mod State
pub mod Tasks
pub mod Step
pub mod Nested
pub mod Run
pub mod Example
mod Tests
