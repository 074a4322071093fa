-- ===== src/TestRunner.antt =====
-- test_runner.rs: the parts that the test runner computes itself.
pub mod Mocks
