-- ===== src/Tests.antt =====
-- Concrete parameters for the tests: a world, the calls on it, and the crates' functions.
pub mod World
pub mod Witnesses
