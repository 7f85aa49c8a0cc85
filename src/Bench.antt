-- ===== src/Bench.antt =====
-- The checks of lib/bench that compare a running server with itself: the script language they share,
-- and one child for each check.
pub mod Script
pub mod Server
pub mod Numbers
pub mod Boundaries
pub mod Branches
pub mod Consistency
pub mod ContextCache
pub mod ApiCheck
