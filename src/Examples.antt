-- ===== src/Examples.antt =====
-- Concrete sets, lexgions and processes, and the theorems applied to them.
pub mod Fixtures
pub mod Sets
pub mod Probes
pub mod Lexgions
pub mod Windows
pub mod Roles
pub mod Parsing
