-- ===== src/Planning.antt =====
-- The derivation of implementation plans and the tables that keep them.
pub mod Records
pub mod Store
pub mod Updates
pub mod Derivation
pub mod Tests
