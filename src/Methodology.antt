-- ===== src/Methodology.antt =====
-- The methodology execution runtime: a pointer that says where a component stands in the method.
pub mod Records
pub mod Store
pub mod State
pub mod Projection
pub mod Tests
