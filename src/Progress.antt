-- ===== src/Progress.antt =====
-- services/implementation_plan_progress: the progress of an implementation plan and the activity
-- that comes next.
mod Tests
pub mod Models
pub mod Groups
pub mod Classify
pub mod Next
pub mod Summary
pub mod Service
