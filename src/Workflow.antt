-- ===== src/Workflow.antt =====
-- Workflow truth: the tables of the repositories, and the lifecycle service that moves a work item
-- from stage to stage (runtime/workflow/workflow_lifecycle).
mod Tests
pub mod Records
pub mod Store
pub mod Models
pub mod Evaluate
pub mod Lifecycle
pub mod Apply
