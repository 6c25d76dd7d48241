-- ===== src/Policy.antt =====
-- The policies of packages/paa-core/src/paa_core/policies: pure decisions that the runtime services
-- ask for. One module for each policy; what is proved of a policy stands in its child.
pub mod Transition
pub mod Acceptance
pub mod Recovery
pub mod Capability
mod Tests
