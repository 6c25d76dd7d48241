-- ===== src/Decision.antt =====
-- The decision services of the TechLead (services/techlead_*_decision): from the resolved runtime
-- context of a slice to a supported decision or a rejection that says why.
mod Tests
pub mod Actions
pub mod Recovery
pub mod Review
pub mod Acceptance
