-- ===== src/Queue.antt =====
-- The runtime queues: intake of packets (runtime/orchestration), the envelopes they travel in, the
-- claim ledger and the host adapters (runtime/transport, runtime/hosts/techlead.py) and
-- the queue admin service.
mod Tests
pub mod Models
pub mod Packet
pub mod Claim
pub mod Ledger
pub mod Host
pub mod Envelope
pub mod Retry
pub mod Controller
pub mod Admin
pub mod Runtime
