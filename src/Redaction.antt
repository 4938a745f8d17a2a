-- ===== src/Redaction.antt =====
-- runtime/crates/nixfied-runtime/src/redaction.rs: the redactor and the capture relay.
-- `Redactor` has the patterns and the scan, `Relay` the capture loop, `Spec` the meaning of a
-- redaction; the other modules are proofs and tests.
pub mod Redactor
pub mod Spec
pub mod Order
pub mod Scan
pub mod Chunks
pub mod Relay
pub mod Streams
pub mod Guarantees
mod Tests
