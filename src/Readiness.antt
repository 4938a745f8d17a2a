-- ===== src/Readiness.antt =====
-- runtime/crates/nixfied-runtime/src/service/readiness.rs: a checking round, which collects one
-- successful probe for each endpoint and is completed with what was observed after them. A witness is
-- of any type; `Round` has the operations, `Completed` what they promise.
pub mod Round
pub mod Completed
mod Tests
