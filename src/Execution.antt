-- ===== src/Execution.antt =====
-- runtime/crates/nixfied-runtime/src/execution: the executor's input and the run plan.
pub mod Types
pub mod Schedule
pub mod Order
pub mod Flatten
pub mod Graph
pub mod Plan
pub mod Admit
pub mod Bases
pub mod Demand
pub mod Admitted
pub mod Ports
pub mod Binding
pub mod Closure
pub mod Worklist
pub mod Closed
pub mod Emission
pub mod Leaves
pub mod Acyclic
pub mod Search
pub mod Cycles
pub mod Progress
pub mod Scheduled
pub mod Planned
pub mod Admission
pub mod Capacity
pub mod Startup
mod Tests
