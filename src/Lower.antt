-- ===== src/Lower.antt =====
-- runtime/crates/nixfied-runtime/src/execution/lower.rs: the total lowering of a validated manifest
-- into the program that the planner takes. `Paths` is what it uses of `std::path`, `Errors` its
-- errors, `References` `prove_references`, `Resolve` the invocation resolver, `Services` and `Tasks`
-- the structural map, `Program` `lower`; the others are proofs and tests.
pub mod Paths
pub mod Confined
pub mod Parents
pub mod Errors
pub mod References
pub mod Resolve
pub mod Services
pub mod Tasks
pub mod Program
pub mod Validated
pub mod Refusals
pub mod Declared
pub mod Checks
pub mod Expected
pub mod Totality
pub mod Resolved
mod Tests
pub mod Kept
pub mod Total
pub mod Plans
pub mod Operations
