-- ===== src/Manifest.antt =====
-- runtime/crates/nixfied-manifest: the manifest's data, its identifiers and its validation.
-- `Types` has the data, `UniqueVec` the distinct lists, `Errors` to `Validate` the checks of
-- validation.rs, one file for each group; the others are proofs and tests.
pub mod UniqueVec
pub mod Types
pub mod Errors
pub mod Ids
pub mod Placements
pub mod Units
pub mod Tasks
pub mod Validate
pub mod Distinct
pub mod Apart
pub mod Windows
mod Tests
