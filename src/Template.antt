-- ===== src/Template.antt =====
-- runtime/crates/nixfied-runtime/src/template.rs: the placeholder grammar of authored texts.
-- `Tokens` has the tokenizer, `Parse` the scoped parse into pieces; the others are proofs and tests.
pub mod Tokens
pub mod Render
pub mod Roundtrip
pub mod Parse
pub mod Scoped
mod Tests
