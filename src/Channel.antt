-- ===== src/Channel.antt =====
-- runtime/crates/nixfied-runtime/src/channel.rs: frames over a nonblocking socket. `Frame` is the
-- format, `Socket` what the operating system answers to a call, `Reader` and `Writer` the loops; the
-- others are proofs and tests.
pub mod Frame
pub mod Socket
pub mod Reader
pub mod Writer
pub mod Rounds
pub mod Header
pub mod Roundtrip
pub mod Whole
pub mod Written
pub mod Sound
mod Tests
