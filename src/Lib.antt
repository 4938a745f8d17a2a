-- ===== src/Lib.antt =====
-- Nixfied's runtime: a verification of the core that decides, apart from the operating system.
--
-- A generated manifest is decoded and validated, lowered into an executable program, and the
-- planner turns a selected task of that program into a run plan: the services that the task needs,
-- in the order in which they start, each endpoint with a port of the selected slot's window, and the
-- task's leaves in the order in which they run. Arguments and environment values of the invocations
-- are authored text with placeholders, and the output of every started process goes through a
-- redactor before it reaches a log file.
--
-- Prelude: shared names, Boolean tests, byte texts, results, searches, and sets and maps as sorted
--   lists. A text is the list of its bytes (its characters where the source reads characters); a
--   `BTreeSet` or `BTreeMap` is its elements in the order in which it iterates them.
-- Manifest: runtime/crates/nixfied-manifest/src. `Types` is generated/types.rs, `UniqueVec` is
--   unique_vec.rs, `Errors` is error.rs; `Ids`, `Placements`, `Units`, `Tasks` and `Validate` are
--   validation.rs. `Distinct` has the proofs on distinct lists, `Apart` and `Windows` those on the
--   port windows of the slots. A manifest is a record, a failed check the first error in the
--   source's order; a panicking map access is the error `index_panic`.
-- Slot: runtime/crates/nixfied-runtime/src/slot.rs, the selection of a slot; `Selected` is the proof.
-- Template: runtime/crates/nixfied-runtime/src/template.rs. `Tokens` is `tokenize`, `Parse` is
--   `Scope::endpoint` and `Template::parse`; `Render`, `Roundtrip` and `Scoped` are proofs.
-- Execution: runtime/crates/nixfied-runtime/src/execution. `Types` is types.rs; `Schedule`,
--   `Flatten`, `Graph` and `Plan` are `plan_program` of plan.rs with all that it calls, and `Admit`
--   is `prove_graph` and `prove_capacity` of plan.rs. `Order`, `Startup`, `Closure`, `Worklist`,
--   `Ports`, `Binding`, `Bases`, `Demand`, `Admitted`, `Closed`, `Emission`, `Leaves`, `Acyclic`,
--   `Admission`, `Capacity`, `Search`, `Cycles`, `Progress`, `Scheduled` and `Planned` are proofs.
-- Lower: runtime/crates/nixfied-runtime/src/execution/lower.rs, with `invocations` of mod.rs.
--   `References` is `prove_references`, `Resolve` the invocation resolver, `Services`, `Tasks` and
--   `Program` are the structural map and `lower`; `Paths` is what they use of `std::path` on Unix, and
--   `Errors` their errors, with a failed `expect` as `panic`. The others are proofs: `Validated`,
--   `Declared`, `Operations` and `Kept` say what each stage leaves behind, `Resolved` what an accepted
--   invocation is, `Confined` and `Parents` what its paths are, `Plans` what the planner makes of a lowered
--   program, and `Refusals`, `Checks`, `Expected`, `Totality` and `Total` what a lowering can fail with.
-- Redaction: runtime/crates/nixfied-runtime/src/redaction.rs. `Redactor` is `from_secrets` and the
--   scans, `Relay` is `redact_stream_with_poll` with its poll, read and write outcomes as a list of
--   rounds, `Spec` an independent description of a redaction; the others are proofs.
-- Channel: runtime/crates/nixfied-runtime/src/channel.rs. `Frame` is `Protocol::encode` and
--   `FrameReader::expected`, `Socket` the answers of the operating system to a call, `Reader`
--   `FrameReader::step` and `Protocol::read`, and `Writer` `write_all` and `read_eof`. A socket is the
--   list of the bytes that its peer sends before it closes. `Rounds`, `Roundtrip`, `Whole`, `Header`,
--   `Sound` and `Written` are proofs.
-- Readiness: runtime/crates/nixfied-runtime/src/service/readiness.rs. `Round` is `CheckingRound`
--   with `begin`, `record` and `complete`, `Completed` is the proof. The witnesses of service/endpoint.rs
--   are values of any type with a test for equality.
--
-- Fuel. The tokenizer's loop has one round more than the text has bytes, and a round moves the
-- cursor by at least two. A scan has fuel for every byte of its input, and consumes one at least.
-- The two dependency-first loops have the number of elements, and each round removes one. The
-- worklist of the service union takes one pending id in a round, and an id that becomes pending is a
-- service that the union lacked. `emit` has the number of tasks and two more, since its path of
-- composites holds each task once, and the cycle search the number of services and two more. Running
-- out is everywhere an outcome apart from the source's errors. The loops over a socket have one round
-- for each answer of the operating system, and without an answer they go on waiting.
--
-- Not modelled: admission's file system checks, the registry in SQLite, processes, sockets
-- and signals, state directories, the session protocol and the command line. The digest in the
-- runtime's ABI is computed by third-party code and is an argument of `validate`. Rendered error
-- messages are constructors with the values that they show.
mod Prelude
pub mod Redaction
pub mod Template
pub mod Manifest
pub mod Slot
pub mod Execution
pub mod Lower
pub mod Channel
pub mod Readiness
