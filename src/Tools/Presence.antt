-- ===== src/Tools/Presence.antt =====
-- crates/ro-tools-core/src/presence.rs: where a client keeps its character, and reading it. The JSON
-- decoding is serde's; a snapshot leaves out the instant at which it was taken.
pub mod Layout
pub mod Snapshot
pub mod Tests
pub mod MapNames
pub mod Reading
