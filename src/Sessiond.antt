-- ===== src/Sessiond.antt =====
-- crates/ro-sessiond: the process that supervises the programs of one Wine prefix.
pub mod Launch
pub mod Supervisor
pub mod LineReader
pub mod Handshake
pub mod MainLoop
pub mod Turns
pub mod Ending
pub mod LoopTests
pub mod Commands
pub mod Tables
pub mod Soundness
pub mod Branches
pub mod Waits
pub mod Traces
pub mod Silence
pub mod Stopped
pub mod Phases
pub mod Acceptance
pub mod Ownership
pub mod Escalation
pub mod Tests
