-- ===== src/Tools.antt =====
-- crates/ro-tools-core: the domain of the helper tools, with no operating system in it.
pub mod Ports
pub mod Hex
pub mod Autopot
pub mod Spammer
pub mod Autobuff
pub mod Profiles
pub mod Presence
pub mod Tests
