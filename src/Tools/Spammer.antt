-- ===== src/Tools/Spammer.antt =====
-- The spammer of crates/ro-tools-core/src/spammer: keys, configuration and engine.
pub mod Keys
pub mod Config
pub mod Repeats
pub mod Normalized
pub mod Rules
pub mod Engine
pub mod Tests
