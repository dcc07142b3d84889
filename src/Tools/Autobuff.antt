-- ===== src/Tools/Autobuff.antt =====
-- AutoBuff of crates/ro-tools-core/src/autobuff: configuration and engine.
pub mod Config
pub mod Engine
pub mod Choice
pub mod Tests
