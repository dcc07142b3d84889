-- ===== src/Tools/Autopot.antt =====
-- crates/ro-tools-core/src/autopot: the configuration and the engine that drinks potions.
pub mod Config
pub mod Engine
pub mod Thresholds
pub mod Reference
pub mod Invariant
