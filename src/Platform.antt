-- ===== src/Platform.antt =====
-- The platform's agents in crates/fipa-wasm-agents/src/platform.
pub mod Ams
pub mod Df
