-- ===== src/Security.antt =====
-- Access control: crates/fipa-wasm-agents/src/security.
pub mod Permissions
pub mod Policy
