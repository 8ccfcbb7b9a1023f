-- ===== src/Content.antt =====
-- What messages and agents carry: crates/fipa-wasm-agents/src/content.
pub mod Block
