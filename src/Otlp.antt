-- ===== src/Otlp.antt =====
-- crates/af-otlp: log records become events.
pub mod Record
pub mod Outcome
pub mod GenAi
pub mod Codex
pub mod Normalize
pub mod Authority
pub mod Groups
pub mod Server
pub mod Laws
