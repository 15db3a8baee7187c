-- ===== src/Attribution.antt =====
-- crates/af-core/src/attribution.rs: machine energy samples over the correlated spans.
pub mod Types
pub mod Weights
pub mod Sample
pub mod Run
pub mod Sums
pub mod Conservation
pub mod Traces
