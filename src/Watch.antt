-- ===== src/Watch.antt =====
-- crates/af-cli/src/cmd/watch.rs: the parts of the resident mode that decide.
pub mod Bounded
pub mod Sampler
pub mod Supervise
pub mod Laws
pub mod Reach
pub mod Retire
