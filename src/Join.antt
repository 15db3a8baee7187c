-- ===== src/Join.antt =====
-- crates/af-core/src/join.rs: the `impact_join` records of one session.
pub mod Coverage
pub mod Criteria
pub mod Remote
pub mod Local
pub mod Combined
pub mod Units
