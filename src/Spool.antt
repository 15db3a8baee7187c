-- ===== src/Spool.antt =====
-- crates/af-spool: the incremental reader of the JSONL spool.
pub mod Name
pub mod Tail
pub mod Frames
pub mod Lines
pub mod Reading
pub mod Count
pub mod Resume
pub mod Again
