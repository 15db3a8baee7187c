-- ===== src/Tests/Framing.antt =====
-- The loop of crates/af-spool/src/tail.rs at a concrete input.
use agentic_footprint.Prelude.{suc, ◌≡◌, length, arith}
use agentic_footprint.Spool.Tail.{read_lines, start}
use agentic_footprint.Spool.Frames.{frame, read_all, read_lines-eq-foldl}
use agentic_footprint.Samples.{decode, parse, content}

read_lines-eq-foldl_example :
    read_lines decode parse (suc (length content)) 0 content start
    ≡ read_all decode parse 0 start (frame content).0
read_lines-eq-foldl_example =
    read_lines-eq-foldl decode parse 0 (suc (length content)) content start (omega arith)
