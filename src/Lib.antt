-- ===== src/Lib.antt =====
-- Agentic Footprint: a verification library for the core of the program in crates/.
--
-- The program reads what coding agents do and what it costs. Collectors append events as JSON lines
-- to a spool. An ingest pass tails each spool file from the offset that the store remembers, parses
-- and deduplicates its events and moves the offset. A rebuild then derives everything else from the
-- raw events: it estimates the impact of each `llm_call` through a sidecar process, correlates the
-- `action_span`s of a session into a tree, divides the measured energy among the spans, and writes
-- one impact join per tool call, task and session.
--
-- Files and what they model:
--   Events           crates/af-events/src/lib.rs, the event types
--   Events/Parse     the same file, parse_line, parse_line_preserving_unknown, parse_opaque
--   Events/Validate  crates/af-events/src/validate.rs, reject reasons and the version test
--   Spool/Name       crates/af-spool/src/lib.rs, spool_file_name and parse_spool_filename
--   Spool/Tail       crates/af-spool/src/tail.rs, tail and count_lines_before
--   Store, Store/*   crates/af-store/src/{raw,derived}.rs, one function per statement
--   Correlate        crates/af-core/src/correlate.rs, Span, SessionTree, correlate
--   Attribution/*    crates/af-core/src/attribution.rs: Types has the results, Weights cpu_weights,
--                    Sample the division of one sample, Run the loop of apportion_traced
--   Estimate         crates/af-core/src/estimate.rs, estimate_events and what it calls
--   Join/*           crates/af-core/src/join.rs: Coverage, Criteria, Remote, Local, and Units for
--                    build_joins
--   Replay           crates/af-core/src/replay.rs, rebuild_derived, rebuild_joins
--   Ingest           crates/af-cli/src/cmd/ingest.rs, ingest_files
--   Sanitize         crates/af-otlp/src/sanitize.rs, sanitize_id
--   OpenCode/*       crates/af-cli/src/cmd/opencode.rs: Normalize and Settle have the Normalizer, Stream
--                    what collect_reader and process_event do, Live the loop of collect_live, Paths
--                    the names of files and the encoding in a URL
--   Otlp/*           crates/af-otlp/src/normalize.rs and normalize/*.rs: Record, Outcome (with Claude
--                    Code's), GenAi, Codex with its provider cache, and Normalize for the registry;
--                    crates/af-otlp/src/server.rs: Authority, Groups and Server for handle_request
--   Watch/*          crates/af-cli/src/cmd/watch.rs: Bounded has BoundedSet, Sampler the retirement of
--                    sessions and the sampler's life, Supervise the pass over them
--   Hook, Hook/*     crates/af-cli/src/cmd/hook.rs, handle, close_span and classify_tool
-- Prelude has the shared helpers, Samples the concrete data and Tests/* the theorems run on them. The
-- other files hold proofs.
--
-- State. The store is a record of its tables as lists of rows; a statement is a function on it. A
-- loop's mutable variables are a record that its body maps to the next. A call that can fail returns
-- a Result beside the state that it leaves.
--
-- Parameters, for what is not in the repository: the `f64` operations (Float; the laws of IsExact
-- hold of exact numbers, and Float/Fixed is an instance), `serde_json::Value` (Json; Json/Tree is an
-- instance), the JSON parser, the compiled JSON Schema, the derived deserializers (Decoder), the RFC
-- 3339 parser (parse_nanos) and `from_utf8_lossy` (decode). The sidecar is a request function on a
-- state of its own. The printer rfc3339_ms is a parameter too. A HashMap is read in key order.
-- The OpenCode collector takes the dates, SHA-256 and the Unicode lower case (Library), its files and
-- derived codecs (Files; FilesLaws says that a cursor that was written is read back) and the server's
-- answers; the OTLP receiver its dates, the default hasher and the version of the build (Library), its
-- files and the reading of a body (Machine); the resident mode takes the sampler process (Sidecar)
-- and the machine (Machine); the hook its clock, its event ids and its files (World).
--
-- Bounds. An `i64` is an unbounded integer here: the code subtracts and compares times only, which
-- come from parsed RFC 3339 dates and so are far from the limits. Offsets and counters are natural
-- numbers. The loop of `tail` runs on fuel, one more than the bytes that it reads, and each round
-- takes a byte at least; `count_chunks` runs on one more than the bytes that it counts, and each
-- round that goes on takes one at least. The loop of `collect_live` does not end; the model gives its
-- state after a number of rounds. Instants are numbers of nanoseconds, and a counter of failures
-- stops at the largest `u32`.
--
-- Not modelled: failures of SQLite and of the file system, listing directories, quarantine files,
-- durations, the HTTP server and its threads, the processes themselves, the jitter of a pause, the
-- debug frames and the health payload, the other commands, the consoles.
pub mod Prelude
pub mod Float
pub mod Events
pub mod Correlate
pub mod Attribution
pub mod Json
pub mod Join
pub mod Spool
pub mod Store
pub mod Sanitize
pub mod Estimate
pub mod Replay
pub mod Ingest
pub mod OpenCode
pub mod Watch
pub mod Otlp
pub mod Hook
pub mod Samples
pub mod Tests
