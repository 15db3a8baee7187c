-- ===== src/Ingest.antt =====
-- crates/af-cli/src/cmd/ingest.rs: spool files are tailed into the store.
pub mod Laws
use agentic_footprint.Prelude.{
  ℕ, ◌+◌, ◌-◌, String, Bool, not, List, [], ◌∷◌, ◌++◌, map, length, is_empty, ◌==◌, if◌then◌else◌,
}
use agentic_footprint.Events.{Envelope}
use agentic_footprint.Events.Validate.{RejectReason, Result, ok, err}
use agentic_footprint.Events.Parse.{ParsedLine}
use agentic_footprint.Spool.Name.{SpoolFile}
use agentic_footprint.Spool.Tail.{RejectedLine, TailResult, tail}
use agentic_footprint.Store.{Store, Source}
use agentic_footprint.Store.Raw.{get_offset, set_offset, insert_events, insert_opaque_events}

pub record RejectRecord (P : Type 0) : Type 0 where
  pub reason : RejectReason
  pub origin : SpoolFile P
  pub line : ℕ
  pub byte_offset : ℕ
  pub raw : String

pub record IngestFileState (P : Type 0) : Type 0 where
  pub collector : String
  pub session_id : String
  pub path : P
  pub offset : ℕ

-- The counters; the durations are not modelled.
pub record IngestMetrics : Type 0 where
  pub files_opened : ℕ
  pub bytes_read : ℕ
  pub complete_lines : ℕ
  pub partial_lines : ℕ
  pub events_parsed : ℕ
  pub events_inserted : ℕ
  pub events_deduplicated : ℕ
  pub opaque_events_parsed : ℕ
  pub opaque_events_inserted : ℕ
  pub offset_reads : ℕ
  pub offset_writes : ℕ
  pub unchanged_offset_writes_skipped : ℕ
  pub empty_insert_batches : ℕ

abbrev pub no_metrics : IngestMetrics
no_metrics = record {
  files_opened = 0;
  bytes_read = 0;
  complete_lines = 0;
  partial_lines = 0;
  events_parsed = 0;
  events_inserted = 0;
  events_deduplicated = 0;
  opaque_events_parsed = 0;
  opaque_events_inserted = 0;
  offset_reads = 0;
  offset_writes = 0;
  unchanged_offset_writes_skipped = 0;
  empty_insert_batches = 0;
}

-- The variables of the loop over the files.
pub record Ingesting (P V F : Type 0) : Type 0 where
  pub store : Store V F
  pub ingested : ℕ
  pub rejected : ℕ
  pub opaque : ℕ
  pub events : List (Envelope F)
  pub rejects : List (RejectRecord P)
  pub metrics : IngestMetrics
  pub file_states : List (IngestFileState P)

abbrev pub begin : {P V F : Type 0} → Store V F → Ingesting P V F
begin store = record {
  store = store;
  ingested = 0;
  rejected = 0;
  opaque = 0;
  events = [];
  rejects = [];
  metrics = no_metrics;
  file_states = [];
}

abbrev pub source_of : {P : Type 0} → SpoolFile P → Source
source_of file = record { collector = file.collector; session_id = file.session_id }

abbrev pub reject_record : {P : Type 0} → SpoolFile P → RejectedLine → RejectRecord P
reject_record file entry = record {
  reason = entry.reason;
  origin = file;
  line = entry.line_number;
  byte_offset = entry.byte_offset;
  raw = entry.line;
}

abbrev pub one_if : Bool → ℕ
one_if b = if b then 1 else 0

-- `read` is the content of a file, or the error of opening or reading it.
module _ {P V F E : Type 0} (decode : List ℕ → String)
    (parse : String → Result (ParsedLine V F) RejectReason) (read : P → Result (List ℕ) E) where
  -- One file, of which `result` was read from `offset` on.
  unfoldable pub take_in : SpoolFile P → ℕ → TailResult V F → Ingesting P V F → Ingesting P V F
  take_in file offset result s =
      let (inserted, store1) = insert_events result.events s.store in
      let (opaque_inserted, store2) = insert_opaque_events result.opaque_events store1 in
      let same = result.new_offset == offset in
      let m = s.metrics in
      record {
        store = if same then store2 else set_offset (source_of file) result.new_offset store2;
        ingested = s.ingested + inserted;
        rejected = s.rejected + length result.rejected;
        opaque = s.opaque + opaque_inserted;
        events = s.events ++ result.events;
        rejects = s.rejects ++ map (reject_record file) result.rejected;
        metrics = record {
          files_opened = m.files_opened + 1;
          bytes_read = m.bytes_read + result.bytes_read;
          complete_lines = m.complete_lines + result.complete_lines;
          partial_lines = m.partial_lines + one_if result.partial_line;
          events_parsed = m.events_parsed + length result.events;
          events_inserted = m.events_inserted + inserted;
          events_deduplicated = m.events_deduplicated + (length result.events - inserted);
          opaque_events_parsed = m.opaque_events_parsed + length result.opaque_events;
          opaque_events_inserted = m.opaque_events_inserted + opaque_inserted;
          offset_reads = m.offset_reads + 1;
          offset_writes = m.offset_writes + one_if (not same);
          unchanged_offset_writes_skipped = m.unchanged_offset_writes_skipped + one_if same;
          empty_insert_batches = m.empty_insert_batches + one_if (is_empty result.events);
        };
        file_states =
            s.file_states
            ++ record {
              collector = file.collector;
              session_id = file.session_id;
              path = file.path;
              offset = result.new_offset;
            }
              ∷ [];
      }

  unfoldable pub ingest_content :
      SpoolFile P → Result (List ℕ) E → Ingesting P V F → Result (Unit {0}) E × Ingesting P V F
  ingest_content file (err e) s = (err e, s)
  ingest_content file (ok content) s =
      let offset = get_offset (source_of file) s.store in
      (ok tt, take_in file offset (tail decode parse content offset) s)

  abbrev pub go_on :
      (Ingesting P V F → Result (Unit {0}) E × Ingesting P V F)
      → Result (Unit {0}) E × Ingesting P V F
      → Result (Unit {0}) E × Ingesting P V F
  go_on rest (ok _, s) = rest s
  go_on rest (err e, s) = (err e, s)

  unfoldable pub ingest_loop :
      List (SpoolFile P) → Ingesting P V F → Result (Unit {0}) E × Ingesting P V F
  ingest_loop [] s = (ok tt, s)
  ingest_loop (file ∷ files) s = go_on (ingest_loop files) (ingest_content file (read file.path) s)

  unfoldable pub ingest_files :
      List (SpoolFile P) → Store V F → Result (Unit {0}) E × Ingesting P V F
  ingest_files files store = ingest_loop files (begin store)
