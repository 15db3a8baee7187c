-- ===== src/Tests.antt =====
-- The theorems, each at a concrete input.
mod Collectors
mod Supervision
mod Receiver
mod Hooks
mod Framing
mod Lines
mod Totals
use agentic_footprint.Prelude.{
  any, filter_map, ◌≤◌, ◌+◌, String, ◌≡◌, ◌↔◌, refl, true, false, none, some, [], ◌∷◌, ◌++◌,
  sort_by, insert_by, map, All, length, arith,
}
use agentic_footprint.Prelude.Int.{◌+ℤ◌, ℤ, pos}
use agentic_footprint.Prelude.Keyed.{lookup}
use agentic_footprint.Float.Fixed.{fixed, fixed-IsExact}
use agentic_footprint.Json.{get_str}
use agentic_footprint.Json.Tree.{tree_json}
use agentic_footprint.Events.{Envelope}
use agentic_footprint.Events.Validate.{ok, err, check_schema_version}
use agentic_footprint.Events.Parse.{
  known, parse_value, parse_line, parse_line_preserving_unknown, is_known,
}
use agentic_footprint.Correlate.{correlate}
use agentic_footprint.Correlate.Laws.{seen-correlate}
use agentic_footprint.Attribution.Types.{total_j, sum, sample_energy_j}
use agentic_footprint.Attribution.Run.{apportion, apportion_traced}
use agentic_footprint.Attribution.Conservation.{conservation, entered}
use agentic_footprint.Spool.Name.{spool_file_name, parse_spool_filename}
use agentic_footprint.Spool.Name.Laws.{parse_spool_filename-spool_file_name}
use agentic_footprint.Spool.Tail.{tail, count_lines_before}
use agentic_footprint.Spool.Frames.{joined}
use agentic_footprint.Spool.Count.{count_lines_before_lem}
use agentic_footprint.Spool.Lines.{events_in, opaque_in, rejects_in}
use agentic_footprint.Spool.Reading.{tail_lem, lines_from}
use agentic_footprint.Attribution.Traces.{baselines, l1_traces, l2_traces, apportion_traced-agree}
use agentic_footprint.Spool.Again.{tail-again}
use agentic_footprint.Ingest.{begin, source_of, ingest_content}
use agentic_footprint.Ingest.Laws.{SameResults, ingest_content-again}
use agentic_footprint.Join.Coverage.{energy_window, energy_coverage_windows}
use agentic_footprint.Join.Coverage.Union.{inside, energy_coverage_windows-inside}
use agentic_footprint.Join.Local.{range_of, remote_range, combined_ranges}
use agentic_footprint.Spool.Resume.{tail-resume}
use agentic_footprint.Sanitize.{sanitize_id}
use agentic_footprint.Sanitize.Laws.{
  is_safe, sanitize_id-is_safe, sanitize_id-id, sanitize_id_idempotent,
}
use agentic_footprint.Store.Raw.{get_offset, insert_events, has_id}
use agentic_footprint.Store.Laws.{Distinct, insert_events_lem}
use agentic_footprint.Store.Derived.{
  llm_calls_without_estimate_limit, pending, is_pending, count_llm_calls_without_estimate,
}
use agentic_footprint.Estimate.{
  estimate_events, estimate_pending, estimate_pending_limit, estimate_loop, estimate_payload,
  estimate_call, store_response,
}
use agentic_footprint.Estimate.Laws.{Counted, estimate_events-processed, estimate_pending-done}
use agentic_footprint.Replay.{rebuild_derived, check_wipe, no_estimator}
use agentic_footprint.Replay.Laws.{rebuild_derived_lem}
use agentic_footprint.Samples.{
  call1, call2, span_event, clock, joules, deltas, tree, decode, parse, content, more, store,
  answer, region, decoder, read, spool_file, event_value, sampled, local,
}

sanitize_id-is_safe_example : is_safe (sanitize_id "../etc/passwd") ≡ true
sanitize_id-is_safe_example = sanitize_id-is_safe "../etc/passwd"

sanitize_id-id_example : sanitize_id "session-1" ≡ "session-1"
sanitize_id-id_example = sanitize_id-id "session-1" refl

sanitize_id_idempotent_example : sanitize_id (sanitize_id ".a/b") ≡ sanitize_id ".a/b"
sanitize_id_idempotent_example = sanitize_id_idempotent ".a/b"

parse_spool_filename-spool_file_name_example :
    parse_spool_filename {P = String} (spool_file_name "otlp" "s.1") "spool/otlp.s.1.jsonl"
    ≡ some (record { collector = "otlp"; session_id = "s.1"; path = "spool/otlp.s.1.jsonl" })
parse_spool_filename-spool_file_name_example =
    parse_spool_filename-spool_file_name "otlp" "s.1" "spool/otlp.s.1.jsonl" refl refl refl

count_lines_before_example : count_lines_before content 4 ≡ 2
count_lines_before_example = count_lines_before_lem content 4

tail_example :
    let r = tail decode parse content 2 in
    (r.events ≡ events_in decode parse (lines_from content 2))
    × (r.opaque_events ≡ opaque_in decode parse (lines_from content 2))
    × (r.rejected ≡ rejects_in decode parse 2 2 (lines_from content 2))
    × (r.new_offset ≡ 2 + length (joined (lines_from content 2)))
    × (r.complete_lines ≡ length (lines_from content 2))
    × (r.truncated ≡ false)
tail_example = tail_lem decode parse content 2

tail-resume_example :
    let first = tail decode parse content 0 in
    let second = tail decode parse (content ++ more) first.new_offset in
    let whole = tail decode parse (content ++ more) 0 in
    (whole.events ≡ first.events ++ second.events)
    × (whole.opaque_events ≡ first.opaque_events ++ second.opaque_events)
    × (whole.rejected ≡ first.rejected ++ second.rejected)
    × (whole.new_offset ≡ second.new_offset)
tail-resume_example = tail-resume decode parse content more 0 (omega arith)

insert_events_example :
    let (n, t) = insert_events (call1 ∷ call2 ∷ call1 ∷ []) store in
    Distinct t.raw_events
    × (length t.raw_events ≡ 3 + n)
    × All (λ (e : Envelope ℤ). has_id e.event_id t.raw_events ≡ true) (call1 ∷ call2 ∷ call1 ∷ [])
    × (insert_events (call1 ∷ call2 ∷ call1 ∷ []) t ≡ (0, t))
insert_events_example =
    insert_events_lem (call1 ∷ call2 ∷ call1 ∷ []) store (refl, (refl, (refl, tt)))

estimate_events-processed_example :
    let r = estimate_events tree_json answer region (call1 ∷ span_event ∷ call2 ∷ []) store 0 in
    (r.1.store.raw_events ≡ store.raw_events) × Counted 2 r
estimate_events-processed_example =
    estimate_events-processed tree_json answer region (call1 ∷ span_event ∷ call2 ∷ []) store 0

seen-correlate_example :
    let t = correlate clock (call1 ∷ span_event ∷ []) in length t.spans + t.skipped_events ≡ 1
seen-correlate_example = seen-correlate clock (call1 ∷ span_event ∷ [])

conservation_example :
    total_j (apportion clock (joules (pos 1500) ∷ joules (pos 500) ∷ []) (deltas ∷ []) tree)
    ≡ sum (map sample_energy_j (entered clock (joules (pos 1500) ∷ joules (pos 500) ∷ [])))
conservation_example =
    conservation fixed-IsExact clock (joules (pos 1500) ∷ joules (pos 500) ∷ []) (deltas ∷ []) tree

rebuild_derived_example :
    let (r, rebuilt) =
      rebuild_derived tree_json clock
        (λ t. none)
        answer
        none
        "FRA"
        "config"
        region
        true
        false
        none
        store in
    (rebuilt.raw_events ≡ store.raw_events) × ((r ≡ err no_estimator) ↔ (true ≡ true))
rebuild_derived_example =
    rebuild_derived_lem tree_json clock (λ t. none) answer "FRA" "config" region none true false
      none store

estimate_pending-done_example :
    count_llm_calls_without_estimate (estimate_pending tree_json answer region store 0).1.store ≡ 0
unfolding tree_json estimate_pending estimate_pending_limit estimate_events estimate_loop
    estimate_payload estimate_call store_response llm_calls_without_estimate_limit pending
    is_pending lookup sort_by insert_by
estimate_pending-done_example =
    estimate_pending-done tree_json answer region store 0
      (estimate_pending tree_json answer region store 0).1 refl

apportion_traced-agree_example :
    let (out, traces) =
      apportion_traced clock (joules (pos 1500) ∷ joules (pos 500) ∷ []) (deltas ∷ []) tree in
    (length traces ≡ length (entered clock (joules (pos 1500) ∷ joules (pos 500) ∷ [])))
    × (out.baseline_idle_j ≡ baselines traces)
    × (out.samples_l2 ≡ l2_traces traces)
    × (out.samples_l1 ≡ l1_traces traces)
apportion_traced-agree_example =
    apportion_traced-agree clock (joules (pos 1500) ∷ joules (pos 500) ∷ []) (deltas ∷ []) tree

tail-again_example :
    let at = (tail decode parse content 0).new_offset in
    let r = tail decode parse content at in
    (at ≤ 5) × (r.events ≡ []) × (r.opaque_events ≡ []) × (r.rejected ≡ []) × (r.new_offset ≡ at)
tail-again_example = tail-again decode parse content 0

ingest_content-again_example :
    let t = (ingest_content decode parse read spool_file (ok content) (begin store)).1 in
    (get_offset (source_of spool_file) t.store
      ≡ (tail decode parse content (get_offset (source_of spool_file) store)).new_offset)
    × SameResults decode parse read t (ingest_content decode parse read spool_file (ok content) t).1
ingest_content-again_example =
    ingest_content-again decode parse read spool_file content (begin store)

energy_coverage_windows-inside_example :
    any (inside (pos 500)) (energy_coverage_windows clock sampled)
    ≡ any
        (inside (pos 500))
        (filter_map (λ (e : Envelope ℤ). energy_window clock e.payload) sampled)
energy_coverage_windows-inside_example = energy_coverage_windows-inside clock sampled (pos 500)
