-- ===== src/Tests/Collectors.antt =====
-- Runs of the collectors' theorems at concrete inputs.
use agentic_footprint.Prelude.{
  ℕ, ◌+◌, ◌≤◌, String, ◌≡◌, refl, true, ◌||◌, Option, none, some, List, [], ◌∷◌, ◌++◌, map,
  unwrap_or, all, ◌==◌, str_eq, if◌then◌else◌, arith,
}
use agentic_footprint.Prelude.Int.{ℤ, pos}
use agentic_footprint.Json.Tree.{Tree, text, count, object, member, end, tree_json}
use agentic_footprint.Events.{Envelope}
use agentic_footprint.Events.Validate.{Result, ok, err}
use agentic_footprint.OpenCode.{SourceEvent, CursorState, durable_sequence, no_state}
use agentic_footprint.OpenCode.Normalize.{Library, required_u64, required_str}
use agentic_footprint.OpenCode.Settle.{normalize}
use agentic_footprint.OpenCode.Stream.{
  Files, Held, contents, not_found, initial_state, load_opened, by_sequence, spool, advance,
  process_event, collect_reader,
}
use agentic_footprint.OpenCode.Laws.{Outcome, process_event_lem}
use agentic_footprint.OpenCode.Restart.{FilesLaws, process_all, process_all-restart}
use agentic_footprint.OpenCode.Frames.{stream_events, collect_reader_lem}
use agentic_footprint.OpenCode.Pairs.{emitted, total, starts, normalize_lem}
use agentic_footprint.OpenCode.Live.{start_live, collect_live}
use agentic_footprint.OpenCode.Reconnect.{IsPause, collect_live_lem}
use agentic_footprint.OpenCode.Paths.{is_unreserved, percent_encode_path}
use agentic_footprint.OpenCode.Escape.{percent_decode, percent_encode_path_lem}

abbrev library : Library ℕ
library = record {
  from_unix_timestamp_nanos = λ n. some n;
  format = λ n. some "2026-01-01T00:00:00Z";
  sha256 = λ s. "0123456789abcdef0123456789abcdef0123456789abcdef0123456789abcdef";
  to_lowercase = λ s. s;
}

record Disk : Type 0 where
  spool : List (Envelope ℤ)
  cursor : Option (CursorState Tree)

abbrev event : String → ℕ → String → SourceEvent Tree
event event_type seq call_id = record {
  id = some "event-0123456789abcdef";
  event_type = some event_type;
  durable = some (record { aggregate_id = text "session"; seq = count seq });
  body = object (
      member "timestamp" (count 5)
        (member "sessionID" (text "session") (member "callID" (text call_id) end)));
}

abbrev started : SourceEvent Tree
started = event "session.next.shell.started" 3 "call"

abbrev ended : SourceEvent Tree
ended = event "session.next.shell.ended" 4 "call"

abbrev files : Files Tree ℤ Disk
files = record {
  append = λ es d. (ok tt, record d { spool = d.spool ++ es });
  replace = λ c d. (ok tt, record d { cursor = some c });
  open_cursor = λ d. elim d.cursor [ none ↦ not_found | some c ↦ contents (ok c) ];
  parse_event = λ s. if str_eq s "start" then ok started else err "no event";
}

files-FilesLaws : FilesLaws files
files-FilesLaws = record { read-replace = λ c d t e. refl }

abbrev held : Held Tree Disk
held = record {
  normalizer = record { pid = some (pos 7); state = no_state };
  disk = record { spool = []; cursor = none };
}

process_event_lem_example :
    Outcome
      (durable_sequence tree_json started "session")
      2
      held
      (process_event tree_json library files "session" (some "http://host/") started 2 held)
process_event_lem_example =
    process_event_lem tree_json library files "session" (some "http://host/") started 2 held

abbrev after : Held Tree Disk
after =
    (process_all tree_json library files "session" (some "http://host/") (started ∷ []) 0 held).1.1

process_all-restart_example :
    (initial_state files "http://host/" "session" none after.disk ≡ ok (3, after.normalizer.state))
    × (process_all tree_json library files "session"
          (some "http://host/")
          (started ∷ ended ∷ [])
          3
          after
        ≡ process_all tree_json library files "session"
            (some "http://host/")
            (started ∷ ended ∷ [])
            0
            held)
unfolding process_all process_event durable_sequence tree_json initial_state load_opened by_sequence
    spool required_u64 required_str advance
process_all-restart_example =
    process_all-restart tree_json library files "session" "http://host/" files-FilesLaws
      (started ∷ []) (ended ∷ []) 0 3 held after refl refl refl

collect_reader_lem_example :
    collect_reader tree_json library files "session" none
      (map ok ("data: start\r\n" ∷ "\n" ∷ ":\n" ∷ "data: end\n" ∷ []))
      0
      held
    ≡ process_all tree_json library files "session" none
        (stream_events files ("data: start\r\n" ∷ "\n" ∷ ":\n" ∷ "data: end\n" ∷ []))
        0
        held
collect_reader_lem_example =
    collect_reader_lem tree_json library files "session" none
      ("data: start\r\n" ∷ "\n" ∷ ":\n" ∷ "data: end\n" ∷ []) 0 held

normalize_lem_example :
    (emitted (normalize tree_json library ended after.normalizer).0 ≤ 1)
    × (emitted (normalize tree_json library ended after.normalizer).0
          + total (normalize tree_json library ended after.normalizer).1
        ≤ total after.normalizer.state + starts (unwrap_or ended.event_type ""))
normalize_lem_example = normalize_lem tree_json library ended after.normalizer

abbrev connect : ℕ → ℕ → Result (List (Result String String)) String × ℕ
connect latest n = (ok (ok "data:start\n" ∷ ok "\n" ∷ []), n)

collect_live_lem_example :
    (0
      ≤ (collect_live tree_json library files "session" "http://host/" connect 3
          (start_live 0 held 0)).latest)
    × IsPause
        (collect_live tree_json library files "session" "http://host/" connect 3
          (start_live 0 held 0)).backoff
collect_live_lem_example =
    collect_live_lem tree_json library files "session" "http://host/" connect 3
      (start_live 0 held 0) (omega arith, omega arith)

percent_encode_path_lem_example :
    (percent_decode (percent_encode_path (47 ∷ 97 ∷ [])) ≡ 47 ∷ 97 ∷ [])
    × (all (λ b. is_unreserved b || b == b'%') (percent_encode_path (47 ∷ 97 ∷ [])) ≡ true)
percent_encode_path_lem_example =
    percent_encode_path_lem (47 ∷ 97 ∷ []) (omega arith, (omega arith, tt))
