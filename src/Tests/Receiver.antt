-- ===== src/Tests/Receiver.antt =====
-- Runs of the theorems on the OTLP receiver at concrete inputs.
use agentic_footprint.Prelude.{
  ℕ, ◌+◌, String, ◌≡◌, ◌⊎◌, refl, true, false, none, some, [], ◌∷◌, length, filter, unwrap_or,
  arith,
}
use agentic_footprint.Prelude.Int.{ℤ, pos}
use agentic_footprint.Prelude.Keyed.{lookup, alter}
use agentic_footprint.Json.Tree.{
  Tree, text, count, object, member, end, array, stop, element, tree_json,
}
use agentic_footprint.Events.Validate.{ok}
use agentic_footprint.Samples.{call1, call2}
use agentic_footprint.Otlp.Record.{decode_logs}
use agentic_footprint.Otlp.Outcome.{Library}
use agentic_footprint.Otlp.Codex.Cache.{no_providers, insert, get}
use agentic_footprint.Otlp.Codex.Bound.{IsCache, insert_lem}
use agentic_footprint.Otlp.Normalize.{normalize_logs, normalize_records}
use agentic_footprint.Otlp.Groups.{pair_key, group}
use agentic_footprint.Otlp.Groups.Laws.{goes_to, group_lem}
use agentic_footprint.Otlp.Server.{
  Machine, Receiver, Request, handle_value, handle_request, is_forbidden,
}
use agentic_footprint.Otlp.Laws.{
  accounted, is_refused, is_handled, normalize_logs_lem, handle_value_lem, handle_request_lem,
}

abbrev library : Library ℤ
library = record {
  format_time = λ t. some "2026-01-01T00:00:00Z";
  parse_time = λ s. some (pos 5);
  earlier = λ t ms. some t;
  hash = λ fields. "0123456789abcdef";
  version = "0.1.0";
  whole = λ x. none;
}

abbrev machine : Machine Tree ℤ ℕ
machine = record {
  create_dir = λ d. (ok tt, d);
  write_lines = λ file events d. (ok tt, d + length events);
  quarantine = λ prefix body d. d;
  from_utf8_lossy = λ bytes. "";
  show = λ n. "";
  parse = λ s. none;
}

abbrev attribute : String → Tree → Tree
attribute key value = object (member "key" (text key) (member "value" value end))

-- One call of Claude Code, and one record that nobody claims.
abbrev export : Tree
export = object (
    member "resourceLogs"
      (array (
        element
          (object (
            member "scopeLogs"
              (array (
                element
                  (object (
                    member "logRecords"
                      (array (
                        element
                          (object (
                            member "body"
                              (object (member "stringValue" (text "claude_code.api_request") end))
                              (member "timeUnixNano" (count 5) (
                                member "attributes"
                                  (array (
                                    element
                                      (attribute "model"
                                        (object (member "stringValue" (text "claude") end)))
                                      stop))
                                  end))))
                          (element (object end) stop)))
                      end))
                  stop))
              end))
          stop))
      end)

abbrev receiver : Receiver ℕ
receiver = record {
  counters = record {
    logs_requests = 0;
    logs_accepted = 0;
    logs_dropped = 0;
    logs_unclaimed = 0;
    logs_persistence_failures = 0;
    logs_persistence_failed_events = 0;
    bodies_quarantined = 0;
    metrics_discarded = 0;
  };
  providers = no_providers;
  disk = 0;
}

abbrev request : Request
request = record {
  host = some "evil.example";
  is_post = true;
  url = "/v1/logs";
  body = record { bytes = []; fails = false };
}

normalize_logs_lem_example :
    length (normalize_logs library tree_json export no_providers).0.events
      + ((normalize_logs library tree_json export no_providers).0.dropped
          + (normalize_logs library tree_json export no_providers).0.unclaimed)
    ≡ length (decode_logs tree_json library.whole export)
normalize_logs_lem_example = normalize_logs_lem library tree_json export no_providers

handle_value_lem_example :
    accounted (handle_value library tree_json machine "" (some export) receiver).1.counters
    ≡ accounted receiver.counters + length (decode_logs tree_json library.whole export)
unfolding handle_value normalize_records tree_json lookup alter
handle_value_lem_example = handle_value_lem library tree_json machine "" export receiver refl

handle_request_lem_example :
    (is_refused (handle_request library tree_json machine request receiver).0.status ≡ true)
      × ((handle_request library tree_json machine request receiver).1 ≡ receiver)
    ⊎ (is_handled (handle_request library tree_json machine request receiver).0.status ≡ true)
      × (is_forbidden request.host ≡ false)
handle_request_lem_example = handle_request_lem library tree_json machine request receiver

group_lem_example :
    unwrap_or (lookup ("otlp", "s1") (group (call1 ∷ call2 ∷ []))) []
    ≡ filter (goes_to ("otlp", "s1")) (call1 ∷ call2 ∷ [])
group_lem_example = group_lem ("otlp", "s1") (call1 ∷ call2 ∷ [])

no_providers-IsCache : IsCache no_providers
no_providers-IsCache = record { mirror = λ k. refl; distinct = tt; bounded = omega arith }

insert_lem_example :
    IsCache (insert "conversation" "ollama" no_providers)
    × (get "conversation" (insert "conversation" "ollama" no_providers) ≡ some "ollama")
insert_lem_example = insert_lem "conversation" "ollama" no_providers no_providers-IsCache
