-- ===== src/Samples.antt =====
-- Concrete events, files and stores, on which the theorems are run.
use agentic_footprint.Prelude.{
  ℕ, ◌+◌, String, ◌==◌, Option, none, some, List, [], ◌∷◌, str_eq, if◌then◌else◌,
}
use agentic_footprint.Prelude.Int.{ℤ, pos}
use agentic_footprint.Json.Tree.{Tree, Members}
use agentic_footprint.Events.{
  Envelope, Payload, LlmCall, api_response, ActionSpan, EnergySample, ProcessSample, ToolKind,
  ExecutionLocus, EnergyKind, EnergyMethod, llm_call, action_span, energy_sample,
}
use agentic_footprint.Events.Validate.{RejectReason, json, Result, ok, err}
use agentic_footprint.Events.Parse.{ParsedLine, known, Decoder}
use agentic_footprint.Correlate.{SessionTree}
use agentic_footprint.Spool.Name.{SpoolFile}
use agentic_footprint.Join.Local.{LocalMeasured}
use agentic_footprint.Store.{Store, empty}
use agentic_footprint.Estimate.{EstimationRegion, explicit}

abbrev pub envelope : String → Payload ℤ → Envelope ℤ
envelope id payload = record {
  schema_version = "0.1.0";
  event_id = id;
  ts = "t1";
  collector = record { name = "otlp"; version = "1" };
  session_id = "s1";
  attribution = none;
  payload = payload;
}

abbrev pub call_of : Option ℕ → LlmCall
call_of tokens = record {
  provider = "anthropic";
  model_id_requested = "m";
  model_id_served = none;
  endpoint = none;
  usage = record {
    input_tokens = none;
    output_tokens = tokens;
    thought_tokens = none;
    cached_read_tokens = none;
    cached_write_tokens = none;
  };
  usage_source = api_response;
  duration_ms = none;
  status = none;
  streaming = none;
}

abbrev pub call1 : Envelope ℤ
call1 = envelope "e1" (llm_call (call_of (some 7)))

abbrev pub call2 : Envelope ℤ
call2 = envelope "e2" (llm_call (call_of none))

abbrev pub action : ActionSpan
action = record {
  span_id = "a";
  tool_name = "Bash";
  tool_kind = ToolKind.bash;
  execution_locus = ExecutionLocus.local;
  t_start = "t0";
  t_end = "t9";
  pids = some (pos 10 ∷ []);
  cgroup = none;
  status = none;
}

abbrev pub span_event : Envelope ℤ
span_event = envelope "e3" (action_span action)

-- A clock that knows three times, in nanoseconds.
abbrev pub clock : String → Option ℤ
clock t =
    if str_eq t "t0"
    then some (pos 0)
    else if str_eq t "t1"
    then some (pos 1_000_000_000)
    else if str_eq t "t9"
    then some (pos 9_000_000_000)
    else none

abbrev pub joules : ℤ → EnergySample ℤ
joules e = record {
  t_start = "t0";
  t_end = "t1";
  components =
      record { kind = EnergyKind.cpu; label = none; energy_j = e; method = EnergyMethod.rapl } ∷ [];
  host_id = none;
}

abbrev pub deltas : ProcessSample
deltas = record {
  t_start = "t0";
  t_end = "t1";
  processes =
      record {
        pid = pos 10;
        cpu_time_delta_ms = 300;
        orphan_of = none;
        memory_rss_bytes = none;
        io_read_bytes = none;
        io_write_bytes = none;
      }
      ∷ record {
        pid = pos 11;
        cpu_time_delta_ms = 100;
        orphan_of = none;
        memory_rss_bytes = none;
        io_read_bytes = none;
        io_write_bytes = none;
      }
      ∷ [];
}

abbrev pub tree : SessionTree
tree = record {
  spans =
      record {
        span_id = "a";
        tool_name = "Bash";
        tool_kind = ToolKind.bash;
        locus = ExecutionLocus.local;
        t_start = pos 0;
        t_end = pos 9_000;
        pids = pos 10 ∷ [];
        attribution = none;
      }
      ∷ [];
  root_pids = pos 11 ∷ [];
  skipped_events = 0;
}

-- Lines of one letter: `a` (97) is an event, and any other is rejected.
abbrev pub decode : List ℕ → String
decode [] = ""
decode (b ∷ bs) = if b == 97 then "a" else "b"

abbrev pub parse : String → Result (ParsedLine Tree ℤ) RejectReason
parse line = if str_eq line "a" then ok (known call1) else err (json "expected value")

-- A file `a\nb\na` whose last line is not complete, and what is written to it later.
abbrev pub content : List ℕ
content = 97 ∷ 10 ∷ 98 ∷ 10 ∷ 97 ∷ []

abbrev pub more : List ℕ
more = 10 ∷ 98 ∷ 10 ∷ []

abbrev pub store : Store Tree ℤ
store = record empty { raw_events = call1 ∷ span_event ∷ call2 ∷ [] }

-- A sidecar that counts its requests and answers each.
abbrev pub answer : Tree → ℕ → Result Tree String × ℕ
answer request n = (ok (Tree.text "ok"), n + 1)

abbrev pub region : EstimationRegion
region = explicit "FRA" "config"

abbrev pub event_value : Tree
event_value = Tree.object (
    Members.member "schema_version" (Tree.text "0.1.0")
      (Members.member "type" (Tree.text "llm_call") Members.end))

abbrev pub decoder : Decoder Tree ℤ
decoder = record {
  from_str = λ line. ok event_value;
  validate = λ v. none;
  envelope = λ v. ok call1;
  collector = λ v. err "no collector";
  ts_error = λ ts. none;
}

abbrev pub spool_file : SpoolFile String
spool_file = record { collector = "otlp"; session_id = "s1"; path = "otlp.s1.jsonl" }

abbrev pub read : String → Result (List ℕ) String
read path = if str_eq path "otlp.s1.jsonl" then ok content else err "no such file"

abbrev pub sampled : List (Envelope ℤ)
sampled =
    envelope "e4" (energy_sample (joules (pos 1500)))
    ∷ envelope "e5" (energy_sample (joules (pos 500)))
    ∷ []

abbrev pub local : LocalMeasured Tree ℤ
local = record { json = Tree.text ""; kwh = some (pos 2); gwp = none }
