-- ===== src/Otlp/GenAi.antt =====
-- crates/af-otlp/src/normalize/gen_ai.rs: records of the OpenTelemetry GenAI convention.
use agentic_footprint.Prelude.{
  ℕ, String, Bool, false, ◌&&◌, ◌||◌, Option, none, some, List, [], ◌∷◌, if◌then◌else◌, and_then,
  is_some,
}
use agentic_footprint.Prelude.Keyed.{string_key, lookup}
use agentic_footprint.Prelude.Text.{starts_with}
use agentic_footprint.Json.{Json}
use agentic_footprint.Events.{Envelope, Status, llm_call, agent_telemetry}
use agentic_footprint.Otlp.Record.{LogRecord, or_else, bool_of}
use agentic_footprint.Otlp.Outcome.{
  RecordOutcome, not_applicable, Library, Hashed, text, time, number, or_dropped, is_text,
  sanitized, stable_id, string_at, u64_at,
}

abbrev contains_key : {V : Type 0} → LogRecord V → String → Bool
contains_key r key = is_some (lookup key r.attributes)

abbrev is_standard : Option String → Bool
is_standard none = false
is_standard (some name) = starts_with "opentelemetry.instrumentation.genai" name

abbrev error_status : Option String → Option Status
error_status none = none
error_status (some _) = some Status.error

module _ {V F : Type 0} (l : Library F) (j : Json V F) where
  abbrev is_applicable : LogRecord V → Bool
  is_applicable r =
      is_text r.body "gen_ai.client.inference.operation.details"
      || is_standard r.scope_name
        && (contains_key r "gen_ai.provider.name"
            && (contains_key r "gen_ai.request.model" || contains_key r "gen_ai.response.model"))

  unfoldable gen_ai_id : Option String → List Hashed → String
  unfolding stable_id
  gen_ai_id none value = stable_id l "otlp-genai" value
  gen_ai_id (some response_id) value = stable_id l "otlp-genai" (text response_id ∷ [])

  unfoldable pub gen_ai_map : LogRecord V → ℕ → Option (Envelope F)
  unfolding gen_ai_id u64_at
  gen_ai_map r index =
      let served = string_at l j r "gen_ai.response.model" in
      and_then (string_at l j r "gen_ai.provider.name") λ provider.
        and_then (or_else (string_at l j r "gen_ai.request.model") served) λ requested.
          and_then r.time_unix_nano λ time_unix_nano. and_then (l.format_time time_unix_nano) λ ts.
            let session_id =
              sanitized (
                or_else (string_at l j r "session.id")
                  (string_at l j r "gen_ai.conversation.id")) in
            some (record {
              schema_version = "0.1.0";
              event_id = gen_ai_id (string_at l j r "gen_ai.response.id") (
                  text session_id
                  ∷ time time_unix_nano
                  ∷ text provider
                  ∷ text requested
                  ∷ number (some index)
                  ∷ []);
              ts = ts;
              collector = record { name = "otlp-genai"; version = l.version };
              session_id = session_id;
              attribution = none;
              payload = llm_call (record {
                provider = provider;
                model_id_requested = requested;
                model_id_served = served;
                endpoint = string_at l j r "server.address";
                usage = record {
                  input_tokens = u64_at l j r "gen_ai.usage.input_tokens";
                  output_tokens = u64_at l j r "gen_ai.usage.output_tokens";
                  thought_tokens = none;
                  cached_read_tokens = u64_at l j r "gen_ai.usage.cache_read.input_tokens";
                  cached_write_tokens = u64_at l j r "gen_ai.usage.cache_creation.input_tokens";
                };
                usage_source = agent_telemetry;
                duration_ms = none;
                status = error_status (string_at l j r "error.type");
                streaming = bool_of j l.whole r "gen_ai.request.stream";
              });
            })

  unfoldable pub gen_ai : LogRecord V → ℕ → RecordOutcome F
  unfolding gen_ai_map
  gen_ai r index = if is_applicable r then or_dropped (gen_ai_map r index) else not_applicable
