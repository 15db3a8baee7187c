-- ===== src/Otlp/Outcome.antt =====
-- crates/af-otlp/src/normalize.rs and its child claude_code.rs: what becomes of a record.
use Prim.Native.String.{len}
use agentic_footprint.Prelude.{
  ℕ, String, str_append, Bool, false, Option, none, some, List, [], ◌∷◌, ltb, if◌then◌else◌,
  and_then, str_eq,
}
use agentic_footprint.Prelude.Int.{ℤ}
use agentic_footprint.Prelude.Keyed.{string_key}
use agentic_footprint.Json.{Json}
use agentic_footprint.Events.{Envelope, llm_call, agent_telemetry}
use agentic_footprint.Sanitize.{sanitize_id}
use agentic_footprint.Otlp.Record.{LogRecord, string_of, u64_of}

pub data RecordOutcome (F : Type 0) : Type 0 where
  envelope : Envelope F → RecordOutcome F
  not_applicable dropped : RecordOutcome F

-- A field of a value that is hashed.
pub data Hashed : Type 0 where
  text : String → Hashed
  time : ℤ → Hashed
  number : Option ℕ → Hashed

-- What is not in the repository: the dates of the `time` crate (an instant is its nanoseconds; `late`
-- is an instant less some milliseconds, where there is such a one), the default hasher with its 16
-- hexadecimal digits, the version of the build, and reading an `f64` as a whole number.
pub record Library (F : Type 0) : Type 0 where
  pub format_time : ℤ → Option String
  pub parse_time : String → Option ℤ
  pub earlier : ℤ → ℕ → Option ℤ
  pub hash : List Hashed → String
  pub version : String
  pub whole : F → Option ℕ

-- `.ok_or` on the way to `Dropped`.
abbrev pub or_dropped : {F : Type 0} → Option (Envelope F) → RecordOutcome F
or_dropped none = dropped
or_dropped (some e) = envelope e

abbrev pub is_text : Option String → String → Bool
is_text none s = false
is_text (some t) s = str_eq t s

abbrev pub sanitized : Option String → String
sanitized none = "unknown"
sanitized (some raw) = sanitize_id raw

module _ {F : Type 0} (l : Library F) where
  unfoldable pub stable_id : String → List Hashed → String
  stable_id prefix value = str_append prefix (str_append "-" (l.hash value))

  -- `derive_event_id`; `value` is what is hashed without a request id.
  unfoldable pub derive_event_id : Option String → List Hashed → String
  unfolding stable_id
  derive_event_id none value = stable_id "otlp" value
  derive_event_id (some request_id) value =
      let id = str_append "otlp-" request_id in
      if ltb (len id) 16 then stable_id id (text request_id ∷ []) else id

  module _ {V : Type 0} (j : Json V F) where
    -- `record.string(key)` and `record.u64(key)`.
    abbrev pub string_at : LogRecord V → String → Option String
    string_at r key = string_of j l.whole r key

    unfoldable pub u64_at : LogRecord V → String → Option ℕ
    u64_at r key = u64_of j l.whole r key

    unfoldable pub claude_code_map : LogRecord V → ℕ → Option (Envelope F)
    unfolding derive_event_id u64_at
    claude_code_map r index =
        let session_id = sanitized (string_at r "session.id") in
        let input_tokens = u64_at r "input_tokens" in
        let output_tokens = u64_at r "output_tokens" in
        and_then (string_at r "model") λ model. and_then r.time_unix_nano λ time_unix_nano.
          and_then (l.format_time time_unix_nano) λ ts. some (record {
            schema_version = "0.1.0";
            event_id = derive_event_id (string_at r "request_id") (
                text session_id
                ∷ time time_unix_nano
                ∷ text model
                ∷ number input_tokens
                ∷ number output_tokens
                ∷ number (some index)
                ∷ []);
            ts = ts;
            collector = record { name = "otlp-cc"; version = l.version };
            session_id = session_id;
            attribution = none;
            payload = llm_call (record {
              provider = "anthropic";
              model_id_requested = model;
              model_id_served = none;
              endpoint = none;
              usage = record {
                input_tokens = input_tokens;
                output_tokens = output_tokens;
                thought_tokens = none;
                cached_read_tokens = u64_at r "cache_read_tokens";
                cached_write_tokens = u64_at r "cache_creation_tokens";
              };
              usage_source = agent_telemetry;
              duration_ms = u64_at r "duration_ms";
              status = none;
              streaming = none;
            });
          })

    unfoldable pub claude_code : LogRecord V → ℕ → RecordOutcome F
    unfolding claude_code_map
    claude_code r index =
        if is_text r.body "claude_code.api_request"
        then or_dropped (claude_code_map r index)
        else not_applicable
