-- ===== src/Otlp/Codex.antt =====
-- crates/af-otlp/src/normalize/codex.rs: Codex's records, and the providers of its conversations.
pub mod Cache
pub mod Bound
use agentic_footprint.Prelude.{
  ℕ, ◌<◌, String, Bool, true, false, not, Option, none, some, List, [], ◌∷◌, ◌++◌, if◌then◌else◌,
  and_then, is_some, ltb, leb, unwrap_or, str_eq, any,
}
use agentic_footprint.Prelude.Int.{ℤ, pos, ltb_ℤ}
use agentic_footprint.Prelude.Text.{one_of, starts_with}
use agentic_footprint.Json.{Json}
use agentic_footprint.Events.{
  Envelope, Collector, Usage, LlmCall, ActionSpan, Attribution, AgentApp, SessionMeta, Status,
  ToolKind, ExecutionLocus, llm_call, action_span, session_meta, agent_telemetry,
}
use agentic_footprint.Sanitize.{sanitize_id}
use agentic_footprint.Otlp.Record.{LogRecord, bool_of}
use agentic_footprint.Otlp.Outcome.{
  RecordOutcome, envelope, not_applicable, dropped, Library, Hashed, text, time, number, or_dropped,
  is_text, stable_id, string_at, u64_at,
}
use agentic_footprint.Otlp.Codex.Cache.{ProviderCache, insert, get}

unfoldable pub classify_tool : String → ToolKind
classify_tool name =
    if one_of name ("exec_command" ∷ "shell" ∷ [])
    then ToolKind.bash
    else if one_of name ("apply_patch" ∷ "file_change" ∷ [])
    then ToolKind.file_op
    else if one_of name ("web_search" ∷ [])
    then ToolKind.web
    else if one_of name ("spawn_agent" ∷ "send_input" ∷ "wait_agent" ∷ [])
    then ToolKind.subagent
    else if starts_with "mcp__" name
    then ToolKind.mcp
    else ToolKind.other

-- The MCP server makes no difference.
unfoldable pub classify_locus : ToolKind → Option String → ExecutionLocus
classify_locus ToolKind.bash _ = ExecutionLocus.local
classify_locus ToolKind.file_op _ = ExecutionLocus.local
classify_locus ToolKind.subagent _ = ExecutionLocus.local
classify_locus ToolKind.web _ = ExecutionLocus.remote
classify_locus ToolKind.mcp _ = ExecutionLocus.unknown
classify_locus ToolKind.other _ = ExecutionLocus.unknown

abbrev success_status : Option Bool → Status
success_status (some true) = Status.ok
success_status (some false) = Status.error
success_status none = Status.unknown

-- An early return of `None`.
abbrev guard : Bool → Option (Unit {0})
guard true = some tt
guard false = none

abbrev i64_max : ℕ
i64_max = 9223372036854775807

module _ {V F : Type 0} (l : Library F) (j : Json V F) where
  abbrev codex_collector : Collector
  codex_collector = record { name = "otlp-codex"; version = l.version }

  abbrev session_of : LogRecord V → Option String
  session_of r = and_then (string_at l j r "conversation.id") (λ id. some (sanitize_id id))

  abbrev event_time : LogRecord V → Option (ℤ × String)
  event_time r =
      and_then (string_at l j r "event.timestamp")
        λ timestamp. and_then (l.parse_time timestamp) λ parsed. some (parsed, timestamp)

  -- `record_time`: a positive time of the record, or else the event's own.
  unfoldable pub record_time : LogRecord V → Option (ℤ × String)
  record_time r = elim r.time_unix_nano [
    | none ↦ event_time r
    | some nanos ↦
        if ltb_ℤ (pos 0) nanos
        then and_then (l.format_time nanos) (λ ts. some (nanos, ts))
        else event_time r
  ]

  unfoldable pub map_session : LogRecord V → ℕ → Option (Envelope F)
  unfolding record_time stable_id
  map_session r index = and_then (session_of r) λ session_id. and_then (record_time r) λ t.
      some (record {
        schema_version = "0.1.0";
        event_id =
            stable_id l "otlp-codex-session"
              (text session_id ∷ time t.0 ∷ number (some index) ∷ []);
        ts = t.1;
        collector = codex_collector;
        session_id = session_id;
        attribution = none;
        payload = session_meta (record {
          agent_app = record { name = "codex"; version = string_at l j r "app.version" };
          os = none;
          hardware = none;
          geo_zone = none;
          power_source = none;
        });
      })

  abbrev usage_keys : List String
  usage_keys =
      "input_token_count" ∷ "output_token_count" ∷ "cached_token_count" ∷ "cache_write_token_count"
      ∷ "reasoning_token_count" ∷ []

  unfoldable pub has_any_usage : LogRecord V → Bool
  unfolding u64_at
  has_any_usage r = any (λ key. is_some (u64_at l j r key)) usage_keys

  unfoldable pub map_llm_call : LogRecord V → ℕ → String → Option (Envelope F)
  unfolding u64_at has_any_usage record_time stable_id
  map_llm_call r index provider =
      let input_tokens = u64_at l j r "input_token_count" in
      let output_tokens = u64_at l j r "output_token_count" in
      let cached_read_tokens = u64_at l j r "cached_token_count" in
      let thought_tokens = u64_at l j r "reasoning_token_count" in
      and_then (session_of r) λ session_id. and_then (string_at l j r "model") λ model.
        and_then (guard (has_any_usage r)) λ _. and_then (record_time r) λ t. some (record {
          schema_version = "0.1.0";
          event_id = stable_id l "otlp-codex" (
              text session_id
              ∷ time t.0
              ∷ text model
              ∷ number input_tokens
              ∷ number output_tokens
              ∷ number cached_read_tokens
              ∷ number thought_tokens
              ∷ number (some index)
              ∷ []);
          ts = t.1;
          collector = codex_collector;
          session_id = session_id;
          attribution = none;
          payload = llm_call (record {
            provider = provider;
            model_id_requested = model;
            model_id_served = none;
            endpoint = none;
            usage = record {
              input_tokens = input_tokens;
              output_tokens = output_tokens;
              thought_tokens = thought_tokens;
              cached_read_tokens = cached_read_tokens;
              cached_write_tokens = u64_at l j r "cache_write_token_count";
            };
            usage_source = agent_telemetry;
            duration_ms = none;
            status = some Status.ok;
            streaming = some true;
          });
        })

  unfoldable pub map_action : LogRecord V → ℕ → Option (Envelope F)
  unfolding u64_at record_time stable_id classify_tool classify_locus
  map_action r index =
      let call_id = string_at l j r "call_id" in
      and_then (session_of r) λ session_id. and_then (string_at l j r "tool_name") λ tool_name.
        and_then (u64_at l j r "duration_ms") λ duration_ms. and_then (record_time r) λ t.
          and_then (l.parse_time t.1) λ end_time.
            and_then (if leb duration_ms i64_max then some duration_ms else none) λ duration.
              and_then (l.earlier end_time duration) λ start_time.
                let span_id = unwrap_or call_id (
                  stable_id l "codex-call" (
                    text session_id
                    ∷ time t.0
                    ∷ text tool_name
                    ∷ number (some duration_ms)
                    ∷ number (some index)
                    ∷ [])) in
                let kind = classify_tool tool_name in
                and_then (l.format_time end_time) λ ts.
                  and_then (l.format_time start_time) λ t_start. some (record {
                    schema_version = "0.1.0";
                    event_id = stable_id l "otlp-codex-tool" (text span_id ∷ []);
                    ts = ts;
                    collector = codex_collector;
                    session_id = session_id;
                    attribution = some (record {
                      agent_id = none;
                      subagent_id = none;
                      task_id = none;
                      tool_call_id = some span_id;
                    });
                    payload = action_span (record {
                      span_id = span_id;
                      tool_name = tool_name;
                      tool_kind = kind;
                      execution_locus = classify_locus kind (string_at l j r "mcp_server");
                      t_start = t_start;
                      t_end = ts;
                      pids = none;
                      cgroup = none;
                      status = some (success_status (bool_of j l.whole r "success"));
                    });
                  })

  unfoldable pub remember_provider : LogRecord V → ProviderCache → ProviderCache
  unfolding insert
  remember_provider r c = elim (session_of r) [
    | none ↦ c
    | some conversation ↦ elim (string_at l j r "provider_name") [
      | none ↦ c
      | some provider ↦ insert conversation provider c
    ]
  ]

  unfoldable pub provider_for : LogRecord V → ProviderCache → String
  unfolding get
  provider_for r c =
      unwrap_or (and_then (session_of r) (λ conversation. get conversation c)) "unknown"

  -- A completed response without an envelope is dropped if it reports any usage.
  abbrev llm_outcome : Bool → Option (Envelope F) → RecordOutcome F
  llm_outcome used (some e) = envelope e
  llm_outcome used none = if used then dropped else not_applicable

  abbrev is_completed : LogRecord V → Bool
  is_completed r = is_text (string_at l j r "event.kind") "response.completed"

  unfoldable pub codex : LogRecord V → ℕ → ProviderCache → RecordOutcome F × ProviderCache
  unfolding remember_provider map_session map_llm_call provider_for has_any_usage map_action
  codex r index c =
      let name = string_at l j r "event.name" in
      if is_text name "codex.conversation_starts"
      then (or_dropped (map_session r index), remember_provider r c)
      else if is_text name "codex.sse_event"
      then (
        if is_completed r
            then llm_outcome (has_any_usage r) (map_llm_call r index (provider_for r c))
            else not_applicable,
        c,
      )
      else if is_text name "codex.tool_result"
      then (or_dropped (map_action r index), c)
      else (not_applicable, c)
