-- ===== src/OpenCode/Normalize.antt =====
-- crates/af-cli/src/cmd/opencode.rs: `Normalizer`, which pairs the start of a step, a tool call or a
-- shell command with its end.
use Prim.Native.String.{len}
use agentic_footprint.Prelude.{
  ℕ, ◌*◌, String, str_append, Bool, true, false, Option, none, some, List, [], ◌∷◌, and_then,
  if◌then◌else◌, ltb,
}
use agentic_footprint.Prelude.Int.{ℤ}
use agentic_footprint.Prelude.Keyed.{string_key}
use agentic_footprint.Prelude.Text.{
  contains_str, to_ascii_lowercase, take_chars, one_of, starts_with,
}
use agentic_footprint.Json.{Json}
use agentic_footprint.Events.{
  Envelope, Collector, Attribution, Usage, Payload, Status, ToolKind, ExecutionLocus,
}
use agentic_footprint.Events.Validate.{Result, ok, err, ◌>>=◌}
use agentic_footprint.OpenCode.{SourceEvent}

-- What is not in the repository: the `time` crate's dates, the SHA-256 digest in hexadecimal, and
-- `str::to_lowercase` with its Unicode table.
pub record Library (T : Type 0) : Type 0 where
  pub from_unix_timestamp_nanos : ℕ → Option T
  pub format : T → Option String
  pub sha256 : String → String
  pub to_lowercase : String → String

abbrev pub collector : Collector
collector = record { name = "opencode"; version = "0.1.0" }

unfoldable pub tool_kind : String → ToolKind
tool_kind name =
    let value = to_ascii_lowercase name in
    if one_of value ("bash" ∷ "shell" ∷ "terminal" ∷ [])
    then ToolKind.bash
    else if one_of value ("edit" ∷ "write" ∷ "read" ∷ "patch" ∷ "multiedit" ∷ [])
    then ToolKind.file_op
    else if one_of value ("task" ∷ "agent" ∷ "subagent" ∷ [])
    then ToolKind.subagent
    else if one_of value ("webfetch" ∷ "websearch" ∷ "fetch" ∷ "search" ∷ [])
    then ToolKind.web
    else if starts_with "mcp" value
    then ToolKind.mcp
    else ToolKind.other

abbrev kind_locus : ToolKind → ExecutionLocus
kind_locus ToolKind.bash = ExecutionLocus.local
kind_locus ToolKind.file_op = ExecutionLocus.local
kind_locus ToolKind.subagent = ExecutionLocus.local
kind_locus ToolKind.web = ExecutionLocus.remote
kind_locus ToolKind.mcp = ExecutionLocus.unknown
kind_locus ToolKind.other = ExecutionLocus.unknown

unfoldable pub execution_locus : ToolKind → Bool → ExecutionLocus
execution_locus kind true = ExecutionLocus.remote
execution_locus kind false = kind_locus kind

-- The process id is claimed for spans that run here.
abbrev pub local_pids : ExecutionLocus → Option ℤ → Option (List ℤ)
local_pids ExecutionLocus.local (some pid) = some (pid ∷ [])
local_pids ExecutionLocus.hybrid (some pid) = some (pid ∷ [])
local_pids _ _ = none

abbrev pub all_pids : Option ℤ → Option (List ℤ)
all_pids none = none
all_pids (some pid) = some (pid ∷ [])

abbrev pub no_attribution : Attribution
no_attribution = record { agent_id = none; subagent_id = none; task_id = none; tool_call_id = none }

abbrev pub context : {A : Type 0} → Option A → String → Result A String
context none e = err e
context (some a) e = ok a

module _ {T : Type 0} (l : Library T) where
  unfoldable pub digest_prefix : String → ℕ → String
  digest_prefix value length = take_chars length (l.sha256 value)

  unfoldable pub stable_event_id : String → String
  unfolding digest_prefix
  stable_event_id value =
      if ltb (len value) 16 then str_append "opencode-" (digest_prefix value 24) else value

  unfoldable pub timestamp : ℕ → Result String String
  timestamp epoch_ms = do
    date ←
        context (l.from_unix_timestamp_nanos (epoch_ms * 1000000))
          "OpenCode timestamp is out of range"
    context (l.format date) "format OpenCode timestamp"

module _ {V F : Type 0} (j : Json V F) where
  unfoldable pub as_object : V → Result V String
  as_object value = if j.is_object value then ok value else err "value is not an object"

  -- `value.and_then(Value::as_object)`.
  abbrev pub object_member : Option V → Option V
  object_member none = none
  object_member (some value) = if j.is_object value then some value else none

  unfoldable pub required_value : V → String → Result V String
  required_value value key = context (j.get value key) (str_append "missing " key)

  unfoldable pub required_str : V → String → Result String String
  unfolding required_value
  required_str value key = do
    member ← required_value value key
    context (j.as_str member) (str_append key " is not a string")

  unfoldable pub required_u64 : V → String → Result ℕ String
  unfolding required_value
  required_u64 value key = do
    member ← required_value value key
    context (j.as_u64 member) (str_append key " is not an unsigned integer")

  abbrev pub optional_u64 : Option V → String → Option ℕ
  optional_u64 value key = and_then (and_then value (λ v. j.get v key)) j.as_u64

  unfoldable pub step_usage : V → Usage
  step_usage value =
      let tokens = object_member (j.get value "tokens") in
      let cache = object_member (and_then tokens (λ t. j.get t "cache")) in
      record {
        input_tokens = optional_u64 tokens "input";
        output_tokens = optional_u64 tokens "output";
        thought_tokens = optional_u64 tokens "reasoning";
        cached_read_tokens = optional_u64 cache "read";
        cached_write_tokens = optional_u64 cache "write";
      }

  module _ {T : Type 0} (l : Library T) where
    unfoldable pub envelope :
        SourceEvent V → Option Attribution → Payload F → Result (Envelope F) String
    unfolding as_object required_u64 required_str timestamp stable_event_id
    envelope event attribution payload = do
      value ← as_object event.body
      source_id ← context event.id "event id is missing"
      ms ← required_u64 value "timestamp"
      ts ← timestamp l ms
      session_id ← required_str value "sessionID"
      ok (record {
        schema_version = "0.1.0";
        event_id = stable_event_id l source_id;
        ts = ts;
        collector = collector;
        session_id = session_id;
        attribution = attribution;
        payload = payload;
      })

    abbrev pub is_cancelled : V → Bool
    is_cancelled value = elim (j.get value "error") [
      | none ↦ false
      | some error ↦ contains_str "cancel" (l.to_lowercase (j.to_text error))
    ]

    unfoldable pub step_status : V → Bool → Status
    step_status value failed =
        if failed then if is_cancelled value then Status.cancelled else Status.error else Status.ok
