-- ===== src/Events/Parse.antt =====
-- crates/af-events/src/lib.rs: `parse_line` and its parts.
pub mod Opaque
use Prim.Native.String.{len}
use agentic_footprint.Prelude.{
  ℕ, String, str_append, ◌≡◌, Bool, true, false, ◌||◌, Option, none, some, ltb, str_eq, is_some,
  if◌then◌else◌, and_then,
}
use agentic_footprint.Json.{Json, get_str}
use agentic_footprint.Events.{Collector, Envelope}
use agentic_footprint.Events.Validate.{
  RejectReason, json, schema, Result, ok, err, ◌>>=◌, ◌>>◌, map_err, check_schema_version, located,
}

pub record OpaqueEvent (V : Type 0) : Type 0 where
  pub schema_version : String
  pub event_id : String
  pub ts : String
  pub collector : Collector
  pub session_id : String
  pub type_tag : String
  pub json : V

pub data ParsedLine (V F : Type 0) : Type 0 where
  known : Envelope F → ParsedLine V F
  opaque : OpaqueEvent V → ParsedLine V F

-- What is not in the repository: the JSON parser, the compiled JSON Schema, the derived
-- deserializers and the RFC 3339 parser, each with the text of its error.
pub record Decoder (V F : Type 0) : Type 0 where
  pub from_str : String → Result V String
  pub validate : V → Option (String × String)
  pub envelope : V → Result (Envelope F) String
  pub collector : V → Result Collector String
  pub ts_error : String → Option String

abbrev pub is_known_tag : String → Bool
is_known_tag t =
    str_eq t "llm_call"
    || str_eq t "energy_sample"
    || str_eq t "action_span"
    || str_eq t "process_sample"
    || str_eq t "session_meta"

abbrev pub is_known : Option String → Bool
is_known none = false
is_known (some t) = is_known_tag t

abbrev pub ok_or : {T E : Type 0} → Option T → E → Result T E
ok_or none e = err e
ok_or (some a) e = ok a

abbrev pub require : Bool → RejectReason → Result (Unit {0}) RejectReason
require true e = ok tt
require false e = err e

-- `.filter(|value| !value.is_empty())`.
abbrev pub non_empty : Option String → Option String
non_empty none = none
non_empty (some s) = if str_eq s "" then none else some s

abbrev pub no_error : Option String → (String → RejectReason) → Result (Unit {0}) RejectReason
no_error none f = ok tt
no_error (some e) f = err (f e)

module _ {V F : Type 0} (j : Json V F) (d : Decoder V F) where
  open j use {get}

  unfoldable pub required_string : V → String → Result String RejectReason
  required_string value key =
      ok_or (non_empty (get_str j value key))
        (schema (str_append "/" (str_append key ": required non-empty string")))

  unfoldable pub check_event : V → Result (Unit {0}) RejectReason
  check_event value = located (d.validate value)

  unfoldable pub parse_collector : V → Result Collector RejectReason
  parse_collector value = do
    c ← ok_or (get value "collector") (schema "/collector: required object")
    map_err (λ e. schema (str_append "/collector: " e)) (d.collector c)

  unfoldable pub parse_opaque : V → Result (OpaqueEvent V) RejectReason
  parse_opaque value = do
    schema_version ← required_string value "schema_version"
    event_id ← required_string value "event_id"
    require (if ltb (len event_id) 16 then false else true)
        (schema "/event_id: must contain at least 16 characters")
    ts ← required_string value "ts"
    no_error (d.ts_error ts) (λ e. schema (str_append "/ts: " e))
    collector ← parse_collector value
    session_id ← required_string value "session_id"
    type_tag ← required_string value "type"
    require (is_some (get value "payload")) (schema "/payload: required")
    ok (record {
      schema_version = schema_version;
      event_id = event_id;
      ts = ts;
      collector = collector;
      session_id = session_id;
      type_tag = type_tag;
      json = value;
    })

  unfoldable pub parse_known : V → Result (Envelope F) RejectReason
  unfolding check_event
  parse_known value = do check_event value; map_err schema (d.envelope value)

  unfoldable pub parse_value : V → Result (ParsedLine V F) RejectReason
  parse_value value =
      check_schema_version j value
      >> (if is_known (get_str j value "type")
          then (parse_known value >>= λ e. ok (known e))
          else (parse_opaque value >>= λ o. ok (opaque o)))

  unfoldable pub parse_line_preserving_unknown : String → Result (ParsedLine V F) RejectReason
  parse_line_preserving_unknown line = do value ← map_err json (d.from_str line); parse_value value

  -- `debug_text` is the `{:?}` of the unknown type.
  unfoldable pub only_known : (String → String) → ParsedLine V F → Result (Envelope F) RejectReason
  only_known debug_text (known envelope) = ok envelope
  only_known debug_text (opaque event) =
      err (schema (str_append "/type: unknown event type " (debug_text event.type_tag)))

  unfoldable pub parse_line : (String → String) → String → Result (Envelope F) RejectReason
  unfolding only_known
  parse_line debug_text line = do
    parsed ← parse_line_preserving_unknown line
    only_known debug_text parsed
