-- ===== src/Tests/Lines.antt =====
-- Reading a line of an event at concrete inputs.
use agentic_footprint.Prelude.{str_append, ◌≡◌, ◌↔◌, refl, true, false}
use agentic_footprint.Prelude.Int.{ℤ}
use agentic_footprint.Json.Tree.{Tree, Members, tree_json}
use agentic_footprint.Events.Validate.{ok, err, schema, is_supported_version}
use agentic_footprint.Events.Validate.Version.{IsSupported, is_supported_version-IsSupported}
use agentic_footprint.Events.Parse.{
  OpaqueEvent, Decoder, is_known_tag, parse_line, parse_line_preserving_unknown, parse_value,
  parse_opaque, parse_collector, required_string,
}
use agentic_footprint.Events.Parse.Opaque.{IsOpaque, parse_line_preserving_unknown-IsOpaque}
use agentic_footprint.Events.Validate.{check_schema_version}
use agentic_footprint.Samples.{decoder}

is_supported_version-IsSupported_example :
    (is_supported_version "0.1.42" ≡ true) ↔ IsSupported "0.1.42"
is_supported_version-IsSupported_example = is_supported_version-IsSupported "0.1.42"

-- An event of a type that a later version may bring.
abbrev later_event : Tree
later_event = Tree.object (
    Members.member "schema_version" (Tree.text "0.1.9") (
      Members.member "event_id" (Tree.text "event-0123456789") (
        Members.member "ts" (Tree.text "2026-01-01T00:00:00Z") (
          Members.member "collector" (Tree.object Members.end) (
            Members.member "session_id" (Tree.text "s1") (
              Members.member "type" (Tree.text "carbon_note")
                (Members.member "payload" (Tree.object Members.end) Members.end)))))))

abbrev later : OpaqueEvent Tree
later = record {
  schema_version = "0.1.9";
  event_id = "event-0123456789";
  ts = "2026-01-01T00:00:00Z";
  collector = record { name = "otlp"; version = "1.0.0" };
  session_id = "s1";
  type_tag = "carbon_note";
  json = later_event;
}

abbrev later_decoder : Decoder Tree ℤ
later_decoder = record decoder {
  from_str = λ line. ok later_event;
  collector = λ v. ok (record { name = "otlp"; version = "1.0.0" });
}

parse_line_preserving_unknown-IsOpaque_example :
    (value : Tree) × (later_decoder.from_str "{}" ≡ ok value)
    × IsOpaque tree_json later_decoder value later
    × IsSupported "0.1.9"
    × (is_known_tag "carbon_note" ≡ false)
    × (parse_line tree_json later_decoder (λ t. t) "{}"
        ≡ err (schema (str_append "/type: unknown event type " "carbon_note")))
unfolding tree_json parse_line_preserving_unknown parse_value parse_opaque required_string
    parse_collector check_schema_version is_supported_version
parse_line_preserving_unknown-IsOpaque_example =
    parse_line_preserving_unknown-IsOpaque tree_json later_decoder (λ t. t) "{}" later refl
