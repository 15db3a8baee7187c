-- ===== src/Hook/Observed.antt =====
-- A span that is opened and then closed.
use agentic_footprint.Prelude.{
  String, ◌≡◌, refl, ap, ◌∙◌, false, some, List, [], ◌∷◌, str_eq, unwrap_or, and_then,
}
use agentic_footprint.Prelude.Keyed.{string_key, lookup, alter}
use agentic_footprint.Prelude.Keyed.Laws.{lookup-alter}
use agentic_footprint.Prelude.Keyed.Lookups.{lookup-alter-same}
use agentic_footprint.Json.{Json, JsonLaws}
use agentic_footprint.Events.{Status}
use agentic_footprint.Events.Validate.{ok}
use agentic_footprint.Sanitize.{sanitize_id}
use agentic_footprint.Hook.Spans.{close_span, observed_start, non_empty}
use agentic_footprint.Hook.{HookState, World, Call, files_of, pre_tool_use, read_open_span}

module _ {V F D : Type 0} (j : Json V F) (laws : JsonLaws V F ⦃j = j⦄) (w : World V F D) (c : Call)
    (s : HookState D) where
  -- What is written under the id.
  abbrev record_value : V
  record_value = j.object (("t_start", j.text w.ts) ∷ ("tool_name", j.text c.tool_name) ∷ [])

  lookup-pre_tool_use :
      (t : Unit {0})
      → str_eq c.tool_use_id_raw "" ≡ false
      → w.write_span c.session_id (sanitize_id c.tool_use_id_raw) ≡ ok t
      → lookup (sanitize_id c.tool_use_id_raw) (files_of c.session_id (pre_tool_use j w c s).1)
        ≡ some (j.to_text record_value)
  unfolding pre_tool_use
  lookup-pre_tool_use t raw h =
      let id = sanitize_id c.tool_use_id_raw in
      let contents = j.to_text record_value in
      let f : List (String × String) → List (String × String) =
        λ files. alter id contents (λ _. contents) files in
      rw (raw, h)
        (ap (λ o. lookup id (unwrap_or o [])) (lookup-alter-same c.session_id [] f s.open_spans)
          ∙ lookup-alter id contents (unwrap_or (lookup c.session_id s.open_spans) []))

  observed_start-record : str_eq w.ts "" ≡ false → observed_start j (some record_value) ≡ some w.ts
  unfolding lookup
  observed_start-record h =
      ap (λ o. non_empty (and_then o j.as_str))
        (laws.get-object (("t_start", j.text w.ts) ∷ ("tool_name", j.text c.tool_name) ∷ [])
          "t_start")
      ∙ ap non_empty (laws.as_str-text w.ts)
      ∙ rw h refl

  -- When a tool call is opened under an id that is not empty, its file can be written and what is
  -- written parses to the value that it prints, the span that closes it starts at the time of the
  -- opening, which is not empty, and has the status that the closing gives.
  pub close_span-pre_tool_use :
      (v : World V F D) (t : Unit {0}) (name : String) (status : Status)
      → str_eq c.tool_use_id_raw "" ≡ false
      → str_eq w.ts "" ≡ false
      → w.write_span c.session_id (sanitize_id c.tool_use_id_raw) ≡ ok t
      → v.from_str (j.to_text record_value) ≡ some record_value
      → ((close_span j
            (read_open_span j v (
              lookup
                (sanitize_id c.tool_use_id_raw)
                (files_of c.session_id (pre_tool_use j w c s).1)))
            (sanitize_id c.tool_use_id_raw)
            name
            status
            v.ts).t_start
          ≡ w.ts)
        × ((close_span j
              (read_open_span j v (
                lookup
                  (sanitize_id c.tool_use_id_raw)
                  (files_of c.session_id (pre_tool_use j w c s).1)))
              (sanitize_id c.tool_use_id_raw)
              name
              status
              v.ts).status
            ≡ some status)
  unfolding close_span
  close_span-pre_tool_use v t name status raw ts h parsed =
      let start = observed_start-record ts in
      rw (lookup-pre_tool_use t raw h, parsed, start) (refl, refl)
