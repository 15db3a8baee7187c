-- ===== src/Hook/Spans.antt =====
-- crates/af-cli/src/cmd/hook.rs: `close_span`, `classify_tool` and `json_string`.
use agentic_footprint.Prelude.{
  String, Bool, true, false, Option, none, some, [], ◌∷◌, str_eq, if◌then◌else◌, and_then,
  unwrap_or, is_some,
}
use agentic_footprint.Prelude.Text.{one_of, starts_with}
use agentic_footprint.Json.{Json, get_str}
use agentic_footprint.Events.{ActionSpan, Status, ToolKind, ExecutionLocus}

unfoldable pub classify_tool : String → ToolKind × ExecutionLocus
classify_tool name =
    if str_eq name "Bash"
    then (ToolKind.bash, ExecutionLocus.local)
    else if starts_with "mcp__" name
    then (ToolKind.mcp, ExecutionLocus.unknown)
    else if one_of name ("Edit" ∷ "Write" ∷ "Read" ∷ "NotebookEdit" ∷ "Glob" ∷ "Grep" ∷ [])
    then (ToolKind.file_op, ExecutionLocus.local)
    else if one_of name ("Task" ∷ "Agent" ∷ [])
    then (ToolKind.subagent, ExecutionLocus.local)
    else if one_of name ("WebFetch" ∷ "WebSearch" ∷ [])
    then (ToolKind.web, ExecutionLocus.remote)
    else (ToolKind.other, ExecutionLocus.unknown)

abbrev pub non_empty : Option String → Option String
non_empty none = none
non_empty (some s) = if str_eq s "" then none else some s

module _ {V F : Type 0} (j : Json V F) where
  abbrev shown : V → String
  shown value = elim (j.as_str value) [ none ↦ j.to_text value | some s ↦ s ]

  abbrev shown_flag : Option Bool → V → String → String
  shown_flag (some false) value default = default
  shown_flag (some true) value default = j.to_text value
  shown_flag none value default = shown value

  unfoldable pub json_string : Option V → String → String
  json_string none default = default
  json_string (some value) default =
      if j.is_null value then default else shown_flag (j.as_bool value) value default

  -- The start that was recorded, unless it is empty.
  abbrev pub observed_start : Option V → Option String
  observed_start o = non_empty (and_then o (λ value. get_str j value "t_start"))

  unfoldable recorded_name : Option V → String
  unfolding json_string
  recorded_name none = ""
  recorded_name (some value) = json_string (j.get value "tool_name") ""

  unfoldable pub close_span : Option V → String → String → Status → String → ActionSpan
  unfolding recorded_name classify_tool
  close_span open_record span_id tool_name status t_end =
      let start = observed_start open_record in
      let name = if str_eq tool_name "" then recorded_name open_record else tool_name in
      record {
        span_id = span_id;
        tool_name = name;
        tool_kind = (classify_tool name).0;
        execution_locus = (classify_tool name).1;
        t_start = unwrap_or start t_end;
        t_end = t_end;
        pids = none;
        cgroup = none;
        status = some (if is_some start then status else Status.unknown);
      }
