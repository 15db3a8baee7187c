-- ===== src/Tests/Hooks.antt =====
-- Runs of the theorems on `af hook` at concrete inputs.
use agentic_footprint.Prelude.{ℕ, suc, String, ◌≡◌, refl, false, some, [], ◌∷◌}
use agentic_footprint.Prelude.Int.{ℤ, pos}
use agentic_footprint.Prelude.Keyed.{string_key, lookup}
use agentic_footprint.Json.Tree.{Tree, text, object, member, end, tree_json, tree_json-JsonLaws}
use agentic_footprint.Events.{Status}
use agentic_footprint.Events.Validate.{ok}
use agentic_footprint.Sanitize.{sanitize_id}
use agentic_footprint.Hook.{
  HookState, World, Call, read_call, files_of, pre_tool_use, read_open_span, handle,
}
use agentic_footprint.Hook.Spans.{close_span}
use agentic_footprint.Hook.Laws.{handle_lem}
use agentic_footprint.Hook.Observed.{close_span-pre_tool_use}

abbrev world : String → World Tree ℤ ℕ
world ts = record {
  ts = ts;
  parent_pid = some (pos 4);
  os = "linux";
  new_event_id = λ n. "cc-0123456789abcdef";
  from_str =
      λ s. some (object (member "t_start" (text "t1") (member "tool_name" (text "Bash") end)));
  append = λ session event d. (ok tt, suc d);
  write_span = λ session id. ok tt;
}

abbrev stop_hook : Tree
stop_hook = object (member "session_id" (text "a") (member "hook_event_name" (text "Stop") end))

abbrev state : HookState ℕ
state = record {
  open_spans = ("a", ("tool-1", "{}") ∷ []) ∷ ("b", ("tool-2", "{}") ∷ []) ∷ [];
  spool = 0;
  count = 0;
}

abbrev call : Call
call = record {
  session_id = "a";
  event = "PreToolUse";
  tool_use_id_raw = "tool-3";
  tool_name = "Bash";
  is_interrupt = false;
}

handle_lem_example :
    lookup "b" (handle tree_json (world "t2") (some stop_hook) state).1.open_spans
    ≡ lookup "b" state.open_spans
unfolding read_call tree_json
handle_lem_example = handle_lem tree_json (world "t2") "b" stop_hook state refl

close_span-pre_tool_use_example :
    ((close_span tree_json
        (read_open_span tree_json (world "t2") (
          lookup
            (sanitize_id "tool-3")
            (files_of "a" (pre_tool_use tree_json (world "t1") call state).1)))
        (sanitize_id "tool-3")
        "Bash"
        Status.ok
        "t2").t_start
      ≡ "t1")
    × ((close_span tree_json
          (read_open_span tree_json (world "t2") (
            lookup
              (sanitize_id "tool-3")
              (files_of "a" (pre_tool_use tree_json (world "t1") call state).1)))
          (sanitize_id "tool-3")
          "Bash"
          Status.ok
          "t2").status
        ≡ some Status.ok)
unfolding tree_json
close_span-pre_tool_use_example =
    close_span-pre_tool_use tree_json tree_json-JsonLaws (world "t1") call state (world "t2") tt
      "Bash" Status.ok refl refl refl refl
