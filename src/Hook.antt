-- ===== src/Hook.antt =====
-- crates/af-cli/src/cmd/hook.rs: the spans that Claude Code's hooks open and close.
pub mod Spans
pub mod Laws
pub mod Observed
use agentic_footprint.Prelude.{
  ℕ, suc, String, str_append, Bool, true, false, Option, none, some, List, [], ◌∷◌, str_eq,
  if◌then◌else◌, and_then, unwrap_or,
}
use agentic_footprint.Prelude.Int.{ℤ}
use agentic_footprint.Prelude.Keyed.{string_key, lookup, alter, remove}
use agentic_footprint.Json.{Json}
use agentic_footprint.Events.{
  Envelope, Attribution, Collector, Payload, ActionSpan, AgentApp, SessionMeta, Status, ToolKind,
  ExecutionLocus, action_span, session_meta,
}
use agentic_footprint.Events.Validate.{Result, ok, err}
use agentic_footprint.Sanitize.{sanitize_id}
use agentic_footprint.Hook.Spans.{json_string, close_span}

-- The directories of open spans by session, each with its files and their contents; the spool is
-- `D`, and `count` numbers the event ids of an invocation.
pub record HookState (D : Type 0) : Type 0 where
  pub open_spans : List (String × List (String × String))
  pub spool : D
  pub count : ℕ

-- What an invocation finds: the clock as a text, the parent process, the operating system, the
-- event ids, the JSON parser, the spool, and whether a span's file can be written.
pub record World (V F D : Type 0) : Type 0 where
  pub ts : String
  pub parent_pid : Option ℤ
  pub os : String
  pub new_event_id : ℕ → String
  pub from_str : String → Option V
  pub append : String → Envelope F → D → Result (Unit {0}) String × D
  pub write_span : String → String → Result (Unit {0}) String

-- The fields that `handle` reads from the hook's JSON.
pub record Call : Type 0 where
  pub session_id : String
  pub event : String
  pub tool_use_id_raw : String
  pub tool_name : String
  pub is_interrupt : Bool

abbrev pub files_of : {D : Type 0} → String → HookState D → List (String × String)
files_of session_id s = unwrap_or (lookup session_id s.open_spans) []

abbrev pub remove_span : {D : Type 0} → String → String → HookState D → HookState D
remove_span session_id id s = record s {
  open_spans = alter session_id [] (λ files. remove id files) s.open_spans;
}

-- `std::fs::remove_file`; there is nothing to do without a directory.
unfoldable pub forget_span : {D : Type 0} → String → String → HookState D → HookState D
forget_span session_id id s = elim (lookup session_id s.open_spans) [
  | none ↦ s
  | some _ ↦ remove_span session_id id s
]

module _ {V F D : Type 0} (j : Json V F) (w : World V F D) where
  abbrev pub is_true : Option V → Bool
  is_true none = false
  is_true (some value) = elim (j.as_bool value) [
    | some flag ↦ flag
    | none ↦ elim (j.as_str value) [ none ↦ false | some s ↦ str_eq s "true" ]
  ]

  unfoldable pub read_call : V → Call
  unfolding json_string sanitize_id
  read_call hook = record {
    session_id = sanitize_id (json_string j (j.get hook "session_id") "unknown");
    event = json_string j (j.get hook "hook_event_name") "";
    tool_use_id_raw = json_string j (j.get hook "tool_use_id") "";
    tool_name = json_string j (j.get hook "tool_name") "";
    is_interrupt = is_true (j.get hook "is_interrupt");
  }

  abbrev attribution_of : Option String → Option Attribution
  attribution_of none = none
  attribution_of (some id) =
      some (record { agent_id = none; subagent_id = none; task_id = none; tool_call_id = some id })

  unfoldable pub envelope : String → Option String → Payload F → ℕ → Envelope F
  envelope session_id tool_call_id payload count = record {
    schema_version = "0.1.0";
    event_id = w.new_event_id count;
    ts = w.ts;
    collector = record { name = "cc-hooks"; version = "0.1.0" };
    session_id = session_id;
    attribution = attribution_of tool_call_id;
    payload = payload;
  }

  abbrev emitted :
      HookState D → Result (Unit {0}) String × D → Result (Unit {0}) String × HookState D
  emitted s (r, d) = (r, record s { spool = d; count = suc s.count })

  unfoldable pub emit :
      String → Option String → Payload F → HookState D → Result (Unit {0}) String × HookState D
  unfolding envelope
  emit session_id tool_call_id payload s =
      emitted s (w.append session_id (envelope session_id tool_call_id payload s.count) s.spool)

  -- `?` and what comes after it.
  abbrev pub and_next :
      (HookState D → Result (Unit {0}) String × HookState D)
      → Result (Unit {0}) String × HookState D
      → Result (Unit {0}) String × HookState D
  and_next rest (ok _, s) = rest s
  and_next rest (err e, s) = (err e, s)

  unfoldable pub session_start : Call → HookState D → Result (Unit {0}) String × HookState D
  unfolding emit
  session_start c s =
      and_next
        (emit c.session_id none (
          session_meta (record {
            agent_app = record { name = "claude-code"; version = none };
            os = some w.os;
            hardware = none;
            geo_zone = none;
            power_source = none;
          })))
        (emit c.session_id none
          (action_span (record {
            span_id = str_append "session-boot-" c.session_id;
            tool_name = "__session__";
            tool_kind = ToolKind.other;
            execution_locus = ExecutionLocus.local;
            t_start = w.ts;
            t_end = w.ts;
            pids = and_then w.parent_pid (λ pid. some (pid ∷ []));
            cgroup = none;
            status = some Status.ok;
          }))
          s)

  abbrev pub open_record : String → String
  open_record tool_name =
      j.to_text (j.object (("t_start", j.text w.ts) ∷ ("tool_name", j.text tool_name) ∷ []))

  abbrev pub written :
      Call
      → String
      → HookState D
      → Result (Unit {0}) String
      → Result (Unit {0}) String × HookState D
  written c id s (err e) = (err e, s)
  written c id s (ok _) =
      let contents = open_record c.tool_name in
      (
        ok tt,
        record s {
          open_spans =
              alter c.session_id [] (λ files. alter id contents (λ _. contents) files) s.open_spans;
        },
      )

  unfoldable pub pre_tool_use : Call → HookState D → Result (Unit {0}) String × HookState D
  unfolding sanitize_id
  pre_tool_use c s =
      if str_eq c.tool_use_id_raw ""
      then (ok tt, s)
      else (let id = sanitize_id c.tool_use_id_raw in written c id s (w.write_span c.session_id id))

  -- `read_open_span` of a file that may not be there.
  abbrev pub read_open_span : Option String → Option V
  read_open_span contents = and_then contents w.from_str

  abbrev pub closing_status : Call → Status
  closing_status c =
      if str_eq c.event "PostToolUseFailure"
      then if c.is_interrupt then Status.cancelled else Status.error
      else Status.ok

  unfoldable pub close : Call → String → HookState D → Result (Unit {0}) String × HookState D
  unfolding close_span emit forget_span
  close c id s =
      let contents = lookup id (files_of c.session_id s) in
      let span = close_span j (read_open_span contents) id c.tool_name (closing_status c) w.ts in
      and_next (λ t. (ok tt, forget_span c.session_id id t))
        (emit c.session_id (some id) (action_span span) s)

  unfoldable pub post_tool_use : Call → HookState D → Result (Unit {0}) String × HookState D
  unfolding close sanitize_id
  post_tool_use c s =
      if str_eq c.tool_use_id_raw "" then (ok tt, s) else close c (sanitize_id c.tool_use_id_raw) s

  -- One file of the sweep: a span, or a corrupt file, which gives nothing.
  abbrev pub sweep_file :
      Call → String → Option V → HookState D → Result (Unit {0}) String × HookState D
  sweep_file c id none s = (ok tt, s)
  sweep_file c id (some value) s =
      emit c.session_id (some id)
        (action_span (close_span j (some value) id "" Status.unknown w.ts)) s

  -- The files in the order of their names, and then the directory, which is empty.
  unfoldable pub sweep :
      Call → List (String × String) → HookState D → Result (Unit {0}) String × HookState D
  unfolding close_span emit forget_span
  sweep c [] s = (ok tt, record s { open_spans = remove c.session_id s.open_spans })
  sweep c ((id, contents) ∷ files) s =
      and_next (λ t. sweep c files (forget_span c.session_id id t))
        (sweep_file c id (w.from_str contents) s)

  unfoldable pub stop : Call → HookState D → Result (Unit {0}) String × HookState D
  unfolding sweep
  stop c s = elim (lookup c.session_id s.open_spans) [
    | none ↦ (ok tt, s)
    | some files ↦ sweep c files s
  ]

  unfoldable pub dispatch : Call → HookState D → Result (Unit {0}) String × HookState D
  unfolding session_start pre_tool_use post_tool_use stop
  dispatch c s =
      if str_eq c.event "SessionStart"
      then session_start c s
      else if str_eq c.event "PreToolUse"
      then pre_tool_use c s
      else if str_eq c.event "PostToolUse"
      then post_tool_use c s
      else if str_eq c.event "PostToolUseFailure"
      then post_tool_use c s
      else if str_eq c.event "Stop"
      then stop c s
      else if str_eq c.event "SessionEnd"
      then stop c s
      else (ok tt, s)

  unfoldable pub handle : Option V → HookState D → Result (Unit {0}) String × HookState D
  unfolding dispatch read_call
  handle none s = (err "hook stdin is not valid JSON", s)
  handle (some hook) s = dispatch (read_call hook) s
