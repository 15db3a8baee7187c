-- ===== src/OpenCode/Settle.antt =====
-- crates/af-cli/src/cmd/opencode.rs: `Normalizer::normalize` with `step`, `tool` and `shell`.
use agentic_footprint.Prelude.{
  ◌-◌, String, Bool, true, false, Option, none, some, List, [], ◌∷◌, str_eq, and_then, unwrap_or,
  if◌then◌else◌,
}
use agentic_footprint.Prelude.Int.{ℤ}
use agentic_footprint.Prelude.Keyed.{string_key, lookup, alter, remove}
use agentic_footprint.Json.{Json, get_str}
use agentic_footprint.Events.{
  Envelope, Status, ToolKind, ExecutionLocus, agent_telemetry, llm_call, action_span,
}
use agentic_footprint.Events.Validate.{Result, ok, err, ◌>>=◌}
use agentic_footprint.OpenCode.{SourceEvent, NormalizerState, Normalizer}
use agentic_footprint.OpenCode.Normalize.{
  Library, tool_kind, execution_locus, local_pids, all_pids, no_attribution, timestamp, as_object,
  required_value, required_str, required_u64, object_member, step_usage, step_status, envelope,
}

-- Which of the three tables an event works on.
pub data Table : Type 0 where
  steps tools shells : Table

abbrev pub pending : {V : Type 0} → Table → NormalizerState V → List (String × V)
pending steps s = s.steps
pending tools s = s.tools
pending shells s = s.shells

abbrev pub set_pending :
    {V : Type 0} → Table → List (String × V) → NormalizerState V → NormalizerState V
set_pending steps m s = record s { steps = m }
set_pending tools m s = record s { tools = m }
set_pending shells m s = record s { shells = m }

abbrev pub key_name : Table → String
key_name steps = "assistantMessageID"
key_name tools = "callID"
key_name shells = "callID"

-- `Ok(vec![envelope?])`.
abbrev pub single : {F : Type 0} → Result (Envelope F) String → Result (List (Envelope F)) String
single (ok e) = ok (e ∷ [])
single (err x) = err x

module _ {V F T : Type 0} (j : Json V F) (l : Library T) where
  abbrev provider_executed : V → Bool
  provider_executed started =
      let provider = object_member j (j.get started "provider") in
      unwrap_or (and_then (and_then provider (λ p. j.get p "executed")) j.as_bool) false

  -- The rest of `step`, once the start is taken from the table.
  unfoldable pub settle_step : SourceEvent V → V → String → Bool → V → Result (Envelope F) String
  settle_step event ended message_id failed start = do
    started ← as_object j start
    model_value ← required_value j started "model"
    model ← as_object j model_value
    start_ms ← required_u64 j started "timestamp"
    end_ms ← required_u64 j ended "timestamp"
    provider ← required_str j model "providerID"
    model_id ← required_str j model "id"
    envelope j l event
        (some (record no_attribution {
          agent_id = get_str j started "agent";
          task_id = some message_id;
        }))
        (llm_call (record {
          provider = provider;
          model_id_requested = model_id;
          model_id_served = none;
          endpoint = none;
          usage = step_usage j ended;
          usage_source = agent_telemetry;
          duration_ms = some (end_ms - start_ms);
          status = some (step_status j l ended failed);
          streaming = some true;
        }))

  unfoldable pub settle_tool :
      Option ℤ → SourceEvent V → V → String → Bool → V → Result (Envelope F) String
  settle_tool pid event ended call_id failed start = do
    started ← as_object j start
    tool_name ← required_str j started "tool"
    let locus = execution_locus (tool_kind tool_name) (provider_executed started)
    task_id ← required_str j ended "assistantMessageID"
    start_ms ← required_u64 j started "timestamp"
    t_start ← timestamp l start_ms
    end_ms ← required_u64 j ended "timestamp"
    t_end ← timestamp l end_ms
    envelope j l event
        (some (record no_attribution { task_id = some task_id; tool_call_id = some call_id }))
        (action_span (record {
          span_id = call_id;
          tool_name = tool_name;
          tool_kind = tool_kind tool_name;
          execution_locus = locus;
          t_start = t_start;
          t_end = t_end;
          pids = local_pids locus pid;
          cgroup = none;
          status = some (if failed then Status.error else Status.ok);
        }))

  unfoldable pub settle_shell :
      Option ℤ → SourceEvent V → V → String → V → Result (Envelope F) String
  settle_shell pid event ended call_id start = do
    started ← as_object j start
    start_ms ← required_u64 j started "timestamp"
    t_start ← timestamp l start_ms
    end_ms ← required_u64 j ended "timestamp"
    t_end ← timestamp l end_ms
    envelope j l event (some (record no_attribution { tool_call_id = some call_id })) (
        action_span (record {
          span_id = call_id;
          tool_name = "shell";
          tool_kind = ToolKind.bash;
          execution_locus = ExecutionLocus.local;
          t_start = t_start;
          t_end = t_end;
          pids = all_pids pid;
          cgroup = none;
          status = some Status.ok;
        }))

  -- A start: the event's data go under its id.
  abbrev pub remember_id :
      Table
      → V
      → Result String String
      → NormalizerState V
      → Result (List (Envelope F)) String × NormalizerState V
  remember_id t body (err e) s = (err e, s)
  remember_id t body (ok id) s = (ok [], set_pending t (alter id body (λ _. body) (pending t s)) s)

  unfoldable pub remember :
      Table → V → NormalizerState V → Result (List (Envelope F)) String × NormalizerState V
  remember t body s = remember_id t body (required_str j body (key_name t)) s

  -- An end: the start leaves the table, whether or not what follows fails.
  abbrev pub settle_started :
      Table
      → (String → V → Result (Envelope F) String)
      → String
      → Option V
      → NormalizerState V
      → Result (List (Envelope F)) String × NormalizerState V
  settle_started t go id none s = (ok [], s)
  settle_started t go id (some start) s =
      (single (go id start), set_pending t (remove id (pending t s)) s)

  abbrev pub settle_id :
      Table
      → (String → V → Result (Envelope F) String)
      → Result String String
      → NormalizerState V
      → Result (List (Envelope F)) String × NormalizerState V
  settle_id t go (err e) s = (err e, s)
  settle_id t go (ok id) s = settle_started t go id (lookup id (pending t s)) s

  unfoldable pub settle :
      Table
      → (String → V → Result (Envelope F) String)
      → V
      → NormalizerState V
      → Result (List (Envelope F)) String × NormalizerState V
  settle t go body s =
      settle_id t go (as_object j body >>= λ value. required_str j value (key_name t)) s

  unfoldable pub step :
      SourceEvent V
      → Bool
      → NormalizerState V
      → Result (List (Envelope F)) String × NormalizerState V
  unfolding settle_step settle
  step event failed s =
      settle steps (λ id start. settle_step event event.body id failed start) event.body s

  unfoldable pub tool :
      Option ℤ
      → SourceEvent V
      → Bool
      → NormalizerState V
      → Result (List (Envelope F)) String × NormalizerState V
  unfolding settle_tool settle
  tool pid event failed s =
      settle tools (λ id start. settle_tool pid event event.body id failed start) event.body s

  unfoldable pub shell :
      Option ℤ
      → SourceEvent V
      → NormalizerState V
      → Result (List (Envelope F)) String × NormalizerState V
  unfolding settle_shell settle
  shell pid event s =
      settle shells (λ id start. settle_shell pid event event.body id start) event.body s

  abbrev pub dispatch :
      Option ℤ
      → String
      → SourceEvent V
      → NormalizerState V
      → Result (List (Envelope F)) String × NormalizerState V
  dispatch pid event_type event s =
      if str_eq event_type "session.next.step.started"
      then remember steps event.body s
      else if str_eq event_type "session.next.step.ended"
      then step event false s
      else if str_eq event_type "session.next.step.failed"
      then step event true s
      else if str_eq event_type "session.next.tool.called"
      then remember tools event.body s
      else if str_eq event_type "session.next.tool.success"
      then tool pid event false s
      else if str_eq event_type "session.next.tool.failed"
      then tool pid event true s
      else if str_eq event_type "session.next.shell.started"
      then remember shells event.body s
      else if str_eq event_type "session.next.shell.ended"
      then shell pid event s
      else (ok [], s)

  -- The checks in front of the `match` on the type.
  abbrev pub check_fields : V → Result (Unit {0}) String
  check_fields body = do
    timestamp ← required_u64 j body "timestamp"
    session_id ← required_str j body "sessionID"
    ok tt

  abbrev pub check_data : V → Result (Unit {0}) String
  check_data body = if j.is_object body then check_fields body else err "data is not an object"

  abbrev pub normalize_checked :
      Result (Unit {0}) String
      → SourceEvent V
      → Normalizer V
      → Result (List (Envelope F)) String × NormalizerState V
  normalize_checked (err e) event n = (err e, n.state)
  normalize_checked (ok _) event n = dispatch n.pid (unwrap_or event.event_type "") event n.state

  unfoldable pub normalize :
      SourceEvent V → Normalizer V → Result (List (Envelope F)) String × NormalizerState V
  unfolding remember step tool shell
  normalize event n = normalize_checked (check_data event.body) event n
