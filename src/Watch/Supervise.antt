-- ===== src/Watch/Supervise.antt =====
-- crates/af-cli/src/cmd/watch.rs: a pass over the sampler, the `watch` message and the shutdown.
use agentic_footprint.Prelude.{
  ℕ, String, str_append, true, Option, none, some, List, [], ◌∷◌, ◌++◌, if◌then◌else◌, is_empty,
  str_eq,
}
use agentic_footprint.Prelude.Keyed.{string_key, lookup, update}
use agentic_footprint.Events.Validate.{Result, ok, err}
use agentic_footprint.Correlate.{Span, SessionTree, bootstrap_tool_name}
use agentic_footprint.Watch.Sampler.{
  watch, Sidecar, Machine, SamplerProcess, SessionState, Watch, touch, retire_idle_sessions,
  reap_dead_sampler, ensure_sampler, note_spawn_failure,
}

abbrev pub touch_all : {P : Type 0} → ℕ → List String → Watch P → Watch P
touch_all now [] w = w
touch_all now (session ∷ sessions) w = touch_all now sessions (touch now w session)

-- The id of the session's bootstrap span, or one made up for it.
abbrev pub boot_span : String → List Span → String
boot_span session_id [] = str_append "session-boot-" session_id
boot_span session_id (span ∷ spans) =
    let rest = boot_span session_id spans in
    if str_eq span.tool_name bootstrap_tool_name then span.span_id else rest

module _ {P : Type 0} (c : Sidecar P) where
  -- The sampler's operations, unless sidecars are turned off.
  unfoldable pub supervise_sampler : Machine P → Watch P → Watch P
  unfolding reap_dead_sampler ensure_sampler
  supervise_sampler m w =
      if w.no_sidecars then w else ensure_sampler c m (reap_dead_sampler c m.now w)

  unfoldable pub supervise : List String → Machine P → Watch P → Watch P
  unfolding retire_idle_sessions supervise_sampler
  supervise touched m w =
      supervise_sampler m (retire_idle_sessions c m.now (touch_all m.now touched w))

  unfoldable pub sent :
      ℕ → String → SamplerProcess P → Result (Unit {0}) String × P → Watch P → Watch P
  unfolding note_spawn_failure
  sent now session_id p (ok _, s) w = record w {
    sampler = some (record p { sidecar = s });
    sessions = update session_id (λ state. record state { watch_sent = true }) w.sessions;
  }
  sent now session_id p (err e, s) w =
      let failed = note_spawn_failure now (record w { sampler = none }) in
      record failed {
        gaps = failed.gaps ++ "codecarbon sampler stopped accepting control ops" ∷ [];
      }

  unfoldable pub send_new :
      ℕ → String → SessionTree → Option SessionState → Option (SamplerProcess P) → Watch P → Watch P
  unfolding sent
  send_new now session_id tree none sampler w = w
  send_new now session_id tree (some state) none w = w
  send_new now session_id tree (some state) (some p) w =
      if state.watch_sent
      then w
      else sent now session_id p
          (c.send (watch session_id (boot_span session_id tree.spans) tree.root_pids) p.sidecar) w

  unfoldable pub send_watch_op : ℕ → String → SessionTree → Watch P → Watch P
  unfolding send_new
  send_watch_op now session_id tree w =
      if is_empty tree.root_pids
      then w
      else send_new now session_id tree (lookup session_id w.sessions) w.sampler w

-- `Watch::shutdown`: the sampler is told to stop, and is dropped whatever the message gives.
unfoldable pub shut_down : {P : Type 0} → Watch P → Watch P
shut_down w = record w { sampler = none }
