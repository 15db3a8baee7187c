-- ===== src/Watch/Sampler.antt =====
-- crates/af-cli/src/cmd/watch.rs: the sessions that are watched and the sampler process. Instants and
-- durations are numbers of nanoseconds.
use agentic_footprint.Prelude.{
  ℕ, ◌+◌, ◌-◌, ◌*◌, ◌^◌, min, String, str_append, Bool, true, false, Option, none, some, List, [],
  ◌∷◌, ◌++◌, map, filter, leb, ltb, if◌then◌else◌, is_empty, is_some,
}
use agentic_footprint.Prelude.Int.{ℤ}
use agentic_footprint.Prelude.Keyed.{string_key, alter, remove}
use agentic_footprint.Events.Validate.{Result, ok, err}

abbrev pub secs : ℕ → ℕ
secs n = n * 1000000000

abbrev pub respawn_cap : ℕ
respawn_cap = 60

abbrev u32_max : ℕ
u32_max = 4294967295

-- In seconds. The product is at most 2 * 2 ^ 16, so that it does not saturate.
unfoldable pub respawn_delay : ℕ → ℕ
respawn_delay failures = min (2 * 2 ^ min (failures - 1) 16) respawn_cap

-- What is written to the sampler's standard input.
pub data Op : Type 0 where
  remove_session : String → Op
  watch : String → String → List ℤ → Op
  shutdown : Op

-- A sampler is a process `P`. Sending fails or not, the liveness check gives an exit status, nothing
-- while the process runs, or an error, and `spawn` starts a process for a session.
pub record Sidecar (P : Type 0) : Type 0 where
  pub send : Op → P → Result (Unit {0}) String × P
  pub try_wait : P → Result (Option String) String × P
  pub ping : P → Result (Unit {0}) String × P

-- What a pass finds: the clock, the managed interpreter, the script as a text (or `none` in the
-- place of a path that is not UTF-8), and what spawning gives.
pub record Machine (P : Type 0) : Type 0 where
  pub now : ℕ
  pub has_python : Bool
  pub script : Option (Option String)
  pub spawn : String → String → Result P String

pub record SamplerProcess (P : Type 0) : Type 0 where
  pub sidecar : P
  pub spawned_at : ℕ

pub record SamplerRetry : Type 0 where
  pub failures : ℕ
  pub next_attempt : Option ℕ
  pub venv_noted : Bool
  pub last_error : Option String

pub record SessionState : Type 0 where
  pub watch_sent : Bool
  pub last_event_at : ℕ

-- `gaps` has the reasons of the coverage gaps published so far.
pub record Watch (P : Type 0) : Type 0 where
  pub no_sidecars : Bool
  pub idle_timeout : ℕ
  pub sampler : Option (SamplerProcess P)
  pub sampler_retry : SamplerRetry
  pub sessions : List (String × SessionState)
  pub gaps : List String

-- `SessionState::seen`.
abbrev pub seen : ℕ → SessionState
seen now = record { watch_sent = false; last_event_at = now }

abbrev pub is_idle : ℕ → ℕ → SessionState → Bool
is_idle now timeout state = leb timeout (now - state.last_event_at)

unfoldable pub idle_sessions : List (String × SessionState) → ℕ → ℕ → List String
idle_sessions sessions now timeout =
    map (λ (p : String × SessionState). p.0)
      (filter (λ (p : String × SessionState). is_idle now timeout p.1) sessions)

abbrev pub unsent : List (String × SessionState) → List (String × SessionState)
unsent sessions =
    map (λ (p : String × SessionState). (p.0, record p.1 { watch_sent = false })) sessions

abbrev pub saturating_suc : ℕ → ℕ
saturating_suc n = min (n + 1) u32_max

abbrev pub is_waiting : ℕ → Option ℕ → Bool
is_waiting now none = false
is_waiting now (some at) = ltb now at

module _ {P : Type 0} where
  unfoldable pub note_spawn_failure : ℕ → Watch P → Watch P
  unfolding respawn_delay
  note_spawn_failure now w =
      let failures = saturating_suc w.sampler_retry.failures in
      record w {
        sampler_retry = record w.sampler_retry {
          failures = failures;
          next_attempt = some (now + secs (respawn_delay failures));
        };
      }

  abbrev pub failed : String → Watch P → Watch P
  failed message w = record w {
    sampler_retry = record w.sampler_retry { last_error = some message };
  }

  abbrev pub touch : ℕ → Watch P → String → Watch P
  touch now w session = record w {
    sessions = alter session (seen now) (λ state. record state { last_event_at = now }) w.sessions;
  }

module _ {P : Type 0} (c : Sidecar P) where
  abbrev pub send_to : Op → Option (SamplerProcess P) → Option (SamplerProcess P)
  send_to op none = none
  send_to op (some p) = some (record p { sidecar = (c.send op p.sidecar).1 })

  -- The body of the loop over the idle sessions. That a message fails is only printed.
  abbrev pub retire : Watch P → String → Watch P
  retire w session = record w {
    sampler = send_to (remove_session session) w.sampler;
    sessions = remove session w.sessions;
  }

  abbrev pub retire_all : List String → Watch P → Watch P
  retire_all [] w = w
  retire_all (session ∷ sessions) w = retire_all sessions (retire w session)

  -- Without sessions the sampler is told to shut down, and dropped.
  abbrev pub drop_unused : Watch P → Watch P
  drop_unused w = if is_empty w.sessions then record w { sampler = none } else w

  unfoldable pub retire_idle_sessions : ℕ → Watch P → Watch P
  unfolding idle_sessions
  retire_idle_sessions now w =
      drop_unused (retire_all (idle_sessions w.sessions now w.idle_timeout) w)

  unfoldable pub lost : ℕ → String → SamplerProcess P → Watch P → Watch P
  unfolding respawn_delay
  lost now exit p w =
      let failures =
        if leb (secs respawn_cap) (now - p.spawned_at)
        then 1
        else saturating_suc w.sampler_retry.failures in
      record w {
        sampler = none;
        sessions = unsent w.sessions;
        sampler_retry = record w.sampler_retry {
          failures = failures;
          next_attempt = some (now + secs (respawn_delay failures));
        };
        gaps = w.gaps ++ str_append "codecarbon sampler exited (" (str_append exit ")") ∷ [];
      }

  unfoldable pub reap : ℕ → SamplerProcess P → Result (Option String) String × P → Watch P → Watch P
  unfolding lost
  reap now p (ok none, s) w = record w { sampler = some (record p { sidecar = s }) }
  reap now p (ok (some status), s) w = lost now status p w
  reap now p (err e, s) w = lost now (str_append "liveness check failed: " e) p w

  unfoldable pub reap_dead_sampler : ℕ → Watch P → Watch P
  unfolding reap
  reap_dead_sampler now w = elim w.sampler [
    | none ↦ w
    | some p ↦ reap now p (c.try_wait p.sidecar) w
  ]

  -- The sampler is ready, or has failed its readiness check.
  unfoldable pub started : ℕ → Result (Unit {0}) String × P → Watch P → Watch P
  unfolding note_spawn_failure
  started now (ok _, s) w = record w {
    sampler = some (record { sidecar = s; spawned_at = now });
    sessions = unsent w.sessions;
    sampler_retry = record w.sampler_retry { next_attempt = none; last_error = none };
  }
  started now (err e, s) w =
      note_spawn_failure now (failed (str_append "sampler readiness check failed: " e) w)

  unfoldable pub spawned : ℕ → Result P String → Watch P → Watch P
  unfolding started note_spawn_failure
  spawned now (ok p) w = started now (c.ping p) w
  spawned now (err e) w = note_spawn_failure now (failed (str_append "spawn failed: " e) w)

  unfoldable pub with_script : Machine P → String → Option (Option String) → Watch P → Watch P
  unfolding spawned note_spawn_failure
  with_script m session none w = note_spawn_failure m.now w
  with_script m session (some none) w = note_spawn_failure m.now w
  with_script m session (some (some script)) w = spawned m.now (m.spawn script session) w

  unfoldable pub try_spawn : Machine P → String → Watch P → Watch P
  unfolding with_script
  try_spawn m session w =
      if m.has_python
      then with_script m session m.script w
      else record w { sampler_retry = record w.sampler_retry { venv_noted = true } }

  unfoldable pub ensure_for : Machine P → List (String × SessionState) → Watch P → Watch P
  unfolding try_spawn
  ensure_for m [] w = w
  ensure_for m ((session, _) ∷ _) w =
      if is_some w.sampler
      then w
      else if is_waiting m.now w.sampler_retry.next_attempt
      then w
      else try_spawn m session w

  unfoldable pub ensure_sampler : Machine P → Watch P → Watch P
  unfolding ensure_for
  ensure_sampler m w = ensure_for m w.sessions w
