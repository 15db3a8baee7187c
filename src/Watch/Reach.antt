-- ===== src/Watch/Reach.antt =====
-- The states that the supervision of the sampler can reach.
use agentic_footprint.Prelude.{
  ℕ, String, ◌≡◌, refl, ap, inl, inr, Bool, true, false, Option, none, some, List, [], ◌∷◌,
  if◌then◌else◌, is_empty, is_some, Bool-cases,
}
use agentic_footprint.Prelude.Keyed.{string_key, lookup}
use agentic_footprint.Prelude.Keyed.Sizes.{is_empty-alter, is_empty-update}
use agentic_footprint.Events.Validate.{Result, ok, err}
use agentic_footprint.Correlate.{SessionTree}
use agentic_footprint.Watch.Sampler.{
  Sidecar, Machine, SamplerProcess, SessionState, Watch, touch, seen, retire_idle_sessions,
  reap_dead_sampler, ensure_sampler, watch,
}
use agentic_footprint.Watch.Supervise.{
  touch_all, boot_span, supervise_sampler, supervise, sent, send_new, send_watch_op, shut_down,
}
use agentic_footprint.Watch.Laws.{
  IsSound, stopped_sound, busy_sound, IsSound-note_spawn_failure, IsSound-retire_idle_sessions,
  IsSound-reap_dead_sampler, IsSound-ensure_sampler,
}

-- What `Watch::new` starts with.
abbrev pub fresh : {P : Type 0} → Bool → ℕ → Watch P
fresh no_sidecars idle_timeout = record {
  no_sidecars = no_sidecars;
  idle_timeout = idle_timeout;
  sampler = none;
  sampler_retry = record {
    failures = 0;
    next_attempt = none;
    venv_noted = false;
    last_error = none;
  };
  sessions = [];
  gaps = [];
}

IsSound-if :
    {P : Type 0} (b : Bool) (v w : Watch P) → IsSound v → IsSound w → IsSound (if b then v else w)
IsSound-if true v w h k = h
IsSound-if false v w h k = k

module _ {P : Type 0} (c : Sidecar P) where
  -- One call: a pass over the sessions touched, a session's `watch` message, or the shutdown.
  pub data Step : Watch P → Watch P → Type 0 where
    supervised :
        (touched : List String) (m : Machine P) (w : Watch P) → Step w (supervise c touched m w)
    messaged :
        (now : ℕ) (session_id : String) (tree : SessionTree) (w : Watch P)
        → Step w (send_watch_op c now session_id tree w)
    stopped : (w : Watch P) → Step w (shut_down w)

  pub data Reachable : Watch P → Type 0 where
    begun : (no_sidecars : Bool) (idle_timeout : ℕ) → Reachable (fresh no_sidecars idle_timeout)
    next : (v w : Watch P) → Reachable v → Step v w → Reachable w

  IsSound-touch_all :
      (now : ℕ) (ss : List String) (w : Watch P) → IsSound w → IsSound (touch_all now ss w)
  IsSound-touch_all now [] w h = h
  IsSound-touch_all now (s ∷ ss) w h = IsSound-touch_all now ss (touch now w s) (
      rw (is_empty-alter s (seen now) (λ state. record state { last_event_at = now }) w.sessions) (
        busy_sound (is_some w.sampler) (is_empty w.sessions) (is_some w.sampler_retry.next_attempt)
          w.sampler_retry.failures h))

  IsSound-supervise_sampler :
      (m : Machine P) (w : Watch P) → IsSound w → IsSound (supervise_sampler c m w)
  unfolding supervise_sampler
  IsSound-supervise_sampler m w h =
      let reaped = reap_dead_sampler c m.now w in
      IsSound-if w.no_sidecars w (ensure_sampler c m reaped) h
        (IsSound-ensure_sampler c m reaped (IsSound-reap_dead_sampler c m.now w h))

  IsSound-sent :
      (now : ℕ) (id : String) (p : SamplerProcess P) (r : Result (Unit {0}) String × P)
      (w : Watch P)
      → w.sampler ≡ some p
      → IsSound w
      → IsSound (sent c now id p r w)
  unfolding sent
  IsSound-sent now id p (ok _, s) w e h =
      rw (is_empty-update id (λ state. record state { watch_sent = true }) w.sessions)
        (rw (ap is_some e) at h)
  IsSound-sent now id p (err x, s) w e h =
      IsSound-note_spawn_failure now (record w { sampler = none }) refl

  IsSound-send_new :
      (now : ℕ) (id : String) (tree : SessionTree) (o : Option SessionState)
      (p : Option (SamplerProcess P)) (w : Watch P)
      → w.sampler ≡ p
      → IsSound w
      → IsSound (send_new c now id tree o p w)
  unfolding send_new
  IsSound-send_new now id tree none p w e h = h
  IsSound-send_new now id tree (some state) none w e h = h
  IsSound-send_new now id tree (some state) (some p) w e h = elim (Bool-cases state.watch_sent) [
    | inl a ↦ rw a h
    | inr a ↦ rw a (
        IsSound-sent now id p (c.send (watch id (boot_span id tree.spans) tree.root_pids) p.sidecar)
          w e h)
  ]

  IsSound-send_watch_op :
      (now : ℕ) (id : String) (tree : SessionTree) (w : Watch P)
      → IsSound w
      → IsSound (send_watch_op c now id tree w)
  unfolding send_watch_op
  IsSound-send_watch_op now id tree w h = elim (Bool-cases (is_empty tree.root_pids)) [
    | inl a ↦ rw a h
    | inr a ↦ rw a (IsSound-send_new now id tree (lookup id w.sessions) w.sampler w refl h)
  ]

  IsSound-Step : (v w : Watch P) → Step v w → IsSound v → IsSound w
  unfolding supervise shut_down
  IsSound-Step v w (supervised touched m _) h =
      let seen = touch_all m.now touched v in
      let kept = retire_idle_sessions c m.now seen in
      IsSound-supervise_sampler m kept
        (IsSound-retire_idle_sessions c m.now seen (IsSound-touch_all m.now touched v h))
  IsSound-Step v w (messaged now id tree _) h = IsSound-send_watch_op now id tree v h
  IsSound-Step v w (stopped _) h =
      stopped_sound (is_some v.sampler) (is_empty v.sessions) (is_empty v.sessions)
        (is_some v.sampler_retry.next_attempt) v.sampler_retry.failures h

  -- In each state that is reached a sampler runs only while there is a session and no retry is
  -- pending, and a retry is pending only after a failure.
  pub Reachable-IsSound : (w : Watch P) → Reachable w → IsSound w
  Reachable-IsSound w (begun b t) = refl
  Reachable-IsSound w (next v _ r s) = IsSound-Step v w s (Reachable-IsSound v r)
