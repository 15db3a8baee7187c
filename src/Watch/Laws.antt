-- ===== src/Watch/Laws.antt =====
-- The sampler's supervision as a state machine.
use native.Mathlib.Nat.{pow-le-pow_right}
use native.Mathlib.Omega.{pow_step}
use agentic_footprint.Prelude.{
  zero, ℕ, suc, ◌-◌, ◌^◌, ◌≤◌, min, String, str_append, ◌≡◌, refl, sym, ap, ◌∙◌, inl, inr, Bool,
  true, false, ◌&&◌, not, Option, none, some, List, [], ◌∷◌, leb, if◌then◌else◌, is_empty, is_some,
  Bool-cases, arith,
}
use agentic_footprint.Prelude.Keyed.{string_key}
use agentic_footprint.Events.Validate.{Result, ok, err}
use agentic_footprint.Watch.Sampler.{
  secs, respawn_delay, respawn_cap, Op, Sidecar, Machine, SamplerProcess, SessionState, Watch,
  note_spawn_failure, failed, send_to, remove_session, retire, retire_all, drop_unused,
  idle_sessions, retire_idle_sessions, lost, reap, reap_dead_sampler, saturating_suc, started,
  spawned, with_script, try_spawn, is_waiting, ensure_for, ensure_sampler, unsent,
}

-- After `n` failures in a row, at least one, the next attempt waits for the smaller of 2 ^ n seconds
-- and a minute.
pub respawn_delay_lem : (n : ℕ) → 1 ≤ n → respawn_delay n ≡ min (2 ^ n) respawn_cap
unfolding respawn_delay
respawn_delay_lem zero h = absurd (omega (arith, h))
respawn_delay_lem (suc n) h =
    let less : suc n - 1 ≡ n = omega arith in
    rw less (elim (Bool-cases (leb n 16)) [
      | inl e ↦ (let same : min n 16 ≡ n = ground arith in rw (same, pow_step 2 n) refl)
      | inr e ↦
          (let cut : min n 16 ≡ 16 = ground arith in
            let le : 16 ≤ n = ground arith in
            let large : 2 ^ 16 ≤ 2 ^ n = pow-le-pow_right (omega arith) le in
            let step = pow_step 2 n in rw cut (omega (arith, large, step)))
    ])

-- A sampler runs only for a session and without a pending retry, and a retry is pending only after
-- a failure.
abbrev pub is_sound : Bool → Bool → Bool → ℕ → Bool
is_sound running idle waiting failures =
    (if running then not idle && not waiting else true)
    && (if waiting then leb 1 failures else true)

abbrev pub IsSound : {P : Type 0} → Watch P → Type 0
IsSound w =
    is_sound (is_some w.sampler) (is_empty w.sessions) (is_some w.sampler_retry.next_attempt)
      w.sampler_retry.failures
    ≡ true

pub stopped_sound :
    (running idle idle2 waiting : Bool) (n : ℕ)
    → is_sound running idle waiting n ≡ true
    → is_sound false idle2 waiting n ≡ true
stopped_sound true idle idle2 waiting n h = ground arith
stopped_sound false idle idle2 waiting n h = h

-- A session more or less, while there are some.
pub busy_sound :
    (running idle waiting : Bool) (n : ℕ)
    → is_sound running idle waiting n ≡ true
    → is_sound running false waiting n ≡ true
busy_sound true true waiting n h = absurd (ground arith)
busy_sound true false waiting n h = h
busy_sound false idle waiting n h = h

failure_sound : (idle : Bool) (n : ℕ) → is_sound false idle true (saturating_suc n) ≡ true
failure_sound idle n = ground arith

pub IsSound-note_spawn_failure :
    {P : Type 0} (now : ℕ) (w : Watch P)
    → is_some w.sampler ≡ false
    → IsSound (note_spawn_failure now w)
unfolding note_spawn_failure
IsSound-note_spawn_failure now w h =
    rw h (failure_sound (is_empty w.sessions) w.sampler_retry.failures)

is_some-send_to :
    {P : Type 0} (c : Sidecar P) (op : Op) (o : Option (SamplerProcess P))
    → is_some (send_to c op o) ≡ is_some o
is_some-send_to c op none = refl
is_some-send_to c op (some p) = refl

is_empty-unsent : (m : List (String × SessionState)) → is_empty (unsent m) ≡ is_empty m
is_empty-unsent [] = refl
is_empty-unsent (x ∷ m) = refl

lost_le : (b : Bool) (n : ℕ) → leb 1 (if b then 1 else saturating_suc n) ≡ true
lost_le true n = refl
lost_le false n = ground arith

module _ {P : Type 0} (c : Sidecar P) where
  running-retire_all :
      (ss : List String) (w : Watch P) → is_some (retire_all c ss w).sampler ≡ is_some w.sampler
  running-retire_all [] w = refl
  running-retire_all (s ∷ ss) w =
      running-retire_all ss (retire c w s) ∙ is_some-send_to c (remove_session s) w.sampler

  pub sampler_retry-retire_all :
      (ss : List String) (w : Watch P) → (retire_all c ss w).sampler_retry ≡ w.sampler_retry
  sampler_retry-retire_all [] w = refl
  sampler_retry-retire_all (s ∷ ss) w = sampler_retry-retire_all ss (retire c w s)

  IsSound-drop_unused :
      (w : Watch P) (idle : Bool)
      → is_sound
          (is_some w.sampler)
          idle
          (is_some w.sampler_retry.next_attempt)
          w.sampler_retry.failures
        ≡ true
      → IsSound (drop_unused c w)
  IsSound-drop_unused w idle h = elim (Bool-cases (is_empty w.sessions)) [
    | inl e ↦ rw e (
        stopped_sound (is_some w.sampler) idle (is_empty w.sessions)
          (is_some w.sampler_retry.next_attempt) w.sampler_retry.failures h)
    | inr e ↦ rw e (
        rw e (
          busy_sound (is_some w.sampler) idle (is_some w.sampler_retry.next_attempt)
            w.sampler_retry.failures h))
  ]

  pub IsSound-retire_idle_sessions :
      (now : ℕ) (w : Watch P) → IsSound w → IsSound (retire_idle_sessions c now w)
  unfolding retire_idle_sessions
  IsSound-retire_idle_sessions now w h =
      let ss = idle_sessions w.sessions now w.idle_timeout in
      let kept = retire_all c ss w in
      IsSound-drop_unused kept (is_empty w.sessions)
        (rw (running-retire_all ss w, sampler_retry-retire_all ss w) h)

  IsSound-reap :
      (now : ℕ) (p : SamplerProcess P) (r : Result (Option String) String × P) (w : Watch P)
      → IsSound w
      → w.sampler ≡ some p
      → IsSound (reap c now p r w)
  unfolding reap lost
  IsSound-reap now p (ok none, s) w h e = rw (ap is_some e) at h
  IsSound-reap now p (ok (some status), s) w h e =
      lost_le (leb (secs respawn_cap) (now - p.spawned_at)) w.sampler_retry.failures
  IsSound-reap now p (err x, s) w h e =
      lost_le (leb (secs respawn_cap) (now - p.spawned_at)) w.sampler_retry.failures

  pub IsSound-reap_dead_sampler :
      (now : ℕ) (w : Watch P) → IsSound w → IsSound (reap_dead_sampler c now w)
  unfolding reap_dead_sampler
  IsSound-reap_dead_sampler now w h = go w.sampler refl
    where
      go :
          (o : Option (SamplerProcess P))
          → w.sampler ≡ o
          → IsSound (elim o [ none ↦ w | some p ↦ reap c now p (c.try_wait p.sidecar) w ])
      go none e = h
      go (some p) e = IsSound-reap now p (c.try_wait p.sidecar) w h e

  IsSound-started :
      (now : ℕ) (r : Result (Unit {0}) String × P) (w : Watch P)
      → is_some w.sampler ≡ false
      → is_empty w.sessions ≡ false
      → IsSound (started c now r w)
  unfolding started
  IsSound-started now (ok _, s) w h e = rw (is_empty-unsent w.sessions, e) refl
  IsSound-started now (err x, s) w h e =
      IsSound-note_spawn_failure now (failed (str_append "sampler readiness check failed: " x) w) h

  IsSound-spawned :
      (now : ℕ) (r : Result P String) (w : Watch P)
      → is_some w.sampler ≡ false
      → is_empty w.sessions ≡ false
      → IsSound (spawned c now r w)
  unfolding spawned
  IsSound-spawned now (ok p) w h e = IsSound-started now (c.ping p) w h e
  IsSound-spawned now (err x) w h e =
      IsSound-note_spawn_failure now (failed (str_append "spawn failed: " x) w) h

  IsSound-with_script :
      (m : Machine P) (session : String) (o : Option (Option String)) (w : Watch P)
      → is_some w.sampler ≡ false
      → is_empty w.sessions ≡ false
      → IsSound (with_script c m session o w)
  unfolding with_script
  IsSound-with_script m session none w h e = IsSound-note_spawn_failure m.now w h
  IsSound-with_script m session (some none) w h e = IsSound-note_spawn_failure m.now w h
  IsSound-with_script m session (some (some x)) w h e =
      IsSound-spawned m.now (m.spawn x session) w h e

  IsSound-ensure_for :
      (m : Machine P) (ss : List (String × SessionState)) (w : Watch P)
      → ss ≡ w.sessions
      → IsSound w
      → IsSound (ensure_for c m ss w)
  unfolding ensure_for try_spawn
  IsSound-ensure_for m [] w e h = h
  IsSound-ensure_for m ((session, x) ∷ ss) w e h = elim (Bool-cases (is_some w.sampler)) [
    | inl a ↦ rw a h
    | inr a ↦ rw a (elim (Bool-cases (is_waiting m.now w.sampler_retry.next_attempt)) [
      | inl b ↦ rw b h
      | inr b ↦ rw b (elim (Bool-cases m.has_python) [
        | inl d ↦ rw d (IsSound-with_script m session m.script w a (sym (ap is_empty e)))
        | inr d ↦ rw d h
      ])
    ])
  ]

  pub IsSound-ensure_sampler :
      (m : Machine P) (w : Watch P) → IsSound w → IsSound (ensure_sampler c m w)
  unfolding ensure_sampler
  IsSound-ensure_sampler m w h = IsSound-ensure_for m w.sessions w refl h
