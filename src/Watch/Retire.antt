-- ===== src/Watch/Retire.antt =====
-- crates/af-cli/src/cmd/watch.rs: the sessions after a retirement, and the loss of the sampler.
use agentic_footprint.Prelude.{
  ℕ, ◌+◌, String, ◌≡◌, refl, ap, ◌∙◌, inl, inr, Bool, true, false, ◌||◌, ◌&&◌, not, Option, none,
  some, List, [], ◌∷◌, ◌++◌, length, length-append, if◌then◌else◌, is_empty, is_some, Bool-cases,
  arith, str_eq,
}
use agentic_footprint.Prelude.Keyed.{string_key, contains, lookup}
use agentic_footprint.Prelude.Keyed.Laws.{has, has-remove}
use agentic_footprint.Events.Validate.{Result, ok, err}
use agentic_footprint.Correlate.{SessionTree}
use agentic_footprint.Watch.Sampler.{
  Sidecar, SamplerProcess, SessionState, Watch, retire, retire_all, drop_unused, idle_sessions,
  retire_idle_sessions, reap_dead_sampler, note_spawn_failure, watch, reap, lost,
}
use agentic_footprint.Watch.Supervise.{boot_span, sent, send_new, send_watch_op}
use agentic_footprint.Watch.Laws.{sampler_retry-retire_all}

abbrev pub has_failed : {T E : Type 0} → Result T E → Bool
has_failed (ok _) = false
has_failed (err _) = true

-- Whether the liveness check finds the process dead: it has an exit status, or the check fails.
abbrev pub is_dead : Result (Option String) String → Bool
is_dead (ok status) = is_some status
is_dead (err _) = true

-- A sampler's state after an operation that finds it gone or not, beside the state before: if it is
-- gone there is none and one gap more, and otherwise it runs and the gaps are those before.
abbrev pub Settled : {P : Type 0} → Bool → Watch P → Watch P → Type 0
Settled gone w t =
    (is_some t.sampler ≡ (is_some w.sampler && not gone))
    × (length t.gaps ≡ length w.gaps + (if gone then 1 else 0))

one_more : (gaps : List String) (gap : String) → length (gaps ++ gap ∷ []) ≡ length gaps + 1
one_more gaps gap = omega (arith, length-append gaps (gap ∷ []))

module _ {P : Type 0} (c : Sidecar P) where
  has-retire_all :
      (ss : List String) (w : Watch P) (k : String)
      → has k (retire_all c ss w).sessions ≡ (has k w.sessions && not (contains ss k))
  has-retire_all [] w k = ground arith
  has-retire_all (s ∷ ss) w k =
      has-retire_all ss (retire c w s) k
      ∙ ap (λ b. b && not (contains ss k)) (has-remove s k w.sessions)
      ∙ both_nots (has k w.sessions) (str_eq s k) (contains ss k)
    where
      both_nots : (a b c : Bool) → ((a && not b) && not c) ≡ (a && not (b || c))
      both_nots a true c = ground arith
      both_nots a false c = ground arith

  drop_unused-sessions : (w : Watch P) → (drop_unused c w).sessions ≡ w.sessions
  drop_unused-sessions w = elim (Bool-cases (is_empty w.sessions)) [
    | inl e ↦ rw e refl
    | inr e ↦ rw e refl
  ]

  drop_unused-sampler_retry : (w : Watch P) → (drop_unused c w).sampler_retry ≡ w.sampler_retry
  drop_unused-sampler_retry w = elim (Bool-cases (is_empty w.sessions)) [
    | inl e ↦ rw e refl
    | inr e ↦ rw e refl
  ]

  -- A retirement leaves the sessions that are not idle, and the failures and the next attempt of the
  -- sampler as they are.
  pub retire_idle_sessions_lem :
      (now : ℕ) (w : Watch P) (k : String)
      → (has k (retire_idle_sessions c now w).sessions
          ≡ (has k w.sessions && not (contains (idle_sessions w.sessions now w.idle_timeout) k)))
        × ((retire_idle_sessions c now w).sampler_retry ≡ w.sampler_retry)
  unfolding retire_idle_sessions
  retire_idle_sessions_lem now w k =
      let ss = idle_sessions w.sessions now w.idle_timeout in
      let kept = retire_all c ss w in
      (
        ap (has k) (drop_unused-sessions kept) ∙ has-retire_all ss w k,
        drop_unused-sampler_retry kept ∙ sampler_retry-retire_all c ss w,
      )

  -- Whether there is a sampler that is found dead.
  abbrev pub finds_dead : Option (SamplerProcess P) → Bool
  finds_dead none = false
  finds_dead (some p) = is_dead (c.try_wait p.sidecar).0

  -- Whether there is a sampler that refuses the `watch` message of a session that waits for it.
  abbrev pub refuses : String → SessionTree → Option SessionState → Option (SamplerProcess P) → Bool
  refuses id tree none p = false
  refuses id tree (some state) none = false
  refuses id tree (some state) (some p) =
      not state.watch_sent
      && has_failed (c.send (watch id (boot_span id tree.spans) tree.root_pids) p.sidecar).0

  abbrev pub refuses_watch : String → SessionTree → Watch P → Bool
  refuses_watch id tree w =
      not (is_empty tree.root_pids) && refuses id tree (lookup id w.sessions) w.sampler

  untouched : (w : Watch P) → Settled false w w
  untouched w = (ground arith, omega arith)

  Settled-reap :
      (now : ℕ) (p : SamplerProcess P) (r : Result (Option String) String × P) (w : Watch P)
      → w.sampler ≡ some p
      → Settled (is_dead r.0) w (reap c now p r w)
  unfolding reap lost
  Settled-reap now p (ok none, s) w e = (rw e refl, omega arith)
  Settled-reap now p (ok (some status), s) w e = (rw e refl, one_more w.gaps _)
  Settled-reap now p (err x, s) w e = (rw e refl, one_more w.gaps _)

  Settled-reap_dead_sampler :
      (now : ℕ) (w : Watch P) → Settled (finds_dead w.sampler) w (reap_dead_sampler c now w)
  unfolding reap_dead_sampler
  Settled-reap_dead_sampler now w = go w.sampler refl
    where
      go :
          (o : Option (SamplerProcess P))
          → w.sampler ≡ o
          → Settled
              (finds_dead o)
              w
              (elim o [ none ↦ w | some p ↦ reap c now p (c.try_wait p.sidecar) w ])
      go none e = untouched w
      go (some p) e = Settled-reap now p (c.try_wait p.sidecar) w e

  Settled-sent :
      (now : ℕ) (id : String) (p : SamplerProcess P) (r : Result (Unit {0}) String × P)
      (w : Watch P)
      → w.sampler ≡ some p
      → Settled (has_failed r.0) w (sent c now id p r w)
  unfolding sent note_spawn_failure
  Settled-sent now id p (ok _, s) w e = (rw e refl, omega arith)
  Settled-sent now id p (err x, s) w e = (rw e refl, one_more w.gaps _)

  Settled-send_new :
      (now : ℕ) (id : String) (tree : SessionTree) (o : Option SessionState)
      (p : Option (SamplerProcess P)) (w : Watch P)
      → w.sampler ≡ p
      → Settled (refuses id tree o p) w (send_new c now id tree o p w)
  unfolding send_new
  Settled-send_new now id tree none p w e = untouched w
  Settled-send_new now id tree (some state) none w e = untouched w
  Settled-send_new now id tree (some state) (some p) w e = elim (Bool-cases state.watch_sent) [
    | inl a ↦ rw a (untouched w)
    | inr a ↦ rw a (
        Settled-sent now id p (c.send (watch id (boot_span id tree.spans) tree.root_pids) p.sidecar)
          w e)
  ]

  Settled-send_watch_op :
      (now : ℕ) (id : String) (tree : SessionTree) (w : Watch P)
      → Settled (refuses_watch id tree w) w (send_watch_op c now id tree w)
  unfolding send_watch_op
  Settled-send_watch_op now id tree w = elim (Bool-cases (is_empty tree.root_pids)) [
    | inl a ↦ rw a (untouched w)
    | inr a ↦ rw a (Settled-send_new now id tree (lookup id w.sessions) w.sampler w refl)
  ]

  -- The liveness check drops the sampler and publishes one gap if the process has exited or cannot be
  -- checked, and the `watch` message does so if it is due and cannot be sent; otherwise both leave a
  -- sampler that runs running, and publish nothing.
  pub reap_dead_sampler-send_watch_op :
      (now : ℕ) (id : String) (tree : SessionTree) (w : Watch P)
      → Settled (finds_dead w.sampler) w (reap_dead_sampler c now w)
        × Settled (refuses_watch id tree w) w (send_watch_op c now id tree w)
  reap_dead_sampler-send_watch_op now id tree w =
      (Settled-reap_dead_sampler now w, Settled-send_watch_op now id tree w)
