-- ===== src/Tests/Supervision.antt =====
-- Runs of the theorems on `af watch` at concrete inputs.
use agentic_footprint.Prelude.{ℕ, ◌^◌, min, ◌≡◌, true, false, ◌&&◌, not, some, [], ◌∷◌, max, arith}
use agentic_footprint.Prelude.Int.{pos}
use agentic_footprint.Prelude.Keyed.{string_key, contains, lookup}
use agentic_footprint.Prelude.Keyed.Laws.{has}
use agentic_footprint.Events.Validate.{ok, err}
use agentic_footprint.Correlate.{SessionTree, no_tree}
use agentic_footprint.Watch.Bounded.{new, insert_all}
use agentic_footprint.Watch.Bounded.Window.{announce, insert_all_lem}
use agentic_footprint.Watch.Sampler.{
  Sidecar, Machine, Watch, respawn_delay, respawn_cap, idle_sessions, retire_idle_sessions,
  reap_dead_sampler, seen,
}
use agentic_footprint.Watch.Supervise.{supervise, send_watch_op}
use agentic_footprint.Watch.Laws.{IsSound, respawn_delay_lem}
use agentic_footprint.Watch.Reach.{fresh, begun, next, supervised, messaged, Reachable-IsSound}
use agentic_footprint.Watch.Retire.{
  Settled, retire_idle_sessions_lem, reap_dead_sampler-send_watch_op,
}

-- A process that has died by the second check.
abbrev sidecar : Sidecar ℕ
sidecar = record {
  send = λ op n. (err "broken pipe", n);
  try_wait = λ n. (ok (some "exit status: 1"), n);
  ping = λ n. (ok tt, n);
}

abbrev machine : Machine ℕ
machine = record {
  now = 1000;
  has_python = true;
  script = some (some "af_sampler.py");
  spawn = λ script session. ok 7;
}

abbrev tree : SessionTree
tree = record no_tree { root_pids = pos 12 ∷ [] }

abbrev begin : Watch ℕ
begin = fresh false 600

abbrev sampling : Watch ℕ
sampling = supervise sidecar ("a" ∷ []) machine begin

insert_all_lem_example :
    insert_all ("a" ∷ "b" ∷ "a" ∷ "c" ∷ "a" ∷ []) (new 2)
    ≡ announce (max 2 1) [] ("a" ∷ "b" ∷ "a" ∷ "c" ∷ "a" ∷ [])
insert_all_lem_example = insert_all_lem 2 ("a" ∷ "b" ∷ "a" ∷ "c" ∷ "a" ∷ [])

respawn_delay_lem_example : respawn_delay 5 ≡ min (2 ^ 5) respawn_cap
respawn_delay_lem_example = respawn_delay_lem 5 (omega arith)

Reachable-IsSound_example : IsSound (send_watch_op sidecar 1001 "a" tree sampling)
Reachable-IsSound_example =
    Reachable-IsSound sidecar (send_watch_op sidecar 1001 "a" tree sampling) (
      next sampling (send_watch_op sidecar 1001 "a" tree sampling)
        (next begin sampling (begun false 600) (supervised ("a" ∷ []) machine begin))
        (messaged 1001 "a" tree sampling))

retire_idle_sessions_lem_example :
    (has "a" (retire_idle_sessions sidecar 1600 sampling).sessions ≡ (
      has "a" sampling.sessions
      && not (contains (idle_sessions sampling.sessions 1600 sampling.idle_timeout) "a")))
    × ((retire_idle_sessions sidecar 1600 sampling).sampler_retry ≡ sampling.sampler_retry)
retire_idle_sessions_lem_example = retire_idle_sessions_lem sidecar 1600 sampling "a"

-- A session that waits for its `watch` message.
abbrev attached : Watch ℕ
attached = record begin {
  sampler = some (record { sidecar = 7; spawned_at = 1000 });
  sessions = ("a", seen 1000) ∷ [];
}

reap_dead_sampler-send_watch_op_example :
    Settled true attached (reap_dead_sampler sidecar 1001 attached)
    × Settled true attached (send_watch_op sidecar 1001 "a" tree attached)
unfolding lookup
reap_dead_sampler-send_watch_op_example =
    reap_dead_sampler-send_watch_op sidecar 1001 "a" tree attached
