-- ===== src/Attribution/Weights.antt =====
-- attribution.rs: `cpu_weights`, the cpu-time weights of one energy window.
use agentic_footprint.Prelude.{
  ℕ, ◌+◌, max, String, Bool, false, ◌||◌, List, [], foldl, map, filter, is_empty, is_some, length,
  if◌then◌else◌,
}
use agentic_footprint.Prelude.Int.{ℤ, pos, ◌-ℤ◌, min_ℤ, max_ℤ}
use agentic_footprint.Prelude.Keyed.{int_key, alter, contains}
use agentic_footprint.Float.{Float, ◌⊕◌, ◌⊗◌, ◌⊘◌}
use agentic_footprint.Events.{ProcessDelta}
use agentic_footprint.Correlate.{Span}
use agentic_footprint.Attribution.Types.{Weights, ProcWindow, bump}

unfoldable pub claims_pid : Span → ℤ → List ℤ → Bool
claims_pid span pid root_pids =
    if is_empty span.pids then contains root_pids pid else contains span.pids pid

-- Whole milliseconds of `[a0, a1)` inside `[b0, b1)`.
unfoldable pub overlap : ℤ → ℤ → ℤ → ℤ → ℤ
unfolding ◌-ℤ◌
overlap a0 a1 b0 b1 = max_ℤ (min_ℤ a1 b1 -ℤ max_ℤ a0 b0) (pos 0)

-- The longest delta seen for a pid, and whether any entry for it is tagged as an orphan's.
abbrev pub Seen : Type 0
Seen = ℕ × Bool

abbrev note_process : List (ℤ × Seen) → ProcessDelta → List (ℤ × Seen)
note_process m p =
    alter p.pid (0, false) (λ (e : Seen). (max e.0 p.cpu_time_delta_ms, e.1 || is_some p.orphan_of))
      m

unfoldable pub by_pid : List ProcessDelta → List (ℤ × Seen)
unfolding alter
by_pid = foldl note_process []

unfoldable pub claimants : List Span → List ℤ → ℤ → List String
unfolding claims_pid
claimants active root_pids pid =
    map (λ (s : Span). s.span_id) (filter (λ s. claims_pid s pid root_pids) active)

module _ {F : Type 0} ⦃f : Float F⦄ where
  open f use {nought, of_int}

  unfoldable pub overlap_ms : ℤ → ℤ → ℤ → ℤ → F
  unfolding overlap
  overlap_ms a0 a1 b0 b1 = of_int (overlap a0 a1 b0 b1)

  unfoldable pub default_weights : Weights F
  default_weights = record { per_span = []; orphan = nought; root = nought }

  -- One entry of `by_pid`.
  unfoldable pub weigh_pid : List Span → List ℤ → F → Weights F → ℤ × Seen → Weights F
  unfolding claimants bump
  weigh_pid active root_pids fraction w (pid, (cpu_ms, orphan_tagged)) =
      let cost = of_int (pos cpu_ms) ⊗ fraction in
      let owners = claimants active root_pids pid in
      let to_orphan = orphan_tagged || is_empty owners in
      let share = cost ⊘ of_int (pos (length owners + (if to_orphan then 1 else 0))) in
      record {
        per_span = foldl (λ m span_id. bump span_id share m) w.per_span owners;
        orphan = if to_orphan then w.orphan ⊕ share else w.orphan;
        root = if contains root_pids pid then w.root ⊕ cost else w.root;
      }

  -- One process window.
  unfoldable pub weigh_window : List Span → List ℤ → ℤ → ℤ → Weights F → ProcWindow → Weights F
  unfolding weigh_pid by_pid overlap_ms ◌-ℤ◌
  weigh_window active root_pids t0 t1 w window =
      let fraction =
        overlap_ms window.t_start window.t_end t0 t1 ⊘ of_int (window.t_end -ℤ window.t_start) in
      foldl (weigh_pid active root_pids fraction) w (by_pid window.processes)

  unfoldable pub cpu_weights : List ProcWindow → List Span → List ℤ → ℤ → ℤ → Weights F
  unfolding weigh_window default_weights
  cpu_weights windows active root_pids t0 t1 =
      foldl (weigh_window active root_pids t0 t1) default_weights windows
