-- ===== src/Attribution/Sample.antt =====
-- attribution.rs: what `run` does with one energy sample whose window has a positive length.
use agentic_footprint.Prelude.{
  ◌+◌, String, Bool, true, false, ◌&&◌, not, none, some, List, [], ◌++◌, foldl, map, all, is_empty,
  if◌then◌else◌, unwrap_or,
}
use agentic_footprint.Prelude.Int.{ℤ}
use agentic_footprint.Prelude.Keyed.{string_key, lookup}
use agentic_footprint.Float.{Float, ◌⊕◌, ◌⊖◌, ◌⊗◌, ◌⊘◌}
use agentic_footprint.Correlate.{Span}
use agentic_footprint.Attribution.Types.{
  l1_wall_clock, l2_cpu_time, Apportionment, AllocRow, SampleTrace, ProcWindow, Weights, SpanMap,
  sum, bump, total_weight,
}
use agentic_footprint.Attribution.Weights.{overlap_ms, cpu_weights}

abbrev pub remote_reason : String
remote_reason = "execution_locus: remote — not measured on this machine"

-- The window `[t0, t1)`.
pub record Window : Type 0 where
  pub t0 : ℤ
  pub t1 : ℤ

-- The accumulators that one sample's payments go to: `out.per_span_j`, `out.orphaned_j`,
-- `attributed`, `this_sample_j`, `this_sample_cpu_ms` and `this.orphaned_j`.
pub record Paid (F : Type 0) : Type 0 where
  pub per_span_j : SpanMap F
  pub orphaned_j : F
  pub attributed : F
  pub this_sample_j : SpanMap F
  pub this_sample_cpu_ms : SpanMap F
  pub this_orphaned_j : F

module _ {F : Type 0} ⦃f : Float F⦄ where
  open f use {nought, unity, gt, le, of_int}

  unfoldable pub remote_row : Window → Span → AllocRow F
  unfolding overlap_ms
  remote_row w span = record {
    span_id = span.span_id;
    tool_name = span.tool_name;
    locus = span.locus;
    overlap_ms = overlap_ms span.t_start span.t_end w.t0 w.t1;
    cpu_delta_ms = nought;
    allocated_j = nought;
    l1_allocated_j = nought;
    excluded = true;
    excluded_reason = some remote_reason;
  }

  unfoldable pub open_paid : Apportionment F → Paid F
  open_paid out = record {
    per_span_j = out.per_span_j;
    orphaned_j = out.orphaned_j;
    attributed = nought;
    this_sample_j = [];
    this_sample_cpu_ms = [];
    this_orphaned_j = nought;
  }

  -- `joules` to one span.
  unfoldable pub pay : Paid F → String × F → Paid F
  unfolding bump
  pay p (span_id, joules) = record p {
    per_span_j = bump span_id joules p.per_span_j;
    attributed = p.attributed ⊕ joules;
    this_sample_j = bump span_id joules p.this_sample_j;
  }

  unfoldable pub pay_weight : F → F → Paid F → String × F → Paid F
  unfolding pay
  pay_weight active_j total_w p (span_id, weight) =
      let q = pay p (span_id, active_j ⊗ (weight ⊘ total_w)) in
      record q { this_sample_cpu_ms = bump span_id weight q.this_sample_cpu_ms }

  unfoldable pub pay_orphan : F → Paid F → Paid F
  pay_orphan joules p = record p {
    orphaned_j = p.orphaned_j ⊕ joules;
    attributed = p.attributed ⊕ joules;
    this_orphaned_j = joules;
  }

  -- The payments by cpu time: `active_j` is the sample times `(total_w / window_ms).min(1.0)`.
  unfoldable pub pay_l2 : F → F → Weights F → Paid F → Paid F
  unfolding pay_weight pay_orphan total_weight
  pay_l2 energy_j window_ms weights p =
      let total_w = total_weight weights in
      let load = total_w ⊘ window_ms in
      let active_j = energy_j ⊗ (if gt load unity then unity else load) in
      if gt total_w nought
      then pay_orphan (active_j ⊗ (weights.orphan ⊘ total_w))
          (foldl (pay_weight active_j total_w) p weights.per_span)
      else p

  unfoldable pub fraction_of : Window → F → Span → String × F
  unfolding overlap_ms
  fraction_of w window_ms span =
      (span.span_id, overlap_ms span.t_start span.t_end w.t0 w.t1 ⊘ window_ms)

  -- The payments by wall clock.
  unfoldable pub pay_l1 : F → List (String × F) → Paid F → Paid F
  unfolding pay sum
  pay_l1 energy_j fractions p =
      let claimed = sum (map (λ (e : String × F). e.1) fractions) in
      let scale = if gt claimed unity then unity ⊘ claimed else unity in
      foldl (λ q (e : String × F). pay q (e.0, energy_j ⊗ e.1 ⊗ scale)) p fractions

  unfoldable pub active_row : Window → F → F → Paid F → Span → AllocRow F
  unfolding overlap_ms lookup
  active_row w energy_j window_ms p span =
      let shared = overlap_ms span.t_start span.t_end w.t0 w.t1 in
      record {
        span_id = span.span_id;
        tool_name = span.tool_name;
        locus = span.locus;
        overlap_ms = shared;
        cpu_delta_ms = unwrap_or (lookup span.span_id p.this_sample_cpu_ms) nought;
        allocated_j = unwrap_or (lookup span.span_id p.this_sample_j) nought;
        l1_allocated_j = energy_j ⊗ (shared ⊘ window_ms);
        excluded = false;
        excluded_reason = none;
      }

  -- The `continue` of a sample that no policy was applied to.
  unfoldable pub leave_idle : F → Apportionment F × SampleTrace F → Apportionment F × SampleTrace F
  leave_idle energy_j (out, this) = (
    record out { baseline_idle_j = out.baseline_idle_j ⊕ energy_j },
    record this { baseline_j = energy_j },
  )

  -- The end of the loop's body, after the payments: the rest is idle, and the trace gets its rows.
  unfoldable pub book :
      Window
      → F
      → F
      → List Span
      → Paid F
      → Apportionment F × SampleTrace F
      → Apportionment F × SampleTrace F
  unfolding active_row sum
  book w energy_j window_ms active p (out, this) = (
    record out {
      per_span_j = p.per_span_j;
      orphaned_j = p.orphaned_j;
      baseline_idle_j = out.baseline_idle_j ⊕ (energy_j ⊖ p.attributed);
    },
    record this {
      rows = this.rows ++ map (active_row w energy_j window_ms p) active;
      orphaned_j = p.this_orphaned_j;
      baseline_j = energy_j ⊖ p.attributed;
      l1_shadow_sum_share =
          sum (map (λ (s : Span). overlap_ms s.t_start s.t_end w.t0 w.t1 ⊘ window_ms) active);
    },
  )

  -- The sampler covered the window and listed nothing.
  unfoldable pub note_unobserved : List ProcWindow → Apportionment F → Apportionment F
  note_unobserved covering out =
      if not (is_empty covering) && all (λ (p : ProcWindow). is_empty p.processes) covering
      then record out { unobserved_process_windows = out.unobserved_process_windows + 1 }
      else out

  unfoldable pub split_l2 :
      Window
      → F
      → F
      → List Span
      → Weights F
      → Apportionment F × SampleTrace F
      → Apportionment F × SampleTrace F
  unfolding pay_l2 book leave_idle open_paid
  split_l2 w energy_j window_ms active weights (out, this) =
      let this' = record this { root_cpu_delta_ms = weights.root } in
      if is_empty active && le weights.orphan nought
      then leave_idle energy_j (out, this')
      else book w energy_j window_ms active (pay_l2 energy_j window_ms weights (open_paid out)) (
        record out { samples_l2 = out.samples_l2 + 1 },
        record this' { policy = some l2_cpu_time },
      )

  unfoldable pub split_l1 :
      Window → F → F → List Span → Apportionment F × SampleTrace F → Apportionment F × SampleTrace F
  unfolding pay_l1 fraction_of book open_paid
  split_l1 w energy_j window_ms active (out, this) =
      book w energy_j window_ms active
        (pay_l1 energy_j (map (fraction_of w window_ms) active) (open_paid out))
        (
          record out { samples_l1 = out.samples_l1 + 1 },
          record this { policy = some l1_wall_clock },
        )

  -- The policy ladder, for the spans and the process windows that overlap the sample.
  unfoldable pub split_sample :
      Window
      → F
      → F
      → List Span
      → List ProcWindow
      → List ℤ
      → Apportionment F × SampleTrace F
      → Apportionment F × SampleTrace F
  split_sample w energy_j window_ms active covering root_pids (out, this) =
      let noted = note_unobserved covering out in
      if not (is_empty covering)
      then split_l2 w energy_j window_ms active (cpu_weights covering active root_pids w.t0 w.t1)
          (noted, this)
      else if not (is_empty active)
      then split_l1 w energy_j window_ms active (noted, this)
      else leave_idle energy_j (noted, this)

unfoldable pub covers : (F : Type 0) ⦃f : Float F⦄ → Window → ProcWindow → Bool
unfolding overlap_ms
covers F ⦃f⦄ w p = f.gt (overlap_ms {F = F} p.t_start p.t_end w.t0 w.t1) f.nought
