-- ===== src/Attribution/Run.antt =====
-- attribution.rs: `run`, the loop over the energy samples of one session.
use agentic_footprint.Prelude.{
  ℕ, ◌+◌, String, Bool, ◌&&◌, not, Option, none, some, List, [], ◌∷◌, ◌++◌, map, filter, length,
  if◌then◌else◌, str_eq,
}
use agentic_footprint.Prelude.Int.{ℤ, ◌-ℤ◌, leb_ℤ}
use agentic_footprint.Prelude.Keyed.{string_key, set_insert}
use agentic_footprint.Float.{Float}
use agentic_footprint.Events.{EnergySample, ProcessSample, ProcessDelta}
use agentic_footprint.Correlate.{
  Span, SessionTree, bootstrap_tool_name, is_remote, is_attributable, overlaps, parse_ts,
}
use agentic_footprint.Attribution.Types.{
  Apportionment, SampleTrace, ProcWindow, default_apportionment, sample_energy_j,
}
use agentic_footprint.Attribution.Sample.{Window, remote_row, leave_idle, covers, split_sample}

-- A local span with no duration, other than the bootstrap span.
unfoldable pub is_degenerate : Span → Bool
is_degenerate s =
    not (is_remote s.locus)
    && leb_ℤ s.t_end s.t_start
    && not (str_eq s.tool_name bootstrap_tool_name)

abbrev pub remote_spans : SessionTree → List Span
remote_spans tree = filter (λ (s : Span). is_remote s.locus) tree.spans

abbrev pub degenerate_spans : SessionTree → List Span
degenerate_spans tree = filter is_degenerate tree.spans

-- `remote_seen` and `degenerate_seen`: the ids of the spans that overlap the window are added.
unfoldable pub mark_seen : Window → List Span → List String → List String
unfolding overlaps
mark_seen w [] seen = seen
mark_seen w (s ∷ ss) seen =
    mark_seen w ss (if overlaps s w.t0 w.t1 then set_insert s.span_id seen else seen)

-- The variables of the loop.
pub record Loop (F : Type 0) : Type 0 where
  pub out : Apportionment F
  pub traces : List (SampleTrace F)
  pub remote_seen : List String
  pub degenerate_seen : List String

module _ (parse_nanos : String → Option ℤ) where
  -- Both bounds of a sample.
  unfoldable pub parse_bounds : String → String → Option Window
  parse_bounds t_start t_end = elim (parse_ts parse_nanos t_start) [
    | none ↦ none
    | some t0 ↦ elim (parse_ts parse_nanos t_end) [
      | none ↦ none
      | some t1 ↦ some (record { t0 = t0; t1 = t1 })
    ]
  ]

  unfoldable pub keep_window :
      List ProcessDelta → Option Window → ℕ × List ProcWindow → ℕ × List ProcWindow
  keep_window processes none (skipped, windows) = (skipped + 1, windows)
  keep_window processes (some w) (skipped, windows) =
      if leb_ℤ w.t1 w.t0
      then (skipped + 1, windows)
      else (skipped, windows ++ record { t_start = w.t0; t_end = w.t1; processes = processes } ∷ [])

  -- How many process samples were dropped, and the windows that can be used.
  unfoldable pub parse_windows : List ProcessSample → ℕ × List ProcWindow → ℕ × List ProcWindow
  parse_windows [] acc = acc
  parse_windows (p ∷ ps) acc =
      parse_windows ps (keep_window p.processes (parse_bounds p.t_start p.t_end) acc)

  module _ {F : Type 0} ⦃f : Float F⦄ where
    open f use {nought, of_int}

    unfoldable pub blank_trace : ℕ → EnergySample F → SampleTrace F
    blank_trace index sample = record {
      sample_index = index;
      t_start = sample.t_start;
      t_end = sample.t_end;
      total_j = sample_energy_j sample;
      denominator_cpu_ms = nought;
      policy = none;
      rows = [];
      orphaned_j = nought;
      baseline_j = nought;
      l1_shadow_sum_share = nought;
      root_cpu_delta_ms = nought;
    }

    module _ (tree : SessionTree) (windows : List ProcWindow) where
      -- A sample whose window has a positive length.
      unfoldable pub place_window : Window → F → SampleTrace F → Loop F → Loop F
      place_window w energy_j blank l =
          let window_ms = of_int (w.t1 -ℤ w.t0) in
          let over = λ (s : Span). overlaps s w.t0 w.t1 in
          let this = record blank {
            denominator_cpu_ms = window_ms;
            rows = blank.rows ++ map (remote_row w) (filter over (remote_spans tree));
          } in
          let (out, trace) =
            split_sample w energy_j window_ms (filter over (filter is_attributable tree.spans))
              (filter (covers F w) windows) tree.root_pids (l.out, this) in
          record {
            out = out;
            traces = l.traces ++ trace ∷ [];
            remote_seen = mark_seen w (remote_spans tree) l.remote_seen;
            degenerate_seen = mark_seen w (degenerate_spans tree) l.degenerate_seen;
          }

      unfoldable pub place_degenerate : F → SampleTrace F → Loop F → Loop F
      place_degenerate energy_j blank l =
          let (out, this) =
            leave_idle energy_j
              (record l.out { degenerate_samples = l.out.degenerate_samples + 1 }, blank) in
          record l { out = out; traces = l.traces ++ this ∷ [] }

      -- The body of the loop, after the bounds are parsed.
      unfoldable pub place_bounds : ℕ → EnergySample F → Option Window → Loop F → Loop F
      place_bounds index sample none l = record l {
        out = record l.out { skipped_events = l.out.skipped_events + 1 };
      }
      place_bounds index sample (some w) l =
          let energy_j = sample_energy_j sample in
          let blank = blank_trace index sample in
          if leb_ℤ w.t1 w.t0
          then place_degenerate energy_j blank l
          else place_window w energy_j blank l

      unfoldable pub place_sample : ℕ → EnergySample F → Loop F → Loop F
      place_sample index sample l =
          place_bounds index sample (parse_bounds sample.t_start sample.t_end) l

      unfoldable pub place_samples : ℕ → List (EnergySample F) → Loop F → Loop F
      place_samples index [] l = l
      place_samples index (s ∷ ss) l = place_samples (index + 1) ss (place_sample index s l)

    unfoldable pub run :
        List (EnergySample F)
        → List ProcessSample
        → SessionTree
        → Apportionment F × List (SampleTrace F)
    run samples procs tree =
        let (skipped, windows) = parse_windows procs (0, []) in
        let l = place_samples tree windows 0 samples (record {
          out = record default_apportionment { skipped_events = skipped };
          traces = [];
          remote_seen = [];
          degenerate_seen = [];
        }) in
        (
          record l.out {
            unmeasured_remote_spans = length l.remote_seen;
            degenerate_spans = length l.degenerate_seen;
          },
          l.traces,
        )

    unfoldable pub apportion :
        List (EnergySample F) → List ProcessSample → SessionTree → Apportionment F
    apportion samples procs tree = (run samples procs tree).0

    unfoldable pub apportion_traced :
        List (EnergySample F)
        → List ProcessSample
        → SessionTree
        → Apportionment F × List (SampleTrace F)
    apportion_traced samples procs tree = run samples procs tree
