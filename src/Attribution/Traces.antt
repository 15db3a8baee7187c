-- ===== src/Attribution/Traces.antt =====
-- The traces of the samples, beside the aggregate that is counted at the same time.
use mathlib.Core.List.{foldl-append, map-append}
use agentic_footprint.Prelude.{
  ℕ, ◌+◌, String, ◌≡◌, refl, sym, ap, ◌∙◌, ◌&&◌, not, Option, none, some, List, [], ◌∷◌, ◌++◌,
  foldl, map, filter, all, length, length-append, inl, inr, Bool-cases, is_some, is_empty,
  if◌then◌else◌, arith,
}
use agentic_footprint.Prelude.Int.{ℤ, leb_ℤ, ◌-ℤ◌}
use agentic_footprint.Float.{Float, ◌⊕◌}
use agentic_footprint.Events.{EnergySample, ProcessSample}
use agentic_footprint.Correlate.{Span, SessionTree, overlaps, is_attributable}
use agentic_footprint.Attribution.Types.{
  Apportionment, SampleTrace, ProcWindow, Policy, l1_wall_clock, l2_cpu_time, Weights, sum,
  default_apportionment, sample_energy_j,
}
use agentic_footprint.Attribution.Sample.{
  Window, remote_row, covers, leave_idle, book, note_unobserved, split_l2, split_l1, split_sample,
}
use agentic_footprint.Attribution.Weights.{cpu_weights}
use agentic_footprint.Attribution.Run.{
  Loop, parse_bounds, parse_windows, place_degenerate, place_bounds, place_window, place_sample,
  place_samples, run, apportion_traced, blank_trace, remote_spans,
}
use agentic_footprint.Attribution.Conservation.{entered}

abbrev pub one_l2 : Option Policy → ℕ
one_l2 (some l2_cpu_time) = 1
one_l2 _ = 0

abbrev pub one_l1 : Option Policy → ℕ
one_l1 (some l1_wall_clock) = 1
one_l1 _ = 0

-- How many traces were weighted by cpu time, and by wall clock.
abbrev pub l2_traces : {F : Type 0} → List (SampleTrace F) → ℕ
l2_traces [] = 0
l2_traces (t ∷ ts) = one_l2 t.policy + l2_traces ts

abbrev pub l1_traces : {F : Type 0} → List (SampleTrace F) → ℕ
l1_traces [] = 0
l1_traces (t ∷ ts) = one_l1 t.policy + l1_traces ts

l2_traces-append :
    {F : Type 0} (ts us : List (SampleTrace F)) → l2_traces (ts ++ us) ≡ l2_traces ts + l2_traces us
l2_traces-append [] us = omega arith
l2_traces-append (t ∷ ts) us = omega (arith, l2_traces-append ts us)

l1_traces-append :
    {F : Type 0} (ts us : List (SampleTrace F)) → l1_traces (ts ++ us) ≡ l1_traces ts + l1_traces us
l1_traces-append [] us = omega arith
l1_traces-append (t ∷ ts) us = omega (arith, l1_traces-append ts us)

module _ {F : Type 0} ⦃f : Float F⦄ where
  open f use {nought}

  abbrev pub baselines : List (SampleTrace F) → F
  baselines ts = sum (map (λ (t : SampleTrace F). t.baseline_j) ts)

  baselines-append :
      (ts : List (SampleTrace F)) (t : SampleTrace F)
      → baselines (ts ++ t ∷ []) ≡ baselines ts ⊕ t.baseline_j
  unfolding sum
  baselines-append ts t =
      ap (foldl ◌⊕◌ nought) (map-append (λ (u : SampleTrace F). u.baseline_j) ts (t ∷ []))
      ∙ foldl-append ◌⊕◌ nought (map (λ (u : SampleTrace F). u.baseline_j) ts) (t.baseline_j ∷ [])

  -- A sample's step adds to the aggregate what it writes into the sample's trace.
  abbrev Booked : Apportionment F → Apportionment F × SampleTrace F → Type 0
  Booked out (next, t) =
      (next.baseline_idle_j ≡ out.baseline_idle_j ⊕ t.baseline_j)
      × (next.samples_l2 ≡ out.samples_l2 + one_l2 t.policy)
      × (next.samples_l1 ≡ out.samples_l1 + one_l1 t.policy)

  note_unobserved-Booked :
      (covering : List ProcWindow) (out : Apportionment F) (r : Apportionment F × SampleTrace F)
      → Booked (note_unobserved covering out) r
      → Booked out r
  unfolding note_unobserved
  note_unobserved-Booked covering out r h =
      elim (Bool-cases
        (not (is_empty covering) && all (λ (p : ProcWindow). is_empty p.processes) covering)) [
          | inl e ↦ rw e at h
          | inr e ↦ rw e at h
        ]

  leave_idle-Booked :
      (e : F) (out : Apportionment F) (this : SampleTrace F)
      → this.policy ≡ none
      → Booked out (leave_idle e (out, this))
  unfolding leave_idle
  leave_idle-Booked e out this h = (refl, rw h (omega arith), rw h (omega arith))

  split_l2-Booked :
      (w : Window) (e ms : F) (active : List Span) (weights : Weights F) (out : Apportionment F)
      (this : SampleTrace F)
      → this.policy ≡ none
      → Booked out (split_l2 w e ms active weights (out, this))
  unfolding split_l2 book leave_idle
  split_l2-Booked w e ms active weights out this h =
      elim (Bool-cases (is_empty active && f.le weights.orphan nought)) [
        | inl q ↦ rw q (refl, rw h (omega arith), rw h (omega arith))
        | inr q ↦ rw q (refl, omega arith, omega arith)
      ]

  split_l1-Booked :
      (w : Window) (e ms : F) (active : List Span) (out : Apportionment F) (this : SampleTrace F)
      → Booked out (split_l1 w e ms active (out, this))
  unfolding split_l1 book
  split_l1-Booked w e ms active out this = (refl, omega arith, omega arith)

  split_sample-Booked :
      (w : Window) (e ms : F) (active : List Span) (covering : List ProcWindow) (roots : List ℤ)
      (out : Apportionment F) (this : SampleTrace F)
      → this.policy ≡ none
      → Booked out (split_sample w e ms active covering roots (out, this))
  unfolding split_sample
  split_sample-Booked w e ms [] [] roots out this h =
      note_unobserved-Booked [] out (leave_idle e (note_unobserved [] out, this))
        (leave_idle-Booked e (note_unobserved [] out) this h)
  split_sample-Booked w e ms (s ∷ ss) [] roots out this h =
      note_unobserved-Booked [] out (split_l1 w e ms (s ∷ ss) (note_unobserved [] out, this))
        (split_l1-Booked w e ms (s ∷ ss) (note_unobserved [] out) this)
  split_sample-Booked w e ms active (c ∷ cs) roots out this h =
      note_unobserved-Booked (c ∷ cs) out
        (split_l2 w e ms active (cpu_weights (c ∷ cs) active roots w.t0 w.t1)
          (note_unobserved (c ∷ cs) out, this))
        (split_l2-Booked w e ms active (cpu_weights (c ∷ cs) active roots w.t0 w.t1)
          (note_unobserved (c ∷ cs) out) this h)

  -- What the aggregate and the traces say of each other.
  abbrev Agree : Loop F → Type 0
  Agree l =
      (l.out.baseline_idle_j ≡ baselines l.traces)
      × (l.out.samples_l2 ≡ l2_traces l.traces)
      × (l.out.samples_l1 ≡ l1_traces l.traces)

  agree_next :
      (out next : Apportionment F) (t : SampleTrace F) (ts : List (SampleTrace F))
      → (out.baseline_idle_j ≡ baselines ts)
        × (out.samples_l2 ≡ l2_traces ts)
        × (out.samples_l1 ≡ l1_traces ts)
      → Booked out (next, t)
      → (next.baseline_idle_j ≡ baselines (ts ++ t ∷ []))
        × (next.samples_l2 ≡ l2_traces (ts ++ t ∷ []))
        × (next.samples_l1 ≡ l1_traces (ts ++ t ∷ []))
  agree_next out next t ts h b = (
    b.0 ∙ ap (λ z. z ⊕ t.baseline_j) h.0 ∙ sym (baselines-append ts t),
    omega (arith, b.1, h.1, l2_traces-append ts (t ∷ [])),
    omega (arith, b.2, h.2, l1_traces-append ts (t ∷ [])),
  )

  -- And by how many traces the loop has gone on.
  abbrev Grown : Loop F → ℕ → Loop F → Type 0
  Grown l n m = Agree m × (length m.traces ≡ length l.traces + n)

  module _ (parse_nanos : String → Option ℤ) (tree : SessionTree) (windows : List ProcWindow) where
    place_degenerate-Agree :
        (i : ℕ) (s : EnergySample F) (l : Loop F)
        → Agree l
        → Agree (
            place_degenerate parse_nanos tree windows
              (sample_energy_j s)
              (blank_trace parse_nanos i s)
              l)
          × (length
                (place_degenerate parse_nanos tree windows
                  (sample_energy_j s)
                  (blank_trace parse_nanos i s)
                  l).traces
              ≡ length l.traces + 1)
    unfolding place_degenerate blank_trace
    place_degenerate-Agree i s l h =
        let out = record l.out { degenerate_samples = l.out.degenerate_samples + 1 } in
        let r = leave_idle (sample_energy_j s) (out, blank_trace parse_nanos i s) in
        (
          agree_next l.out r.0 r.1 l.traces h
              (leave_idle-Booked (sample_energy_j s) out (blank_trace parse_nanos i s) refl),
          omega (arith, length-append l.traces (r.1 ∷ [])),
        )

    place_window-Agree :
        (i : ℕ) (s : EnergySample F) (w : Window) (l : Loop F)
        → Agree l
        → Agree (
            place_window parse_nanos tree windows w
              (sample_energy_j s)
              (blank_trace parse_nanos i s)
              l)
          × (length
                (place_window parse_nanos tree windows w
                  (sample_energy_j s)
                  (blank_trace parse_nanos i s)
                  l).traces
              ≡ length l.traces + 1)
    unfolding place_window blank_trace
    place_window-Agree i s w l h =
        let e = sample_energy_j s in
        let ms = f.of_int (w.t1 -ℤ w.t0) in
        let over = λ (x : Span). overlaps x w.t0 w.t1 in
        let this = record (blank_trace parse_nanos i s) {
          denominator_cpu_ms = ms;
          rows = [] ++ map (remote_row w) (filter over (remote_spans tree));
        } in
        let active = filter over (filter is_attributable tree.spans) in
        let covering = filter (covers F w) windows in
        let r = split_sample w e ms active covering tree.root_pids (l.out, this) in
        (
          agree_next l.out r.0 r.1 l.traces h
              (split_sample-Booked w e ms active covering tree.root_pids l.out this refl),
          omega (arith, length-append l.traces (r.1 ∷ [])),
        )

    length-entered :
        (s : EnergySample F) (ss : List (EnergySample F))
        → length (entered parse_nanos (s ∷ ss))
          ≡ (if is_some (parse_bounds parse_nanos s.t_start s.t_end) then 1 else 0)
            + length (entered parse_nanos ss)
    length-entered s ss = ground arith

    place_bounds-Agree :
        (i : ℕ) (s : EnergySample F) (o : Option Window) (l : Loop F)
        → Agree l
        → Grown l (if is_some o then 1 else 0) (place_bounds parse_nanos tree windows i s o l)
    unfolding place_bounds
    place_bounds-Agree i s none l h = (h, omega arith)
    place_bounds-Agree i s (some w) l h = elim (Bool-cases (leb_ℤ w.t1 w.t0)) [
      | inl d ↦ rw d (place_degenerate-Agree i s l h)
      | inr d ↦ rw d (place_window-Agree i s w l h)
    ]

    place_samples-Agree :
        (i : ℕ) (samples : List (EnergySample F)) (l : Loop F)
        → Agree l
        → Agree (place_samples parse_nanos tree windows i samples l)
          × (length (place_samples parse_nanos tree windows i samples l).traces
              ≡ length l.traces + length (entered parse_nanos samples))
    unfolding place_samples place_sample
    place_samples-Agree i [] l h = (h, omega arith)
    place_samples-Agree i (s ∷ ss) l h =
        let o = parse_bounds parse_nanos s.t_start s.t_end in
        let (now, grown) = place_bounds-Agree i s o l h in
        let (rest, more) =
          place_samples-Agree (i + 1) ss (place_bounds parse_nanos tree windows i s o l) now in
        (rest, omega (arith, grown, more, length-entered s ss))

  -- The traces and the aggregate of a join agree: there is one trace for each sample whose bounds are timestamps, the
  -- idle baseline is the sum of the traces' baselines in their order, and the counts of samples by cpu time and by wall
  -- clock are the numbers of traces with that policy. This holds for any `f64` arithmetic.
  pub apportion_traced-agree :
      (parse_nanos : String → Option ℤ) (samples : List (EnergySample F))
      (procs : List ProcessSample) (tree : SessionTree)
      → let (out, traces) = apportion_traced parse_nanos samples procs tree in
        (length traces ≡ length (entered parse_nanos samples))
        × (out.baseline_idle_j ≡ baselines traces)
        × (out.samples_l2 ≡ l2_traces traces)
        × (out.samples_l1 ≡ l1_traces traces)
  unfolding apportion_traced run default_apportionment
  apportion_traced-agree parse_nanos samples procs tree =
      let (skipped, windows) = parse_windows parse_nanos procs (0, []) in
      let l0 : Loop F = record {
        out = record default_apportionment { skipped_events = skipped };
        traces = [];
        remote_seen = [];
        degenerate_seen = [];
      } in
      let (agree, count) =
        place_samples-Agree parse_nanos tree windows 0 samples l0
          (unfold sum in refl, refl, refl) in
      (omega (arith, count), agree.0, agree.1, agree.2)
