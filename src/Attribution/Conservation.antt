-- ===== src/Attribution/Conservation.antt =====
-- attribution.rs: the energy that `run` divides, and the energy of its samples.
use agentic_footprint.Prelude.{
  ℕ, ◌+◌, String, ◌≡◌, sym, ap, ◌∙◌, ◌&&◌, Option, none, some, List, [], ◌∷◌, foldl, map, filter,
  inl, inr, Bool-cases, is_some, is_empty, if◌then◌else◌, arith,
}
use agentic_footprint.Prelude.Int.{ℤ, leb_ℤ}
use agentic_footprint.Float.{Float, ◌⊕◌, ◌⊖◌, ◌⊗◌, ◌⊘◌, IsExact}
use agentic_footprint.Events.{EnergySample, ProcessSample}
use agentic_footprint.Correlate.{Span, SessionTree}
use agentic_footprint.Attribution.Types.{
  Apportionment, SampleTrace, ProcWindow, l1_wall_clock, l2_cpu_time, Weights, sum, sum_values,
  total_j, total_weight, sample_energy_j, default_apportionment,
}
use agentic_footprint.Attribution.Sample.{
  Window, Paid, open_paid, pay, pay_weight, pay_orphan, pay_l2, pay_l1, leave_idle, book,
  note_unobserved, fraction_of, split_l2, split_l1, split_sample,
}
use agentic_footprint.Attribution.Weights.{cpu_weights}
use agentic_footprint.Attribution.Run.{
  Loop, parse_bounds, parse_windows, place_degenerate, place_bounds, place_window, place_sample,
  place_samples, run, apportion,
}
use agentic_footprint.Attribution.Sums.{nought_add, add_swap, sum_values-bump, sum-cons}

-- The samples that enter the join: both bounds are timestamps.
abbrev pub entered :
    {F : Type 0} → (String → Option ℤ) → List (EnergySample F) → List (EnergySample F)
entered parse_nanos =
    filter λ (s : EnergySample _). is_some (parse_bounds parse_nanos s.t_start s.t_end)

module _ {F : Type 0} ⦃f : Float F⦄ (exact : IsExact F) where
  open f use {nought, unity, gt, le}
  open exact use {add_comm, add_assoc, add_nought, add-sub}

  -- What the spans and the orphan bucket have grown by since `base` is what was attributed.
  abbrev IsPlaced : F → Paid F → Type 0
  IsPlaced base p = sum_values p.per_span_j ⊕ p.orphaned_j ≡ base ⊕ p.attributed

  pay-IsPlaced :
      (base : F) (p : Paid F) (e : String × F) → IsPlaced base p → IsPlaced base (pay p e)
  unfolding pay
  pay-IsPlaced base p (x, j) h = rw (sum_values-bump exact) (
      add_swap exact (sum_values p.per_span_j) j p.orphaned_j
      ∙ ap (λ z. z ⊕ j) h
      ∙ add_assoc base p.attributed j)

  pay_orphan-IsPlaced : (base j : F) (p : Paid F) → IsPlaced base p → IsPlaced base (pay_orphan j p)
  unfolding pay_orphan
  pay_orphan-IsPlaced base j p h =
      sym (add_assoc (sum_values p.per_span_j) p.orphaned_j j)
      ∙ ap (λ z. z ⊕ j) h
      ∙ add_assoc base p.attributed j

  weights-IsPlaced :
      (base a t : F) (es : List (String × F)) (p : Paid F)
      → IsPlaced base p
      → IsPlaced base (foldl (pay_weight a t) p es)
  unfolding pay_weight
  weights-IsPlaced base a t [] p h = h
  weights-IsPlaced base a t ((x, w) ∷ es) p h =
      weights-IsPlaced base a t es (pay_weight a t p (x, w))
        (pay-IsPlaced base p (x, a ⊗ (w ⊘ t)) h)

  pay_l2-IsPlaced :
      (base e w : F) (weights : Weights F) (p : Paid F)
      → IsPlaced base p
      → IsPlaced base (pay_l2 e w weights p)
  unfolding pay_l2
  pay_l2-IsPlaced base e w weights p h =
      let t = total_weight weights in
      let load = t ⊘ w in
      let a = e ⊗ (if gt load unity then unity else load) in
      elim (Bool-cases (gt t nought)) [
        | inl q ↦ rw q (
            pay_orphan-IsPlaced base (a ⊗ (weights.orphan ⊘ t))
              (foldl (pay_weight a t) p weights.per_span)
              (weights-IsPlaced base a t weights.per_span p h))
        | inr q ↦ rw q h
      ]

  fractions-IsPlaced :
      (base e c : F) (es : List (String × F)) (p : Paid F)
      → IsPlaced base p
      → IsPlaced base (foldl (λ q (x : String × F). pay q (x.0, e ⊗ x.1 ⊗ c)) p es)
  fractions-IsPlaced base e c [] p h = h
  fractions-IsPlaced base e c ((x, w) ∷ es) p h =
      fractions-IsPlaced base e c es (pay p (x, e ⊗ w ⊗ c)) (pay-IsPlaced base p (x, e ⊗ w ⊗ c) h)

  pay_l1-IsPlaced :
      (base e : F) (es : List (String × F)) (p : Paid F)
      → IsPlaced base p
      → IsPlaced base (pay_l1 e es p)
  unfolding pay_l1
  pay_l1-IsPlaced base e es p h = fractions-IsPlaced base e _ es p h

  abbrev placed : Apportionment F → F
  placed out = sum_values out.per_span_j ⊕ out.orphaned_j

  open_paid-IsPlaced : (out : Apportionment F) → IsPlaced (placed out) (open_paid out)
  unfolding open_paid
  open_paid-IsPlaced out = sym (add_nought (placed out))

  total-leave_idle :
      (e : F) (s : Apportionment F × SampleTrace F) → total_j (leave_idle e s).0 ≡ total_j s.0 ⊕ e
  unfolding leave_idle total_j
  total-leave_idle e (out, this) = sym (add_assoc (placed out) out.baseline_idle_j e)

  total-book :
      (w : Window) (e ms : F) (active : List Span) (p : Paid F)
      (s : Apportionment F × SampleTrace F)
      → IsPlaced (placed s.0) p
      → total_j (book w e ms active p s).0 ≡ total_j s.0 ⊕ e
  unfolding book total_j
  total-book w e ms active p (out, this) h =
      let b = out.baseline_idle_j in
      let a = p.attributed in
      ap (λ z. z ⊕ (b ⊕ (e ⊖ a))) h
      ∙ sym (add_assoc (placed out ⊕ a) b (e ⊖ a))
      ∙ ap (λ z. z ⊕ (e ⊖ a)) (add_swap exact (placed out) a b)
      ∙ add_assoc (placed out ⊕ b) a (e ⊖ a)
      ∙ ap (λ z. placed out ⊕ b ⊕ z) (add-sub a e)

  total-note_unobserved :
      (ws : List ProcWindow) (out : Apportionment F)
      → total_j (note_unobserved ws out) ≡ total_j out
  unfolding note_unobserved total_j
  total-note_unobserved ws out = ground arith

  total-split_l2 :
      (w : Window) (e ms : F) (active : List Span) (weights : Weights F)
      (s : Apportionment F × SampleTrace F)
      → total_j (split_l2 w e ms active weights s).0 ≡ total_j s.0 ⊕ e
  unfolding split_l2 total_j
  total-split_l2 w e ms active weights (out, this) =
      let this' = record this { root_cpu_delta_ms = weights.root } in
      elim (Bool-cases (is_empty active && le weights.orphan nought)) [
        | inl q ↦ rw q (total-leave_idle e (out, this'))
        | inr q ↦ rw q (
            total-book w e ms active (pay_l2 e ms weights (open_paid out))
              (
                record out { samples_l2 = out.samples_l2 + 1 },
                record this' { policy = some l2_cpu_time },
              )
              (pay_l2-IsPlaced (placed out) e ms weights (open_paid out) (open_paid-IsPlaced out)))
      ]

  total-split_l1 :
      (w : Window) (e ms : F) (active : List Span) (s : Apportionment F × SampleTrace F)
      → total_j (split_l1 w e ms active s).0 ≡ total_j s.0 ⊕ e
  unfolding split_l1 total_j
  total-split_l1 w e ms active (out, this) =
      let fractions = map (fraction_of w ms) active in
      total-book w e ms active (pay_l1 e fractions (open_paid out))
        (
          record out { samples_l1 = out.samples_l1 + 1 },
          record this { policy = some l1_wall_clock },
        )
        (pay_l1-IsPlaced (placed out) e fractions (open_paid out) (open_paid-IsPlaced out))

  -- One sample with a window adds just its own joules, whichever rung of the ladder it reaches.
  pub total-split_sample :
      (w : Window) (e ms : F) (active : List Span) (covering : List ProcWindow) (roots : List ℤ)
      (s : Apportionment F × SampleTrace F)
      → total_j (split_sample w e ms active covering roots s).0 ≡ total_j s.0 ⊕ e
  unfolding split_sample
  total-split_sample w e ms active [] roots (out, this) = elim (Bool-cases (is_empty active)) [
    | inl q ↦ rw q (
        total-leave_idle e (note_unobserved [] out, this)
        ∙ ap (λ z. z ⊕ e) (total-note_unobserved [] out))
    | inr q ↦ rw q (
        total-split_l1 w e ms active (note_unobserved [] out, this)
        ∙ ap (λ z. z ⊕ e) (total-note_unobserved [] out))
  ]
  total-split_sample w e ms active (c ∷ cs) roots (out, this) =
      total-split_l2 w e ms active (cpu_weights (c ∷ cs) active roots w.t0 w.t1)
        (note_unobserved (c ∷ cs) out, this)
      ∙ ap (λ z. z ⊕ e) (total-note_unobserved (c ∷ cs) out)

  module _ (parse_nanos : String → Option ℤ) (tree : SessionTree) (windows : List ProcWindow) where
    total-place_bounds :
        (i : ℕ) (s : EnergySample F) (o : Option Window) (l : Loop F)
        → total_j (place_bounds parse_nanos tree windows i s o l).out
          ≡ total_j l.out ⊕ (if is_some o then sample_energy_j s else nought)
    unfolding place_bounds
    total-place_bounds i s none l = unfold total_j in sym (add_nought (total_j l.out))
    total-place_bounds i s (some w) l = elim (Bool-cases (leb_ℤ w.t1 w.t0)) [
      | inl d ↦ rw d (
          unfold place_degenerate total_j in
          total-leave_idle (sample_energy_j s)
            (record l.out { degenerate_samples = l.out.degenerate_samples + 1 }, _))
      | inr d ↦ rw d (unfold place_window in total-split_sample w (sample_energy_j s) _ _ _ _ _)
    ]

    total-place_samples :
        (i : ℕ) (samples : List (EnergySample F)) (l : Loop F)
        → total_j (place_samples parse_nanos tree windows i samples l).out
          ≡ total_j l.out ⊕ sum (map sample_energy_j (entered parse_nanos samples))
    unfolding place_samples place_sample
    total-place_samples i [] l = unfold sum in sym (add_nought (total_j l.out))
    total-place_samples i (s ∷ ss) l =
        let o = parse_bounds parse_nanos s.t_start s.t_end in
        let rest' = map sample_energy_j (entered parse_nanos ss) in
        let rest = sum rest' in
        let l' = place_bounds parse_nanos tree windows i s o l in
        total-place_samples (i + 1) ss l'
        ∙ ap (λ z. z ⊕ rest) (total-place_bounds i s o l)
        ∙ elim (Bool-cases (is_some o)) [
          | inl e ↦ rw e (
              add_assoc (total_j l.out) (sample_energy_j s) rest
              ∙ ap (λ z. total_j l.out ⊕ z) (sym (sum-cons exact (sample_energy_j s) rest')))
          | inr e ↦ rw e (ap (λ z. z ⊕ rest) (add_nought (total_j l.out)))
        ]

  -- Conservation: `Σ per_span_j + orphaned_j + baseline_idle_j` is the energy of all samples whose
  -- bounds are timestamps, in exact sums, whatever the process samples and the spans are.
  pub conservation :
      (parse_nanos : String → Option ℤ) (samples : List (EnergySample F))
      (procs : List ProcessSample) (tree : SessionTree)
      → total_j (apportion parse_nanos samples procs tree)
        ≡ sum (map sample_energy_j (entered parse_nanos samples))
  unfolding apportion run total_j default_apportionment sum_values
  conservation parse_nanos samples procs tree =
      let (skipped, windows) = parse_windows parse_nanos procs (0, []) in
      let joules = sum (map sample_energy_j (entered parse_nanos samples)) in
      total-place_samples parse_nanos tree windows 0 samples (record {
        out = record default_apportionment { skipped_events = skipped };
        traces = [];
        remote_seen = [];
        degenerate_seen = [];
      })
      ∙ ap (λ z. z ⊕ nought ⊕ joules) (add_nought nought)
      ∙ ap (λ z. z ⊕ joules) (add_nought nought)
      ∙ nought_add exact joules
