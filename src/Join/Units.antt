-- ===== src/Join/Units.antt =====
-- join.rs: `build_joins`, one record for the session, for each span id and for each task.
use agentic_footprint.Prelude.{
  ◌+◌, String, str_append, Bool, true, false, not, Option, none, some, List, [], ◌∷◌, ◌++◌, foldl,
  map, filter, filter_map, sort_by, and_then, str_eq, if◌then◌else◌,
}
use agentic_footprint.Prelude.Int.{ℤ, min_ℤ, max_ℤ}
use agentic_footprint.Prelude.Keyed.{string_key, str_lt, alter}
use agentic_footprint.Float.{Float, ◌⊕◌}
use agentic_footprint.Json.{Json}
use agentic_footprint.Events.{Attribution, Envelope}
use agentic_footprint.Correlate.{Span, SessionTree, is_attributable, parse_ts}
use agentic_footprint.Attribution.Types.{
  Policy, id, schema_name, Apportionment, policy, span_j, sum,
}
use agentic_footprint.Join.Coverage.{
  Interval, coverage_fraction, energy_coverage_windows, any_energy_sample_parsed,
}
use agentic_footprint.Join.Remote.{LlmCallRef, RemoteEstimated, llm_calls, remote_estimated}
use agentic_footprint.Join.Local.{Zone, LocalMeasured, zone_object, local_measured, combined_total}

pub record ImpactJoin (V : Type 0) : Type 0 where
  pub unit_key : String
  pub json : V

pub record JoinCtx (V F : Type 0) : Type 0 where
  pub apportionment : Apportionment F
  pub coverage_windows : List Interval
  pub energy_measured : Bool
  pub calls : List LlmCallRef
  pub estimates : List (String × V)
  pub zone : Zone F
  pub remote_region_id : Option String

-- `BTreeMap::entry(key).or_default().push(span)`, for each span that has a key.
unfoldable pub group_spans : (Span → Option String) → List Span → List (String × List Span)
unfolding alter
group_spans key spans =
    foldl (λ m s. elim (key s) [ none ↦ m | some k ↦ alter k [] (λ ss. ss ++ s ∷ []) m ]) [] spans

-- A `BTreeSet` of span ids, in order.
unfoldable pub distinct_ids : List Span → List String
unfolding alter
distinct_ids spans =
    map (λ (e : String × Unit {0}). e.0)
      (foldl (λ m (s : Span). alter s.span_id tt (λ u. u) m) [] spans)

-- `Iterator::min` and `Iterator::max`.
unfoldable pub fold_bound : (ℤ → ℤ → ℤ) → List ℤ → Option ℤ
fold_bound f [] = none
fold_bound f (t ∷ ts) = some (foldl f t ts)

-- The first tool call id that a span of the group carries.
unfoldable pub first_tool_call_id : List Span → Option String
first_tool_call_id [] = none
first_tool_call_id (s ∷ ss) =
    let rest = first_tool_call_id ss in
    elim (and_then s.attribution (λ (a : Attribution). a.tool_call_id)) [
      | none ↦ rest
      | some x ↦ some x
    ]

abbrev pub matches_id : Option String → Option String → Bool
matches_id (some unit_id) (some call_id) = str_eq unit_id call_id
matches_id _ _ = false

abbrev pub task_of : Span → Option String
task_of s = and_then s.attribution (λ (a : Attribution). a.task_id)

abbrev pub unit_key : String → String → String → String
unit_key level session_id key =
    str_append level (str_append ":" (str_append session_id (str_append ":" key)))

module _ {F : Type 0} ⦃f : Float F⦄ where
  open f use {nought}

  -- The sum over distinct ids, in their order.
  unfoldable pub joules_of : Apportionment F → List Span → F
  unfolding sum distinct_ids span_j
  joules_of a spans = sum (map (span_j a) (distinct_ids spans))

  abbrev pub interval_coverage : List Interval → Option ℤ → Option ℤ → F
  interval_coverage windows (some t0) (some t1) = coverage_fraction windows t0 t1
  interval_coverage windows _ _ = nought

module _ {V F : Type 0} ⦃j : Json V F⦄ ⦃f : Float F⦄ where
  open j use {object, text, float, count}
  open f use {nought}

  unfoldable pub record_base : V → String → String → Policy → Zone F → List (String × V)
  unfolding zone_object
  record_base unit t_start t_end p zone =
      ("unit", unit)
      ∷ ("t_start", text t_start)
      ∷ ("t_end", text t_end)
      ∷ ("attribution_policy", text (schema_name p))
      ∷ ("attribution_policy_id", text (id p))
      ∷ ("zone", zone_object zone)
      ∷ []

  unfoldable pub finish :
      List (String × V) → LocalMeasured V F → RemoteEstimated V F → Bool → List (String × V)
  finish members local remote no_local_energy =
      members
      ++ (("local_measured", local.json)
          ∷ ("remote_estimated", remote.json)
          ∷ ("combined_total", combined_total local remote no_local_energy)
          ∷ [])

  -- The record, from bounds that are there.
  unfoldable pub group_record :
      JoinCtx V F
      → String
      → V
      → List Span
      → (LlmCallRef → Bool)
      → ℤ
      → ℤ
      → String
      → String
      → ImpactJoin V
  group_record ctx key unit spans matcher t0 t1 start_text end_text =
      let local =
        if ctx.energy_measured
        then local_measured (some (joules_of ctx.apportionment spans))
            (coverage_fraction ctx.coverage_windows t0 t1) ctx.zone none
        else local_measured none nought ctx.zone none in
      record {
        unit_key = key;
        json = object (
            finish (record_base unit start_text end_text (policy ctx.apportionment) ctx.zone) local
              (remote_estimated ctx.calls ctx.estimates ctx.remote_region_id matcher)
              (not ctx.energy_measured));
      }

  -- `rfc3339_ms` is a parameter: the text of a time, if it lies in the calendar.
  module _ (rfc3339_ms : ℤ → Option String) where
    unfoldable pub span_group_join :
        JoinCtx V F → String → V → List Span → (LlmCallRef → Bool) → Option (ImpactJoin V)
    unfolding fold_bound
    span_group_join ctx key unit spans matcher =
        and_then (fold_bound min_ℤ (map (λ (s : Span). s.t_start) spans)) λ t0.
          and_then (fold_bound max_ℤ (map (λ (s : Span). s.t_end) spans)) λ t1.
            and_then (rfc3339_ms t0) λ start_text.
              and_then (rfc3339_ms t1)
                λ end_text. some (group_record ctx key unit spans matcher t0 t1 start_text end_text)

    unfoldable pub tool_call_join :
        JoinCtx V F → String → String × List Span → Option (ImpactJoin V)
    unfolding first_tool_call_id
    tool_call_join ctx session_id (span_id, spans) =
        let tool_call_id = first_tool_call_id spans in
        span_group_join ctx (unit_key "tool_call" session_id span_id)
          (object (
            ("level", text "tool_call")
            ∷ ("session_id", text session_id)
            ∷ ("span_id", text span_id)
            ∷ elim tool_call_id [ none ↦ [] | some x ↦ ("tool_call_id", text x) ∷ [] ]))
          spans (λ call. matches_id tool_call_id call.tool_call_id)

    unfoldable pub task_join : JoinCtx V F → String → String × List Span → Option (ImpactJoin V)
    task_join ctx session_id (task_id, spans) =
        span_group_join ctx (unit_key "task" session_id task_id)
          (object (
            ("level", text "task")
            ∷ ("session_id", text session_id)
            ∷ ("task_id", text task_id)
            ∷ []))
          spans (λ call. matches_id (some task_id) call.task_id)

  unfoldable pub session_join :
      (String → Option ℤ) → JoinCtx V F → String → String → String → SessionTree → ImpactJoin V
  session_join parse_nanos ctx session_id t_start t_end tree =
      let a = ctx.apportionment in
      let attributed_j = joules_of a (filter is_attributable tree.spans) in
      let session_j = attributed_j ⊕ a.orphaned_j ⊕ a.baseline_idle_j in
      let local =
        if ctx.energy_measured
        then local_measured (some session_j)
            (interval_coverage ctx.coverage_windows (parse_ts parse_nanos t_start)
              (parse_ts parse_nanos t_end))
            ctx.zone
            (some (
              object (
                ("attributed", float attributed_j)
                ∷ ("baseline_idle", float a.baseline_idle_j)
                ∷ ("orphaned", float a.orphaned_j)
                ∷ ("total", float session_j)
                ∷ [])))
        else local_measured none nought ctx.zone none in
      record {
        unit_key = str_append "session:" session_id;
        json = object (
            finish
              (record_base
                  (object (("level", text "session") ∷ ("session_id", text session_id) ∷ []))
                  t_start t_end (policy a) ctx.zone
                ++ (("unmeasured_remote_spans", count a.unmeasured_remote_spans)
                    ∷ (
                      "counters",
                      object (
                          ("degenerate_spans", count a.degenerate_spans)
                          ∷ ("degenerate_samples", count a.degenerate_samples)
                          ∷ ("samples_l1", count a.samples_l1)
                          ∷ ("samples_l2", count a.samples_l2)
                          ∷ ("skipped_events", count (a.skipped_events + tree.skipped_events))
                          ∷ ("unobserved_process_windows", count a.unobserved_process_windows)
                          ∷ []),
                    )
                    ∷ []))
              local (remote_estimated ctx.calls ctx.estimates ctx.remote_region_id (λ _. true))
              (not ctx.energy_measured));
      }

  -- The inputs that the session's joins share.
  unfoldable pub join_ctx :
      (String → Option ℤ)
      → List (Envelope F)
      → Apportionment F
      → List (String × V)
      → Zone F
      → Option String
      → JoinCtx V F
  join_ctx parse_nanos events a estimates zone region = record {
    apportionment = a;
    coverage_windows = energy_coverage_windows parse_nanos events;
    energy_measured = any_energy_sample_parsed parse_nanos events;
    calls = llm_calls events;
    estimates = estimates;
    zone = zone;
    remote_region_id = region;
  }

  unfoldable pub build_joins :
      (String → Option ℤ)
      → (ℤ → Option String)
      → String
      → String
      → String
      → List (Envelope F)
      → SessionTree
      → Apportionment F
      → List (String × V)
      → Zone F
      → Option String
      → List (ImpactJoin V)
  unfolding sort_by group_spans
  build_joins parse_nanos rfc3339_ms session_id t_start t_end events tree a estimates zone region =
      let ctx = join_ctx parse_nanos events a estimates zone region in
      let attributable = filter is_attributable tree.spans in
      sort_by (λ x y. str_lt x.unit_key y.unit_key)
        (session_join parse_nanos ctx session_id t_start t_end tree
            ∷ filter_map (tool_call_join rfc3339_ms ctx session_id)
                (group_spans (λ s. some s.span_id) attributable)
          ++ filter_map (task_join rfc3339_ms ctx session_id) (group_spans task_of attributable))
