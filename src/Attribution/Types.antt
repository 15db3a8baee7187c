-- ===== src/Attribution/Types.antt =====
-- attribution.rs: the policies, the result of the join and its traces.
use Prim.Native.Char.{code}
use agentic_footprint.Prelude.{
  ℕ, String, Bool, true, false, Option, none, some, List, [], foldl, ltb, ◌==◌, if◌then◌else◌,
  unwrap_or,
}
use agentic_footprint.Prelude.Int.{ℤ}
use agentic_footprint.Prelude.Keyed.{string_key, lookup, alter}
use agentic_footprint.Float.{Float, ◌⊕◌}
use agentic_footprint.Events.{
  ExecutionLocus, EnergyKind, EnergyComponent, EnergySample, ProcessDelta,
}

abbrev pub policy_l2_cpu_time : String
policy_l2_cpu_time = "l2_cpu_time/v1"

abbrev pub policy_l1_wall_clock : String
policy_l1_wall_clock = "l1_wall_clock/v1"

abbrev pub policy_none : String
policy_none = "none"

pub data Policy : Type 0 where
  l2_cpu_time l1_wall_clock : Policy

abbrev pub id : Policy → String
id l2_cpu_time = policy_l2_cpu_time
id l1_wall_clock = policy_l1_wall_clock

-- `split('/').next()`: all before the first slash, the whole text if there is none.
abbrev pub before_slash : String → String
before_slash String.[] = String.[]
before_slash (String.◌∷◌ c s) = if code c == b'/' then String.[] else String.◌∷◌ c (before_slash s)

abbrev pub schema_name : Policy → String
schema_name p = before_slash (id p)

abbrev pub policy_id : Option Policy → String
policy_id (some p) = id p
policy_id none = policy_none

-- Joules by span id.
abbrev pub SpanMap : Type 0 → Type 0
SpanMap F = List (String × F)

pub record Apportionment (F : Type 0) : Type 0 where
  pub per_span_j : SpanMap F
  pub baseline_idle_j : F
  pub orphaned_j : F
  pub unmeasured_remote_spans : ℕ
  pub degenerate_spans : ℕ
  pub samples_l1 : ℕ
  pub samples_l2 : ℕ
  pub degenerate_samples : ℕ
  pub skipped_events : ℕ
  pub unobserved_process_windows : ℕ

pub record AllocRow (F : Type 0) : Type 0 where
  pub span_id : String
  pub tool_name : String
  pub locus : ExecutionLocus
  pub overlap_ms : F
  pub cpu_delta_ms : F
  pub allocated_j : F
  pub l1_allocated_j : F
  pub excluded : Bool
  pub excluded_reason : Option String

pub record SampleTrace (F : Type 0) : Type 0 where
  pub sample_index : ℕ
  pub t_start : String
  pub t_end : String
  pub total_j : F
  pub denominator_cpu_ms : F
  pub policy : Option Policy
  pub rows : List (AllocRow F)
  pub orphaned_j : F
  pub baseline_j : F
  pub l1_shadow_sum_share : F
  pub root_cpu_delta_ms : F

-- A `process_sample` with parsed, positive-length bounds.
pub record ProcWindow : Type 0 where
  pub t_start : ℤ
  pub t_end : ℤ
  pub processes : List ProcessDelta

pub record Weights (F : Type 0) : Type 0 where
  pub per_span : SpanMap F
  pub orphan : F
  pub root : F

-- Which policy at least one sample went by, if any did.
unfoldable pub applied_policy : {F : Type 0} → Apportionment F → Option Policy
applied_policy a =
    if ltb 0 a.samples_l2
    then some l2_cpu_time
    else if ltb 0 a.samples_l1
    then some l1_wall_clock
    else none

unfoldable pub policy : {F : Type 0} → Apportionment F → Policy
unfolding applied_policy
policy a = unwrap_or (applied_policy a) l1_wall_clock

abbrev is_total : EnergyKind → Bool
is_total EnergyKind.total = true
is_total _ = false

module _ {F : Type 0} ⦃f : Float F⦄ where
  open f use {nought}

  unfoldable pub default_apportionment : Apportionment F
  default_apportionment = record {
    per_span_j = [];
    baseline_idle_j = nought;
    orphaned_j = nought;
    unmeasured_remote_spans = 0;
    degenerate_spans = 0;
    samples_l1 = 0;
    samples_l2 = 0;
    degenerate_samples = 0;
    skipped_events = 0;
    unobserved_process_windows = 0;
  }

  -- `Iterator::sum`.
  unfoldable pub sum : List F → F
  sum = foldl ◌⊕◌ nought

  -- `values().sum()`.
  unfoldable pub sum_values : SpanMap F → F
  sum_values m = foldl (λ acc (e : String × F). acc ⊕ e.1) nought m

  -- `*map.entry(id).or_default() += v`.
  unfoldable pub bump : String → F → SpanMap F → SpanMap F
  unfolding alter
  bump x v m = alter x nought (λ w. w ⊕ v) m

  unfoldable pub total_j : Apportionment F → F
  unfolding sum_values
  total_j a = sum_values a.per_span_j ⊕ a.orphaned_j ⊕ a.baseline_idle_j

  unfoldable pub span_j : Apportionment F → String → F
  unfolding lookup
  span_j a span_id = unwrap_or (lookup span_id a.per_span_j) nought

  unfoldable pub total_weight : Weights F → F
  unfolding sum_values
  total_weight w = sum_values w.per_span ⊕ w.orphan

  -- The three variables of the loop of `sample_energy_j`: total, saw_total, sum_all.
  add_component : F × Bool × F → EnergyComponent F → F × Bool × F
  add_component (t, saw, all) c =
      if is_total c.kind
      then (t ⊕ c.energy_j, true, all ⊕ c.energy_j)
      else (t, saw, all ⊕ c.energy_j)

  unfoldable pub sample_energy_j : EnergySample F → F
  unfolding add_component
  sample_energy_j s =
      let (t, saw, all) = foldl add_component (nought, false, nought) s.components in
      if saw then t else all
