-- ===== src/Join/Coverage.antt =====
-- join.rs: the union of the energy-sample windows, and how much of an interval it covers.
pub mod Union
use agentic_footprint.Prelude.{
  String, Bool, true, false, ◌&&◌, ◌||◌, Option, none, some, List, [], ◌∷◌, any, filter_map,
  sort_by, is_some, if◌then◌else◌,
}
use agentic_footprint.Prelude.Int.{ℤ, pos, ◌+ℤ◌, ◌-ℤ◌, ltb_ℤ, leb_ℤ, eqb_ℤ, min_ℤ, max_ℤ}
use agentic_footprint.Float.{Float, ◌⊘◌}
use agentic_footprint.Events.{Envelope, Payload, energy_sample}
use agentic_footprint.Correlate.{parse_ts}

-- `(i64, i64)`, a half-open interval.
abbrev pub Interval : Type 0
Interval = ℤ × ℤ

-- The order of pairs.
abbrev pub before : Interval → Interval → Bool
before a b = ltb_ℤ a.0 b.0 || eqb_ℤ a.0 b.0 && ltb_ℤ a.1 b.1

-- The loop over `merged`, whose last interval is `last`.
unfoldable pub extend : Interval → List Interval → List Interval
extend last [] = last ∷ []
extend last (w ∷ ws) = elim (leb_ℤ w.0 last.1) [
  | true ↦ extend (last.0, max_ℤ last.1 w.1) ws
  | false ↦ last ∷ extend w ws
]

unfoldable pub merge : List Interval → List Interval
unfolding extend
merge [] = []
merge (w ∷ ws) = extend w ws

unfoldable pub merge_sorted : List Interval → List Interval
unfolding merge sort_by
merge_sorted windows = merge (sort_by before windows)

unfoldable pub shared : ℤ → ℤ → Interval → ℤ
unfolding ◌-ℤ◌
shared t0 t1 w = max_ℤ (min_ℤ t1 w.1 -ℤ max_ℤ t0 w.0) (pos 0)

unfoldable pub covered : List Interval → ℤ → ℤ → ℤ
unfolding shared ◌+ℤ◌
covered [] t0 t1 = pos 0
covered (w ∷ ws) t0 t1 = shared t0 t1 w +ℤ covered ws t0 t1

module _ {F : Type 0} ⦃f : Float F⦄ where
  open f use {nought, unity, gt, of_int}

  -- `f64::clamp`.
  abbrev pub clamp : F → F → F → F
  clamp lo hi x = if gt lo x then lo else if gt x hi then hi else x

  unfoldable pub coverage_fraction : List Interval → ℤ → ℤ → F
  unfolding covered ◌-ℤ◌
  coverage_fraction windows t0 t1 =
      if leb_ℤ t1 t0
      then nought
      else clamp nought unity (of_int (covered windows t0 t1) ⊘ of_int (t1 -ℤ t0))

module _ (parse_nanos : String → Option ℤ) where
  abbrev pub both_parse : String → String → Bool
  both_parse t_start t_end =
      is_some (parse_ts parse_nanos t_start) && is_some (parse_ts parse_nanos t_end)

  unfoldable pub is_parsed_energy : {F : Type 0} → Payload F → Bool
  is_parsed_energy (energy_sample sample) = both_parse sample.t_start sample.t_end
  is_parsed_energy _ = false

  unfoldable pub any_energy_sample_parsed : {F : Type 0} → List (Envelope F) → Bool
  any_energy_sample_parsed = any (λ (e : Envelope _). is_parsed_energy e.payload)

  -- `(t1 > t0).then_some((t0, t1))`, after both are parsed.
  abbrev pub positive : Option ℤ → Option ℤ → Option Interval
  positive (some t0) (some t1) = if ltb_ℤ t0 t1 then some (t0, t1) else none
  positive _ _ = none

  unfoldable pub energy_window : {F : Type 0} → Payload F → Option Interval
  energy_window (energy_sample sample) =
      positive (parse_ts parse_nanos sample.t_start) (parse_ts parse_nanos sample.t_end)
  energy_window _ = none

  unfoldable pub energy_coverage_windows : {F : Type 0} → List (Envelope F) → List Interval
  unfolding merge_sorted
  energy_coverage_windows events =
      merge_sorted (filter_map (λ (e : Envelope _). energy_window e.payload) events)
