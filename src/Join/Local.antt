-- ===== src/Join/Local.antt =====
-- join.rs: the zone, the local half of a join, and the combination of the two halves.
use agentic_footprint.Prelude.{
  ℕ, String, Bool, true, false, not, ◌||◌, Option, none, some, List, [], ◌∷◌, ◌++◌, is_some, str_eq,
  ◌==◌, if◌then◌else◌,
}
use agentic_footprint.Prelude.Int.{pos}
use agentic_footprint.Prelude.Keyed.{string_key, lookup}
use agentic_footprint.Float.{Float, ◌⊕◌, ◌⊗◌, ◌⊘◌}
use agentic_footprint.Json.{Json, get_str, pointer_f64}
use agentic_footprint.Join.Coverage.{clamp}
use agentic_footprint.Join.Remote.{RemoteEstimated, criterion}

pub record ZoneFactors (F : Type 0) : Type 0 where
  pub gwp_min : F
  pub gwp_max : F

pub record Zone (F : Type 0) : Type 0 where
  pub id : String
  pub source : String
  pub factors : Option (ZoneFactors F)

abbrev pub unresolved : {F : Type 0} → String → String → Zone F
unresolved id source = record { id = id; source = source; factors = none }

pub record LocalMeasured (V F : Type 0) : Type 0 where
  pub json : V
  pub kwh : Option F
  pub gwp : Option (F × F)

-- What the sidecar's answer to `zone_factors` says.
module _ {V F : Type 0} (j : Json V F) where
  abbrev both : Option F → Option F → Option (ZoneFactors F)
  both (some low) (some high) = some (record { gwp_min = low; gwp_max = high })
  both _ _ = none

  abbrev is_ok : Option String → Bool
  is_ok none = false
  is_ok (some status) = str_eq status "ok"

  unfoldable pub zone_factors : V → Option (ZoneFactors F)
  zone_factors response =
      if is_ok (get_str j response "status")
      then both (pointer_f64 j response "gwp_kg_per_kwh" "min")
          (pointer_f64 j response "gwp_kg_per_kwh" "max")
      else none

-- `obj.insert` of a value that is there.
abbrev pub member_of : {V A : Type 0} → String → (A → V) → Option A → List (String × V)
member_of name show none = []
member_of name show (some a) = (name, show a) ∷ []

abbrev pub point : {F : Type 0} → Option F → Option (F × F)
point none = none
point (some x) = some (x, x)

abbrev pub if_measured : {V F : Type 0} → Option F → Option V → Option V
if_measured none v = none
if_measured (some joules) v = v

module _ {F : Type 0} ⦃f : Float F⦄ where
  open f use {nought, of_int}

  abbrev pub j_per_kwh : F → F
  j_per_kwh joules = joules ⊘ of_int (pos 3_600_000)

  abbrev pub in_kwh : Option F → Option F
  in_kwh none = none
  in_kwh (some joules) = some (j_per_kwh joules)

  abbrev pub scale_factors : F → ZoneFactors F → F × F
  scale_factors value factors = (value ⊗ factors.gwp_min, value ⊗ factors.gwp_max)

  abbrev pub gwp_range : Option F → Option (ZoneFactors F) → Option (F × F)
  gwp_range (some kwh) (some factors) = some (scale_factors kwh factors)
  gwp_range _ _ = none

  -- The `match remote.totals.get(name)`.
  unfoldable pub range_of : String → ℕ → Option (String × F × F) → Option (F × F)
  range_of unit calls (some (got_unit, low, high)) =
      if str_eq got_unit unit then some (low, high) else none
  range_of unit calls none = if calls == 0 then some (nought, nought) else none

  abbrev pub add_ranges : Option (F × F) → Option (F × F) → Option (F × F)
  add_ranges (some a) (some b) = some (a.0 ⊕ b.0, a.1 ⊕ b.1)
  add_ranges _ _ = none

module _ {V F : Type 0} ⦃j : Json V F⦄ ⦃f : Float F⦄ where
  open j use {object, text, float, flag}
  open f use {nought, unity}

  unfoldable pub zone_object : Zone F → V
  zone_object zone = object (
      ("id", text zone.id)
      ∷ ("source", text zone.source)
      ∷ ("factors_available", flag (is_some zone.factors))
      ∷ [])

  unfoldable pub local_measured : Option F → F → Zone F → Option V → LocalMeasured V F
  local_measured joules coverage zone breakdown =
      let kwh = in_kwh joules in
      let gwp = gwp_range kwh zone.factors in
      record {
        json = object (
            member_of "energy" (λ (x : F). criterion "kWh" x x) kwh
            ++ (member_of "gwp" (λ (r : F × F). criterion "kgCO2eq" r.0 r.1) gwp
                ++ (member_of "breakdown_j" (λ (v : V). v) (if_measured joules breakdown)
                    ++ (("baseline_share_excluded", flag true)
                        ∷ ("coverage", float (clamp nought unity coverage))
                        ∷ []))));
        kwh = kwh;
        gwp = gwp;
      }

  unfoldable pub remote_range : RemoteEstimated V F → String → String → Option (F × F)
  remote_range remote name unit = range_of unit remote.calls (lookup name remote.totals)

  -- The two combined ranges, each only where both halves are there.
  unfoldable pub combined_ranges :
      LocalMeasured V F → RemoteEstimated V F → Bool → Option (F × F) × Option (F × F)
  combined_ranges local remote no_local_energy =
      if no_local_energy || not remote.complete then (none, none) else (
        add_ranges (point local.kwh) (remote_range remote "energy" "kWh"),
        add_ranges local.gwp (remote_range remote "gwp" "kgCO2eq"),
      )

  unfoldable pub combined_total : LocalMeasured V F → RemoteEstimated V F → Bool → V
  combined_total local remote no_local_energy =
      let (energy, gwp) = combined_ranges local remote no_local_energy in
      object (
        member_of "energy" (λ (r : F × F). criterion "kWh" r.0 r.1) energy
        ++ member_of "gwp" (λ (r : F × F). criterion "kgCO2eq" r.0 r.1) gwp)
