-- ===== src/Join/Combined.antt =====
-- join.rs: `combined_total` over the remote half that `remote_estimated` makes.
use agentic_footprint.Prelude.{
  ℕ, String, ◌≡◌, ◌⊎◌, refl, sym, ap, ◌∙◌, inl, inr, Bool, true, false, ◌||◌, not, Option, none,
  some, List, [], ◌∷◌, filter, filter_map, all, length, is_some, if◌then◌else◌, str_eq, eq_iff,
  ◌==◌, ==_iff, Bool-cases, arith,
}
use agentic_footprint.Prelude.Keyed.{string_key, lookup, contains}
use agentic_footprint.Prelude.Keyed.Filtered.{lookup-filter, lookup-map, DistinctKeys-filter}
use agentic_footprint.Float.{Float}
use agentic_footprint.Json.{Json}
use agentic_footprint.Join.Criteria.{CriterionSum, criteria, sum_criteria}
use agentic_footprint.Join.Criteria.Single.{stated, sum_from, lookup-sum_criteria}
use agentic_footprint.Join.Criteria.Contributors.{in_unit, contributors-sum_from, length-filter-all}
use agentic_footprint.Join.Criteria.Keys.{DistinctKeys-sum_criteria}
use agentic_footprint.Join.Remote.{LlmCallRef, tally_calls, no_tally, combinable, remote_estimated}
use agentic_footprint.Join.Remote.Gathered.{usable_estimate, tally_calls-Gathered}
use agentic_footprint.Join.Local.{
  LocalMeasured, add_ranges, point, range_of, remote_range, combined_ranges,
}

module _ {F : Type 0} ⦃f : Float F⦄ where
  open f use {nought}

  range_of-cases :
      (unit : String) (calls : ℕ) (o : Option (String × F × F)) (r : F × F)
      → range_of unit calls o ≡ some r
      → ((calls ≡ 0) × (r ≡ (nought, nought))) ⊎ (o ≡ some (unit, r.0, r.1))
  unfolding range_of
  range_of-cases unit calls none r h = elim (Bool-cases (calls == 0)) [
    | inl p ↦
        (let found : some (nought, nought) ≡ some r = rw p at h in inl ((==_iff calls 0).0 p, cc))
    | inr p ↦ (let found : none ≡ some r = rw p at h in absurd (cc))
  ]
  range_of-cases unit calls (some (other, low, high)) r h = elim (Bool-cases (str_eq other unit)) [
    | inl p ↦
        (let found : some (low, high) ≡ some r = rw p at h in
          let range : (low, high) ≡ r = cc in inr (rw ((eq_iff other unit).0 p, ← range) refl))
    | inr p ↦ (let found : none ≡ some r = rw p at h in absurd (cc))
  ]

module _ {V F : Type 0} (j : Json V F) (f : Float F) where
  -- A criterion's total over the estimates of some calls: nothing if there are no calls, and otherwise
  -- the sum of the criterion over estimates that all state it in the unit.
  abbrev pub IsTotal : String → String → List LlmCallRef → List V → F × F → Type 0
  IsTotal name unit mine used range =
      ((mine ≡ []) × (range ≡ (f.nought, f.nought)))
      ⊎ ((s : CriterionSum F) × (sum_from ⦃j = j⦄ ⦃f = f⦄ name used none ≡ some s)
          × (all (λ e. in_unit unit (stated ⦃j = j⦄ ⦃f = f⦄ name e)) used ≡ true)
          × (range ≡ (s.low, s.high)))

  combinable-IsTotal :
      (name unit : String) (mine : List LlmCallRef) (used : List V) (low high : F)
      → contains criteria name ≡ true
      → lookup name (combinable (length used) (sum_criteria ⦃j = j⦄ ⦃f = f⦄ used))
        ≡ some (unit, low, high)
      → IsTotal name unit mine used (low, high)
  combinable-IsTotal name unit mine used low high h e =
      let sums = sum_criteria ⦃j = j⦄ ⦃f = f⦄ used in
      let keys = DistinctKeys-sum_criteria j f used in
      let agreed = λ (e : String × CriterionSum F). e.1.mismatches == 0 in
      let whole = λ (e : String × CriterionSum F). e.1.contributors == length used in
      let (s, found, values) =
        lookup-map (λ (s : CriterionSum F). (s.unit, s.low, s.high)) name (unit, low, high)
          (filter whole (filter agreed sums)) e in
      let (there, every) =
        lookup-filter whole name s (filter agreed sums) (DistinctKeys-filter agreed sums keys)
          found in
      let (at, _) = lookup-filter agreed name s sums keys there in
      let sum = sym (lookup-sum_criteria ⦃j = j⦄ ⦃f = f⦄ name used h) ∙ at in
      let counted = contributors-sum_from ⦃j = j⦄ ⦃f = f⦄ name used s sum in
      let unit_is = ap (λ (v : String × F × F). v.0) values in
      let all_in =
        length-filter-all (λ e. in_unit s.unit (stated ⦃j = j⦄ ⦃f = f⦄ name e)) used
          (sym counted ∙ (==_iff s.contributors (length used)).0 every) in
      inr (
        s,
        sum,
        ap (λ u. all (λ e. in_unit u (stated ⦃j = j⦄ ⦃f = f⦄ name e)) used) (sym unit_is) ∙ all_in,
        ap (λ (v : String × F × F). (v.1, v.2)) (sym values),
      )

  add_ranges-some :
      (kwh : Option F) (o : Option (F × F)) (r : F × F)
      → add_ranges ⦃f = f⦄ (point kwh) o ≡ some r
      → (x : F) × (kwh ≡ some x)
        × (range : F × F) × (o ≡ some range)
        × (r ≡ (f.add x range.0, f.add x range.1))
  add_ranges-some none o r h = absurd (cc)
  add_ranges-some (some x) none r h = absurd (cc)
  add_ranges-some (some x) (some range) r h = (x, refl, range, refl, cc)

  abbrev gated : Bool → Bool → Option (F × F) → Option (F × F) → Option (F × F) × Option (F × F)
  gated n c a b = if n || not c then (none, none) else (a, b)

  gate :
      (n c : Bool) (a b : Option (F × F)) (r : F × F)
      → (gated n c a b).0 ≡ some r
      → (n ≡ false) × (c ≡ true) × (a ≡ some r)
  gate true c a b r h = absurd (cc)
  gate false true a b r h = (refl, refl, h)
  gate false false a b r h = absurd (cc)

  no_calls : (mine : List LlmCallRef) → length mine ≡ 0 → mine ≡ []
  no_calls [] h = refl
  no_calls (c ∷ cs) h = absurd (omega (arith, h))

  -- A combined energy range is published only when the unit has local energy and each of its calls has
  -- an estimate that can be summed; it is the local energy added to nothing if there are no calls, and
  -- otherwise to the sum of the energy over the estimates, all of which state it in kWh.
  pub combined_ranges-remote_estimated :
      (local : LocalMeasured V F) (calls : List LlmCallRef) (estimates : List (String × V))
      (region : Option String) (matcher : LlmCallRef → Bool) (no_local_energy : Bool) (r : F × F)
      → (combined_ranges ⦃j = j⦄ ⦃f = f⦄ local
          (remote_estimated ⦃j = j⦄ ⦃f = f⦄ calls estimates region matcher)
          no_local_energy).0
        ≡ some r
      → let mine = filter matcher calls in
        let used = filter_map (usable_estimate j estimates) mine in
        (no_local_energy ≡ false)
        × (all (λ c. is_some (usable_estimate j estimates c)) mine ≡ true)
        × (kwh : F) × (local.kwh ≡ some kwh)
        × (range : F × F) × IsTotal "energy" "kWh" mine used range
        × (r ≡ (f.add kwh range.0, f.add kwh range.1))
  unfolding combined_ranges remote_range remote_estimated
  combined_ranges-remote_estimated local calls estimates region matcher no_local_energy r h =
      let mine = filter matcher calls in
      let t = tally_calls j region estimates mine (no_tally j) in
      let (summed, complete, counted) = tally_calls-Gathered j region estimates mine (no_tally j) in
      let (local_here, all_here, sum) = gate no_local_energy t.complete _ _ r h in
      let (kwh, kwh_is, range, range_is, total) = add_ranges-some local.kwh _ r sum in
      (
        local_here,
        sym complete ∙ all_here,
        kwh,
        kwh_is,
        range,
        elim (range_of-cases ⦃f = f⦄ "kWh" t.count _ range range_is) [
          | inl p ↦ inl (no_calls mine (omega (arith, p.0, counted)), p.1)
          | inr p ↦
              combinable-IsTotal "energy" "kWh" mine (filter_map (usable_estimate j estimates) mine)
                range.0 range.1 refl
                (ap
                    (λ used.
                      lookup "energy"
                        (combinable (length used) (sum_criteria ⦃j = j⦄ ⦃f = f⦄ used)))
                    (sym summed)
                  ∙ p)
        ],
        total,
      )
