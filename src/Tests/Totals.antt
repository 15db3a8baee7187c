-- ===== src/Tests/Totals.antt =====
-- The totals of crates/af-core/src/join.rs at concrete estimates.
use agentic_footprint.Prelude.{
  String, ◌≡◌, refl, true, false, some, none, List, [], ◌∷◌, all, filter_map, is_some,
}
use agentic_footprint.Prelude.Int.{ℤ, pos, ◌+ℤ◌}
use agentic_footprint.Prelude.Keyed.{string_key, lookup, insert_sorted, update}
use agentic_footprint.Float.Fixed.{fixed}
use agentic_footprint.Json.Tree.{Tree, Members, tree_json}
use agentic_footprint.Join.Criteria.{
  sum_criteria, merge_sum, add_addend, add_parts, add_criterion, add_impacts,
}
use agentic_footprint.Join.Criteria.Single.{sum_from, lookup-sum_criteria}
use agentic_footprint.Join.Remote.{LlmCallRef, remote_estimated, tally_call, tally_calls}
use agentic_footprint.Join.Local.{combined_ranges, remote_range, range_of}
use agentic_footprint.Join.Remote.Gathered.{usable_estimate}
use agentic_footprint.Join.Combined.{IsTotal, combined_ranges-remote_estimated}
use agentic_footprint.Samples.{local}

abbrev total : ℤ → ℤ → Tree
total low high = Tree.object (
    Members.member "unit" (Tree.text "kWh") (
      Members.member "total"
        (Tree.object (
          Members.member "min" (Tree.float low)
            (Members.member "max" (Tree.float high) Members.end)))
        Members.end))

abbrev estimate : ℤ → ℤ → Tree
estimate low high = Tree.object (
    Members.member "status" (Tree.text "ok") (
      Members.member "impacts" (Tree.object (Members.member "energy" (total low high) Members.end))
        Members.end))

abbrev first : Tree
first = estimate (pos 1) (pos 3)

abbrev second : Tree
second = estimate (pos 10) (pos 20)

abbrev call : String → LlmCallRef
call id = record { event_id = id; task_id = none; tool_call_id = none }

abbrev calls : List LlmCallRef
calls = call "e1" ∷ call "e2" ∷ []

abbrev estimates : List (String × Tree)
estimates = ("e1", first) ∷ ("e2", second) ∷ []

lookup-sum_criteria_example :
    lookup "energy" (sum_criteria ⦃j = tree_json⦄ ⦃f = fixed⦄ (first ∷ second ∷ []))
    ≡ sum_from "energy" (first ∷ second ∷ []) none
lookup-sum_criteria_example = lookup-sum_criteria "energy" (first ∷ second ∷ []) refl

combined_ranges-remote_estimated_example :
    let used = filter_map (usable_estimate tree_json estimates) calls in
    (false ≡ false)
    × (all (λ c. is_some (usable_estimate tree_json estimates c)) calls ≡ true)
    × (kwh : ℤ) × (local.kwh ≡ some kwh)
    × (range : ℤ × ℤ) × IsTotal tree_json fixed "energy" "kWh" calls used range
    × (◌≡◌ {A = ℤ × ℤ} (pos 13, pos 25) (fixed.add kwh range.0, fixed.add kwh range.1))
unfolding combined_ranges remote_range range_of remote_estimated tally_calls tally_call lookup
    sum_criteria add_impacts add_criterion add_parts add_addend insert_sorted update merge_sum
    tree_json fixed ◌+ℤ◌
combined_ranges-remote_estimated_example =
    combined_ranges-remote_estimated tree_json fixed local calls estimates none (λ c. true) false
      (pos 13, pos 25) refl
