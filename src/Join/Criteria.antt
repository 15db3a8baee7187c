-- ===== src/Join/Criteria.antt =====
-- join.rs: `sum_criteria`.
pub mod Single
pub mod Contributors
pub mod Keys
use agentic_footprint.Prelude.{
  ℕ, ◌+◌, String, Option, none, some, List, [], ◌∷◌, foldl, str_eq, if◌then◌else◌,
}
use agentic_footprint.Prelude.Keyed.{string_key, lookup, update, insert_sorted}
use agentic_footprint.Float.{Float, ◌⊕◌}
use agentic_footprint.Json.{Json, get_str, pointer_f64}

pub record CriterionSum (F : Type 0) : Type 0 where
  pub unit : String
  pub low : F
  pub high : F
  pub contributors : ℕ
  pub mismatches : ℕ

abbrev pub criteria : List String
criteria = "adpe" ∷ "energy" ∷ "gwp" ∷ "pe" ∷ "water" ∷ []

abbrev pub Sums : Type 0 → Type 0
Sums F = List (String × CriterionSum F)

module _ {F : Type 0} ⦃f : Float F⦄ where
  -- A criterion that is in the map already.
  unfoldable pub merge_sum : String → F → F → CriterionSum F → CriterionSum F
  merge_sum unit low high sum =
      if str_eq sum.unit unit
      then record sum {
        low = sum.low ⊕ low;
        high = sum.high ⊕ high;
        contributors = sum.contributors + 1;
      }
      else record sum { mismatches = sum.mismatches + 1 }

  -- The `match sums.get_mut(name)`.
  unfoldable pub add_addend : String → String → F → F → Sums F → Sums F
  unfolding lookup update insert_sorted merge_sum
  add_addend name unit low high sums = elim (lookup name sums) [
    | none ↦
        insert_sorted name
          (record { unit = unit; low = low; high = high; contributors = 1; mismatches = 0 }) sums
    | some _ ↦ update name (merge_sum unit low high) sums
  ]

  -- The `let (Some(unit), Some(min), Some(max)) = … else continue`.
  unfoldable pub add_parts : String → Option String → Option F → Option F → Sums F → Sums F
  add_parts name (some unit) (some low) (some high) sums = add_addend name unit low high sums
  add_parts name _ _ _ sums = sums

module _ {V F : Type 0} ⦃j : Json V F⦄ ⦃f : Float F⦄ where
  open j use {get}

  -- What an estimate's `impacts` object adds to one criterion.
  unfoldable pub add_criterion : Option V → String → Sums F → Sums F
  add_criterion none name sums = sums
  add_criterion (some criterion) name sums =
      add_parts name (get_str j criterion "unit") (pointer_f64 j criterion "total" "min")
        (pointer_f64 j criterion "total" "max") sums

  unfoldable pub add_impacts : Option V → Sums F → Sums F
  add_impacts none sums = sums
  add_impacts (some impacts) sums =
      foldl (λ acc name. add_criterion (get impacts name) name acc) sums criteria

  unfoldable pub sum_criteria : List V → Sums F
  sum_criteria estimates = foldl (λ acc e. add_impacts (get e "impacts") acc) [] estimates
