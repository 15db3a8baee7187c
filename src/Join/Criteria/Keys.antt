-- ===== src/Join/Criteria/Keys.antt =====
-- join.rs: the keys of the sums that `sum_criteria` returns.
use agentic_footprint.Prelude.{
  String, ◌≡◌, refl, sym, ◌∙◌, Option, none, some, List, [], ◌∷◌, foldl,
}
use agentic_footprint.Prelude.Keyed.{string_key, lookup, update, insert_sorted}
use agentic_footprint.Prelude.Keyed.Laws.{is_some-lookup}
use agentic_footprint.Prelude.Keyed.Filtered.{
  DistinctKeys, DistinctKeys-update, DistinctKeys-insert_sorted,
}
use agentic_footprint.Float.{Float}
use agentic_footprint.Json.{Json}
use agentic_footprint.Join.Criteria.{
  CriterionSum, Sums, criteria, merge_sum, add_addend, add_parts, add_criterion, add_impacts,
  sum_criteria,
}
use agentic_footprint.Join.Criteria.Single.{first_sum}

module _ {F : Type 0} ⦃f : Float F⦄ where
  DistinctKeys-add_addend :
      (name unit : String) (low high : F) (sums : Sums F)
      → DistinctKeys sums
      → DistinctKeys (add_addend name unit low high sums)
  unfolding add_addend
  DistinctKeys-add_addend name unit low high sums d = go (lookup name sums) refl
    where
      go :
          (o : Option (CriterionSum F))
          → lookup name sums ≡ o
          → DistinctKeys (elim o [
            | none ↦ insert_sorted name (first_sum unit low high) sums
            | some _ ↦ update name (merge_sum unit low high) sums
          ])
      go none e =
          DistinctKeys-insert_sorted name (first_sum unit low high) sums
            (sym (is_some-lookup name sums) ∙ rw e refl) d
      go (some s) e = DistinctKeys-update name (merge_sum unit low high) sums d

  DistinctKeys-add_parts :
      (name : String) (unit : Option String) (low high : Option F) (sums : Sums F)
      → DistinctKeys sums
      → DistinctKeys (add_parts name unit low high sums)
  unfolding add_parts
  DistinctKeys-add_parts name (some unit) (some low) (some high) sums d =
      DistinctKeys-add_addend name unit low high sums d
  DistinctKeys-add_parts name none low high sums d = d
  DistinctKeys-add_parts name (some unit) none high sums d = d
  DistinctKeys-add_parts name (some unit) (some low) none sums d = d

module _ {V F : Type 0} ⦃j : Json V F⦄ ⦃f : Float F⦄ where
  DistinctKeys-add_criterion :
      (o : Option V) (name : String) (sums : Sums F)
      → DistinctKeys sums
      → DistinctKeys (add_criterion o name sums)
  unfolding add_criterion
  DistinctKeys-add_criterion none name sums d = d
  DistinctKeys-add_criterion (some c) name sums d = DistinctKeys-add_parts name _ _ _ sums d

  DistinctKeys-add_all :
      (impacts : V) (ns : List String) (sums : Sums F)
      → DistinctKeys sums
      → DistinctKeys (foldl (λ acc name. add_criterion (j.get impacts name) name acc) sums ns)
  DistinctKeys-add_all impacts [] sums d = d
  DistinctKeys-add_all impacts (n ∷ ns) sums d =
      DistinctKeys-add_all impacts ns (add_criterion (j.get impacts n) n sums)
        (DistinctKeys-add_criterion (j.get impacts n) n sums d)

  DistinctKeys-add_impacts :
      (o : Option V) (sums : Sums F) → DistinctKeys sums → DistinctKeys (add_impacts o sums)
  unfolding add_impacts
  DistinctKeys-add_impacts none sums d = d
  DistinctKeys-add_impacts (some impacts) sums d = DistinctKeys-add_all impacts criteria sums d

  DistinctKeys-add_estimates :
      (es : List V) (sums : Sums F)
      → DistinctKeys sums
      → DistinctKeys (foldl (λ acc e. add_impacts (j.get e "impacts") acc) sums es)
  DistinctKeys-add_estimates [] sums d = d
  DistinctKeys-add_estimates (e ∷ es) sums d =
      DistinctKeys-add_estimates es (add_impacts (j.get e "impacts") sums)
        (DistinctKeys-add_impacts (j.get e "impacts") sums d)

pub DistinctKeys-sum_criteria :
    {V F : Type 0} (j : Json V F) (f : Float F) (es : List V)
    → DistinctKeys (sum_criteria ⦃j = j⦄ ⦃f = f⦄ es)
unfolding sum_criteria
DistinctKeys-sum_criteria j f es = DistinctKeys-add_estimates ⦃j = j⦄ ⦃f = f⦄ es [] tt
