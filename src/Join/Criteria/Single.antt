-- ===== src/Join/Criteria/Single.antt =====
-- join.rs: the sum of one criterion, beside `sum_criteria`, which sums all of them at once.
use agentic_footprint.Prelude.{
  String, ◌≡◌, refl, ap, ◌∙◌, Bool, true, false, ◌&&◌, not, Option, none, some, List, [], ◌∷◌,
  foldl, str_eq, eq_iff, and_then, if◌then◌else◌, Bool-cases, both, inl, inr, arith,
}
use agentic_footprint.Prelude.Keyed.{string_key, lookup, update, insert_sorted, contains}
use agentic_footprint.Prelude.Keyed.Laws.{lookup-insert_sorted}
use agentic_footprint.Prelude.Keyed.Lookups.{
  lookup-update-other, lookup-insert_sorted-other, lookup-update-same,
}
use agentic_footprint.Float.{Float}
use agentic_footprint.Json.{Json, get_str, pointer_f64}
use agentic_footprint.Join.Criteria.{
  CriterionSum, Sums, criteria, merge_sum, add_addend, add_parts, add_criterion, add_impacts,
  sum_criteria,
}

abbrev triple : {F : Type 0} → Option String → Option F → Option F → Option (String × (F × F))
triple (some unit) (some low) (some high) = some (unit, (low, high))
triple _ _ _ = none

abbrev distinct : List String → Bool
distinct [] = true
distinct (n ∷ ns) = not (contains ns n) && distinct ns

either_way {ℓ} : {A : Type ℓ} (b : Bool) (a : A) → a ≡ (if b then a else a)
either_way true a = refl
either_way false a = refl

negated : (b : Bool) → not b ≡ true → b ≡ false
negated b h = ground arith

module _ {F : Type 0} ⦃f : Float F⦄ where
  abbrev pub first_sum : String → F → F → CriterionSum F
  first_sum unit low high = record {
    unit = unit;
    low = low;
    high = high;
    contributors = 1;
    mismatches = 0;
  }

  -- One more addend of a criterion, if there is one.
  abbrev pub next : Option (String × (F × F)) → Option (CriterionSum F) → Option (CriterionSum F)
  next none o = o
  next (some (unit, (low, high))) none = some (first_sum unit low high)
  next (some (unit, (low, high))) (some sum) = some (merge_sum unit low high sum)

  lookup-add_addend :
      (name y unit : String) (low high : F) (sums : Sums F)
      → lookup y (add_addend name unit low high sums)
        ≡ (if str_eq name y then next (some (unit, (low, high))) (lookup y sums) else lookup y sums)
  unfolding add_addend
  lookup-add_addend name y unit low high sums = go (lookup name sums) refl
    where
      go :
          (o : Option (CriterionSum F))
          → lookup name sums ≡ o
          → lookup y (elim o [
            | none ↦ insert_sorted name (first_sum unit low high) sums
            | some _ ↦ update name (merge_sum unit low high) sums
          ])
            ≡ (if str_eq name y
                then next (some (unit, (low, high))) (lookup y sums)
                else lookup y sums)
      go none e = elim (Bool-cases (str_eq name y)) [
        | inl d ↦
            (let same : name ≡ y = (eq_iff name y).0 d in
              rw (d, ← same, e)
                (lookup-insert_sorted name (first_sum unit low high) sums (rw e refl)))
        | inr d ↦ rw d (lookup-insert_sorted-other name y (first_sum unit low high) sums d)
      ]
      go (some s) e = elim (Bool-cases (str_eq name y)) [
        | inl d ↦
            (let same : name ≡ y = (eq_iff name y).0 d in
              rw (d, ← same, e)
                (lookup-update-same name s (merge_sum unit low high) sums (rw e refl) ∙ rw e refl))
        | inr d ↦ rw d (lookup-update-other name y (merge_sum unit low high) sums d)
      ]

  lookup-add_parts :
      (name y : String) (unit : Option String) (low high : Option F) (sums : Sums F)
      → lookup y (add_parts name unit low high sums)
        ≡ (if str_eq name y then next (triple unit low high) (lookup y sums) else lookup y sums)
  unfolding add_parts
  lookup-add_parts name y (some unit) (some low) (some high) sums =
      lookup-add_addend name y unit low high sums
  lookup-add_parts name y none low high sums = either_way (str_eq name y) _
  lookup-add_parts name y (some unit) none high sums = either_way (str_eq name y) _
  lookup-add_parts name y (some unit) (some low) none sums = either_way (str_eq name y) _

module _ {V F : Type 0} ⦃j : Json V F⦄ ⦃f : Float F⦄ where
  -- What a criterion's object states: its unit and its two bounds.
  abbrev pub addend : Option V → Option (String × (F × F))
  addend none = none
  addend (some c) =
      triple (get_str j c "unit") (pointer_f64 j c "total" "min") (pointer_f64 j c "total" "max")

  -- What an estimate states of a criterion.
  abbrev pub stated : String → V → Option (String × (F × F))
  stated name e = addend (and_then (j.get e "impacts") (λ impacts. j.get impacts name))

  -- The sum of one criterion over some estimates, in their order.
  abbrev pub sum_from : String → List V → Option (CriterionSum F) → Option (CriterionSum F)
  sum_from name [] o = o
  sum_from name (e ∷ es) o = sum_from name es (next (stated name e) o)

  lookup-add_criterion :
      (o : Option V) (name y : String) (sums : Sums F)
      → lookup y (add_criterion o name sums)
        ≡ (if str_eq name y then next (addend o) (lookup y sums) else lookup y sums)
  unfolding add_criterion
  lookup-add_criterion none name y sums = either_way (str_eq name y) _
  lookup-add_criterion (some c) name y sums = lookup-add_parts name y _ _ _ sums

  lookup-add_all :
      (impacts : V) (ns : List String) (y : String) (sums : Sums F)
      → distinct ns ≡ true
      → lookup y (foldl (λ acc name. add_criterion (j.get impacts name) name acc) sums ns)
        ≡ (if contains ns y then next (addend (j.get impacts y)) (lookup y sums) else lookup y sums)
  lookup-add_all impacts [] y sums h = refl
  lookup-add_all impacts (n ∷ ns) y sums h =
      let (absent, rest) = both (not (contains ns n)) (distinct ns) h in
      let ih = lookup-add_all impacts ns y (add_criterion (j.get impacts n) n sums) rest in
      let step = lookup-add_criterion (j.get impacts n) n y sums in
      elim (Bool-cases (str_eq n y)) [
        | inl d ↦
            (let same : n ≡ y = (eq_iff n y).0 d in
              let no_more : contains ns y ≡ false = rw (← same) (negated (contains ns n) absent) in
              rw d (ih ∙ rw no_more (step ∙ rw d (rw same refl))))
        | inr d ↦ rw d (ih ∙ rw step (rw d refl))
      ]

  lookup-add_impacts :
      (e : V) (y : String) (sums : Sums F)
      → contains criteria y ≡ true
      → lookup y (add_impacts (j.get e "impacts") sums) ≡ next (stated y e) (lookup y sums)
  unfolding add_impacts
  lookup-add_impacts e y sums h = go (j.get e "impacts")
    where
      go :
          (o : Option V)
          → lookup y (add_impacts o sums)
            ≡ next (addend (and_then o (λ impacts. j.get impacts y))) (lookup y sums)
      go none = refl
      go (some impacts) = lookup-add_all impacts criteria y sums refl ∙ rw h refl

  lookup-add_estimates :
      (y : String) (es : List V) (sums : Sums F)
      → contains criteria y ≡ true
      → lookup y (foldl (λ acc e. add_impacts (j.get e "impacts") acc) sums es)
        ≡ sum_from y es (lookup y sums)
  lookup-add_estimates y [] sums h = refl
  lookup-add_estimates y (e ∷ es) sums h =
      lookup-add_estimates y es (add_impacts (j.get e "impacts") sums) h
      ∙ ap (sum_from y es) (lookup-add_impacts e y sums h)

  -- The sum of one of the five criteria over some estimates is that of its own addends, in their order,
  -- whatever the estimates state of the other criteria.
  pub lookup-sum_criteria :
      (y : String) (es : List V)
      → contains criteria y ≡ true
      → lookup y (sum_criteria es) ≡ sum_from y es none
  unfolding sum_criteria lookup
  lookup-sum_criteria y es h = lookup-add_estimates y es [] h
