-- ===== src/Join/Criteria/Contributors.antt =====
-- join.rs: the estimates that contribute to the sum of a criterion, and its entries' keys.
use agentic_footprint.Prelude.{
  ℕ, suc, ◌+◌, ◌≤◌, String, ◌≡◌, refl, sym, ap, ◌∙◌, Bool, true, false, Option, none, some, List,
  [], ◌∷◌, filter, length, all, str_eq, eq_refl, if◌then◌else◌, Bool-cases, inl, inr, arith,
}
use agentic_footprint.Prelude.Keyed.{string_key}
use agentic_footprint.Float.{Float}
use agentic_footprint.Json.{Json}
use agentic_footprint.Join.Criteria.{CriterionSum, merge_sum}
use agentic_footprint.Join.Criteria.Single.{next, stated, sum_from, first_sum}

abbrev pub in_unit : {F : Type 0} → String → Option (String × (F × F)) → Bool
in_unit unit none = false
in_unit unit (some (other, _)) = str_eq unit other

length-filter-≤ {ℓ} : {A : Type ℓ} (p : A → Bool) (xs : List A) → length (filter p xs) ≤ length xs
length-filter-≤ p [] = omega arith
length-filter-≤ p (x ∷ xs) = elim (Bool-cases (p x)) [
  | inl e ↦ rw e (omega (arith, length-filter-≤ p xs))
  | inr e ↦ rw e (omega (arith, length-filter-≤ p xs))
]

pub length-filter-all {ℓ} :
    {A : Type ℓ} (p : A → Bool) (xs : List A) → length (filter p xs) ≡ length xs → all p xs ≡ true
length-filter-all p [] h = refl
length-filter-all p (x ∷ xs) h = elim (Bool-cases (p x)) [
  | inl e ↦
      (let all_but : suc (length (filter p xs)) ≡ suc (length xs) = rw e at h in
        rw e (length-filter-all p xs (omega (arith, all_but))))
  | inr e ↦
      (let too_few : length (filter p xs) ≡ suc (length xs) = rw e at h in
        absurd (omega (arith, too_few, length-filter-≤ p xs)))
]

module _ {F : Type 0} ⦃f : Float F⦄ where
  unit-merge_sum :
      (unit : String) (low high : F) (s : CriterionSum F)
      → (merge_sum unit low high s).unit ≡ s.unit
  unfolding merge_sum
  unit-merge_sum unit low high s = elim (Bool-cases (str_eq s.unit unit)) [
    | inl p ↦ rw p refl
    | inr p ↦ rw p refl
  ]

  contributors-merge_sum :
      (unit : String) (low high : F) (s : CriterionSum F)
      → (merge_sum unit low high s).contributors
        ≡ (if str_eq s.unit unit then 1 else 0) + s.contributors
  unfolding merge_sum
  contributors-merge_sum unit low high s = elim (Bool-cases (str_eq s.unit unit)) [
    | inl p ↦ rw p (omega arith)
    | inr p ↦ rw p (omega arith)
  ]

-- The estimates that state the criterion in a unit.
abbrev pub contributions : {V F : Type 0} → Json V F → Float F → String → String → List V → ℕ
contributions j f name unit es =
    length (filter (λ e. in_unit unit (stated ⦃j = j⦄ ⦃f = f⦄ name e)) es)

module _ {V F : Type 0} ⦃j : Json V F⦄ ⦃f : Float F⦄ where
  abbrev Extends : String → List V → CriterionSum F → Option (CriterionSum F) → Type 0
  Extends name es s o =
      (t : CriterionSum F) × (o ≡ some t)
      × (t.unit ≡ s.unit)
      × (t.contributors ≡ s.contributors + contributions j f name s.unit es)

  -- One value is counted if it states the criterion in the unit.
  contributions-cons :
      (name unit : String) (e : V) (es : List V) (a : Option (String × (F × F)))
      → stated name e ≡ a
      → contributions j f name unit (e ∷ es)
        ≡ (if in_unit unit a then 1 else 0) + contributions j f name unit es
  contributions-cons name unit e es a h = elim (Bool-cases (in_unit unit a)) [
    | inl p ↦ rw (h, p) (omega arith)
    | inr p ↦ rw (h, p) (omega arith)
  ]

  Extends-cons :
      (name : String) (e : V) (es : List V) (s : CriterionSum F) (a : Option (String × (F × F)))
      → stated name e ≡ a
      → ((t : CriterionSum F) → Extends name es t (sum_from name es (some t)))
      → Extends name (e ∷ es) s (sum_from name es (next a (some s)))
  Extends-cons name e es s none h ih =
      let (t, found, same, n) = ih s in
      (t, found, same, omega (arith, n, contributions-cons name s.unit e es none h))
  Extends-cons name e es s (some (unit, (low, high))) h ih =
      let (t, found, same, n) = ih (merge_sum unit low high s) in
      let kept = unit-merge_sum unit low high s in
      let count = ap (λ u. contributions j f name u es) kept in
      (
        t,
        found,
        same ∙ kept,
        omega (
          arith,
          n,
          count,
          contributors-merge_sum unit low high s,
          contributions-cons name s.unit e es (some (unit, (low, high))) h,
        ),
      )

  sum_from-Extends :
      (name : String) (es : List V) (s : CriterionSum F)
      → Extends name es s (sum_from name es (some s))
  sum_from-Extends name [] s = (s, refl, refl, omega arith)
  sum_from-Extends name (e ∷ es) s =
      Extends-cons name e es s (stated name e) refl (sum_from-Extends name es)

  contributors-next :
      (name : String) (e : V) (es : List V) (s : CriterionSum F) (a : Option (String × (F × F)))
      → stated name e ≡ a
      → (sum_from name es none ≡ some s → s.contributors ≡ contributions j f name s.unit es)
      → sum_from name es (next a none) ≡ some s
      → s.contributors ≡ contributions j f name s.unit (e ∷ es)
  contributors-next name e es s none p ih h =
      omega (arith, ih h, contributions-cons name s.unit e es none p)
  contributors-next name e es s (some (unit, (low, high))) p ih h =
      let (t, found, same, n) = sum_from-Extends name es (first_sum unit low high) in
      let it : t ≡ s = cc (found, h) in
      let named : s.unit ≡ unit = ap (λ (r : CriterionSum F). r.unit) (sym it) ∙ same in
      let total : s.contributors ≡ 1 + contributions j f name unit es = rw (← it) n in
      let counted = contributions-cons name unit e es (some (unit, (low, high))) p in
      total
      ∙ sym (counted ∙ rw (eq_refl unit) refl)
      ∙ ap (λ u. contributions j f name u (e ∷ es)) (sym named)

  -- The contributors of a sum are the estimates that state the criterion in its unit.
  pub contributors-sum_from :
      (name : String) (es : List V) (s : CriterionSum F)
      → sum_from name es none ≡ some s
      → s.contributors ≡ contributions j f name s.unit es
  contributors-sum_from name [] s h = absurd (cc)
  contributors-sum_from name (e ∷ es) s h =
      contributors-next name e es s (stated name e) refl (contributors-sum_from name es s) h
