-- ===== src/Attribution/Sums.antt =====
-- Sums of `f64`s and of the values of a map, where sums do not round.
use agentic_footprint.Prelude.{
  String, ◌≡◌, sym, ap, ◌∙◌, some, List, [], ◌∷◌, foldl, inl, inr, Bool-cases, Option-cases, str_eq,
}
use agentic_footprint.Prelude.Keyed.{string_key, str_lt, lookup, update, insert_sorted, alter}
use agentic_footprint.Float.{Float, ◌⊕◌, IsExact}
use agentic_footprint.Attribution.Types.{SpanMap, sum, sum_values, bump}

module _ {F : Type 0} ⦃f : Float F⦄ (exact : IsExact F) where
  open f use {nought}
  open exact use {add_comm, add_assoc, add_nought, add-sub}

  pub nought_add : (a : F) → nought ⊕ a ≡ a
  nought_add a = add_comm nought a ∙ add_nought a

  pub add_swap : (a b c : F) → a ⊕ b ⊕ c ≡ a ⊕ c ⊕ b
  add_swap a b c = add_assoc a b c ∙ ap (λ x. a ⊕ x) (add_comm b c) ∙ sym (add_assoc a c b)

  -- The same sum from the right.
  values : SpanMap F → F
  values [] = nought
  values ((x, v) ∷ m) = v ⊕ values m

  foldl-eq-values :
      (acc : F) (m : SpanMap F) → foldl (λ s (e : String × F). s ⊕ e.1) acc m ≡ acc ⊕ values m
  unfolding values
  foldl-eq-values acc [] = sym (add_nought acc)
  foldl-eq-values acc ((x, v) ∷ m) = foldl-eq-values (acc ⊕ v) m ∙ add_assoc acc v (values m)

  sum_values-eq-values : (m : SpanMap F) → sum_values m ≡ values m
  unfolding sum_values
  sum_values-eq-values m = foldl-eq-values nought m ∙ nought_add (values m)

  values-insert_sorted :
      (x : String) (v : F) (m : SpanMap F) → values (insert_sorted x v m) ≡ values m ⊕ v
  unfolding values insert_sorted
  values-insert_sorted x v [] = add_comm v nought
  values-insert_sorted x v ((y, w) ∷ m) = elim (Bool-cases (str_lt x y)) [
    | inl e ↦ rw e (add_comm v (w ⊕ values m))
    | inr e ↦ rw e (ap (λ z. w ⊕ z) (values-insert_sorted x v m) ∙ sym (add_assoc w (values m) v))
  ]

  values-update :
      (x : String) (v : F) (m : SpanMap F) {w : F}
      → lookup x m ≡ some w
      → values (update x (λ z. z ⊕ v) m) ≡ values m ⊕ v
  unfolding values update lookup
  values-update x v [] h = cc
  values-update x v ((y, w) ∷ m) h = elim (Bool-cases (str_eq y x)) [
    | inl e ↦ rw e (add_swap w v (values m))
    | inr e ↦
        rw e (ap (λ z. w ⊕ z) (values-update x v m (rw e at h)) ∙ sym (add_assoc w (values m) v))
  ]

  -- Every joule that is booked on a span is in the sum.
  pub sum_values-bump :
      (x : String) (v : F) (m : SpanMap F) → sum_values (bump x v m) ≡ sum_values m ⊕ v
  unfolding bump alter
  sum_values-bump x v m =
      rw (sum_values-eq-values (bump x v m), sum_values-eq-values m)
        (elim (Option-cases (lookup x m)) [
          | inl e ↦
              rw e (values-insert_sorted x (nought ⊕ v) m ∙ ap (λ z. values m ⊕ z) (nought_add v))
          | inr (w, e) ↦ rw e (values-update x v m e)
        ])

  foldl_add : (acc : F) (xs : List F) → foldl ◌⊕◌ acc xs ≡ acc ⊕ sum xs
  unfolding sum
  foldl_add acc [] = sym (add_nought acc)
  foldl_add acc (x ∷ xs) =
      foldl_add (acc ⊕ x) xs
      ∙ add_assoc acc x (sum xs)
      ∙ ap (λ z. acc ⊕ z) (sym (foldl_add (nought ⊕ x) xs ∙ ap (λ z. z ⊕ sum xs) (nought_add x)))

  pub sum-cons : (x : F) (xs : List F) → sum (x ∷ xs) ≡ x ⊕ sum xs
  unfolding sum
  sum-cons x xs = foldl_add (nought ⊕ x) xs ∙ ap (λ z. z ⊕ sum xs) (nought_add x)
