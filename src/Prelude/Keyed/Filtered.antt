-- ===== src/Prelude/Keyed/Filtered.antt =====
-- Maps whose keys are distinct, and a part of such a map.
use mathlib.Core.Path.{◌≡◌, refl, ap, sym, ◌∙◌}
use mathlib.Core.Logic.{inl, inr}
use mathlib.Core.Bool.{Bool, true, false, false≢true}
use mathlib.Core.Option.{some}
use mathlib.Core.List.{List, [], ◌∷◌, map}
use agentic_footprint.Prelude.Tests.{Bool-cases, is_some, neither}
use agentic_footprint.Prelude.Lists.{filter}
use agentic_footprint.Prelude.Keyed.{Key, lookup, update, insert_sorted}
use agentic_footprint.Prelude.Keyed.Laws.{
  has, has-update, has-insert_sorted, is_some-lookup, beq_refl,
}

beq-swap {ℓ} : {K : Type ℓ} ⦃k : Key K⦄ (x y : K) → k.beq x y ≡ false → k.beq y x ≡ false
beq-swap ⦃k⦄ x y h = elim (Bool-cases (k.beq y x)) [
  | inl e ↦ absurd (false≢true (sym h ∙ ap (k.beq x) ((k.beq_iff y x).0 e) ∙ beq_refl x))
  | inr e ↦ e
]

module _ {ℓ κ} {K : Type ℓ} {V : Type κ} ⦃k : Key K⦄ where
  open k use {beq, lt}

  abbrev pub DistinctKeys : List (K × V) → Type 0
  DistinctKeys [] = Unit
  DistinctKeys ((x, v) ∷ m) = (has x m ≡ false) × DistinctKeys m

  pub DistinctKeys-update :
      (x : K) (f : V → V) (m : List (K × V)) → DistinctKeys m → DistinctKeys (update x f m)
  unfolding update
  DistinctKeys-update x f [] d = tt
  DistinctKeys-update x f ((y, v) ∷ m) d = elim (Bool-cases (beq y x)) [
    | inl e ↦ rw e d
    | inr e ↦ rw e (has-update x y f m ∙ d.0, DistinctKeys-update x f m d.1)
  ]

  pub DistinctKeys-insert_sorted :
      (x : K) (v : V) (m : List (K × V))
      → has x m ≡ false
      → DistinctKeys m
      → DistinctKeys (insert_sorted x v m)
  unfolding insert_sorted
  DistinctKeys-insert_sorted x v [] h d = (refl, tt)
  DistinctKeys-insert_sorted x v ((y, w) ∷ m) h d =
      let (other, rest) = neither (beq y x) (has x m) h in
      elim (Bool-cases (lt x y)) [
        | inl e ↦ rw e (h, d)
        | inr e ↦ rw e (
          has-insert_sorted x y v m ∙ rw (beq-swap y x other, d.0) refl,
          DistinctKeys-insert_sorted x v m rest d.1,
        )
      ]

  absent : (x : K) (m : List (K × V)) (v : V) → has x m ≡ false → lookup x m ≡ some v → ⊥
  absent x m v h e = false≢true (sym h ∙ sym (is_some-lookup x m) ∙ ap is_some e)

  has-filter :
      (p : K × V → Bool) (x : K) (m : List (K × V)) → has x m ≡ false → has x (filter p m) ≡ false
  has-filter p x [] h = refl
  has-filter p x ((y, w) ∷ m) h =
      let (other, rest) = neither (beq y x) (has x m) h in
      elim (Bool-cases (p (y, w))) [
        | inl e ↦ rw e (rw (other, has-filter p x m rest) refl)
        | inr e ↦ rw e (has-filter p x m rest)
      ]

  pub DistinctKeys-filter :
      (p : K × V → Bool) (m : List (K × V)) → DistinctKeys m → DistinctKeys (filter p m)
  DistinctKeys-filter p [] d = tt
  DistinctKeys-filter p ((y, w) ∷ m) d = elim (Bool-cases (p (y, w))) [
    | inl e ↦ rw e (has-filter p y m d.0, DistinctKeys-filter p m d.1)
    | inr e ↦ rw e (DistinctKeys-filter p m d.1)
  ]

  -- What is found in a part of the map is found in the map, and belongs to the part.
  pub lookup-filter :
      (p : K × V → Bool) (x : K) (v : V) (m : List (K × V))
      → DistinctKeys m
      → lookup x (filter p m) ≡ some v
      → (lookup x m ≡ some v) × (p (x, v) ≡ true)
  unfolding lookup
  lookup-filter p x v [] d h = absurd (cc)
  lookup-filter p x v ((y, w) ∷ m) d h = elim (Bool-cases (p (y, w))) [
    | inl e ↦ elim (Bool-cases (beq y x)) [
      | inl q ↦
          (let same : y ≡ x = (k.beq_iff y x).0 q in
            let found : some w ≡ some v = rw (e, q) at h in
            let value : w ≡ v = cc in rw q (found, rw (← same, ← value) e))
      | inr q ↦ rw q (lookup-filter p x v m d.1 (rw (e, q) at h))
    ]
    | inr e ↦
        (let (found, holds) = lookup-filter p x v m d.1 (rw e at h) in
          elim (Bool-cases (beq y x)) [
            | inl q ↦
                absurd (absent x m v (ap (λ z. has z m) (sym ((k.beq_iff y x).0 q)) ∙ d.0) found)
            | inr q ↦ rw q (found, holds)
          ])
  ]

module _ {ℓ κ μ} {K : Type ℓ} {V : Type κ} {W : Type μ} ⦃k : Key K⦄ where
  pub lookup-map :
      (g : V → W) (x : K) (w : W) (m : List (K × V))
      → lookup x (map (λ (e : K × V). (e.0, g e.1)) m) ≡ some w
      → (v : V) × (lookup x m ≡ some v) × (g v ≡ w)
  unfolding lookup
  lookup-map g x w [] h = absurd (cc)
  lookup-map g x w ((y, v) ∷ m) h = elim (Bool-cases (k.beq y x)) [
    | inl q ↦ (let found : some (g v) ≡ some w = rw q at h in rw q (v, refl, cc))
    | inr q ↦ rw q (lookup-map g x w m (rw q at h))
  ]
