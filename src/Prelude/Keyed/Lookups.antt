-- ===== src/Prelude/Keyed/Lookups.antt =====
-- What a key has after an update of it or of another.
use mathlib.Core.Path.{◌≡◌, refl, ap, sym, ◌∙◌}
use mathlib.Core.Logic.{inl, inr}
use mathlib.Core.Bool.{true, false}
use mathlib.Core.Option.{Option, none, some}
use mathlib.Core.List.{List, [], ◌∷◌}
use agentic_footprint.Prelude.Tests.{Bool-cases, is_some, unwrap_or}
use agentic_footprint.Prelude.Keyed.{Key, lookup, update, insert_sorted, alter, remove}
use agentic_footprint.Prelude.Keyed.Laws.{lookup-insert_sorted}

absent_value {ℓ} : {V : Type ℓ} (o : Option V) (d : V) → is_some o ≡ false → unwrap_or o d ≡ d
absent_value none d h = refl
absent_value (some v) d h = absurd (cc)

module _ {ℓ κ} {K : Type ℓ} {V : Type κ} ⦃k : Key K⦄ where
  open k use {beq, lt}

  pub lookup-update-other :
      (x y : K) (f : V → V) (m : List (K × V))
      → beq x y ≡ false
      → lookup y (update x f m) ≡ lookup y m
  unfolding lookup update
  lookup-update-other x y f [] h = refl
  lookup-update-other x y f ((z, v) ∷ m) h = elim (Bool-cases (beq z x)) [
    | inl e ↦ (let p : z ≡ x = (k.beq_iff z x).0 e in rw e (rw (p, h) refl))
    | inr e ↦ rw e (elim (Bool-cases (beq z y)) [
      | inl d ↦ rw d refl
      | inr d ↦ rw d (lookup-update-other x y f m h)
    ])
  ]

  pub lookup-insert_sorted-other :
      (x y : K) (v : V) (m : List (K × V))
      → beq x y ≡ false
      → lookup y (insert_sorted x v m) ≡ lookup y m
  unfolding lookup insert_sorted
  lookup-insert_sorted-other x y v [] h = rw h refl
  lookup-insert_sorted-other x y v ((z, w) ∷ m) h = elim (Bool-cases (lt x z)) [
    | inl e ↦ rw e (rw h refl)
    | inr e ↦ rw e (elim (Bool-cases (beq z y)) [
      | inl d ↦ rw d refl
      | inr d ↦ rw d (lookup-insert_sorted-other x y v m h)
    ])
  ]

  -- Another key keeps its value.
  pub lookup-alter-other :
      (x y : K) (d : V) (f : V → V) (m : List (K × V))
      → beq x y ≡ false
      → lookup y (alter x d f m) ≡ lookup y m
  unfolding alter
  lookup-alter-other x y d f m h = elim (Bool-cases (is_some (lookup x m))) [
    | inl e ↦ rw e (lookup-update-other x y f m h)
    | inr e ↦ rw e (lookup-insert_sorted-other x y (f d) m h)
  ]

  pub lookup-update-same :
      (x : K) (d : V) (f : V → V) (m : List (K × V))
      → is_some (lookup x m) ≡ true
      → lookup x (update x f m) ≡ some (f (unwrap_or (lookup x m) d))
  unfolding lookup update
  lookup-update-same x d f [] h = absurd (cc)
  lookup-update-same x d f ((z, v) ∷ m) h = elim (Bool-cases (beq z x)) [
    | inl e ↦ rw e (rw e refl)
    | inr e ↦ rw e (rw e (lookup-update-same x d f m (rw e at h)))
  ]

  pub lookup-alter-same :
      (x : K) (d : V) (f : V → V) (m : List (K × V))
      → lookup x (alter x d f m) ≡ some (f (unwrap_or (lookup x m) d))
  unfolding alter
  lookup-alter-same x d f m = elim (Bool-cases (is_some (lookup x m))) [
    | inl e ↦ rw e (lookup-update-same x d f m e)
    | inr e ↦ rw e (
        lookup-insert_sorted x (f d) m e
        ∙ ap (λ v. some (f v)) (sym (absent_value (lookup x m) d e)))
  ]

  pub lookup-remove-other :
      (x y : K) (m : List (K × V)) → beq x y ≡ false → lookup y (remove x m) ≡ lookup y m
  unfolding lookup remove
  lookup-remove-other x y [] h = refl
  lookup-remove-other x y ((z, v) ∷ m) h = elim (Bool-cases (beq z x)) [
    | inl e ↦
        (let p : z ≡ x = (k.beq_iff z x).0 e in rw e (rw (p, h) (lookup-remove-other x y m h)))
    | inr e ↦ rw e (elim (Bool-cases (beq z y)) [
      | inl d ↦ rw d refl
      | inr d ↦ rw d (lookup-remove-other x y m h)
    ])
  ]

  pub lookup-remove-same : (x : K) (m : List (K × V)) → lookup x (remove x m) ≡ none
  unfolding lookup remove
  lookup-remove-same x [] = refl
  lookup-remove-same x ((z, v) ∷ m) = elim (Bool-cases (beq z x)) [
    | inl e ↦ rw e (lookup-remove-same x m)
    | inr e ↦ rw e (rw e (lookup-remove-same x m))
  ]
