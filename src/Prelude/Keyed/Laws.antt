-- ===== src/Prelude/Keyed/Laws.antt =====
-- Which keys a map has after an update.
use mathlib.Core.Path.{◌≡◌, refl, ap, sym, ◌∙◌}
use mathlib.Core.Logic.{◌⊎◌, inl, inr}
use mathlib.Core.Bool.{false≢true, Bool, true, false, ◌||◌, ◌&&◌, not}
use mathlib.Core.Option.{some}
use mathlib.Core.List.{List, [], ◌∷◌}
use native.Mathlib.Omega.{arith}
use agentic_footprint.Prelude.Tests.{Bool-cases, is_some}
use agentic_footprint.Prelude.Keyed.{Key, lookup, update, insert_sorted, alter, remove}

pub beq_refl {ℓ} : {K : Type ℓ} ⦃k : Key K⦄ (x : K) → k.beq x x ≡ true
beq_refl ⦃k⦄ x = (k.beq_iff x x).1 refl

module _ {ℓ κ} {K : Type ℓ} {V : Type κ} ⦃k : Key K⦄ where
  open k use {beq, lt}

  abbrev pub has : K → List (K × V) → Bool
  has x [] = false
  has x ((y, v) ∷ m) = beq y x || has x m

  pub is_some-lookup : (x : K) (m : List (K × V)) → is_some (lookup x m) ≡ has x m
  unfolding lookup
  is_some-lookup x [] = refl
  is_some-lookup x ((y, v) ∷ m) = elim (Bool-cases (beq y x)) [
    | inl e ↦ rw e refl
    | inr e ↦ rw e (is_some-lookup x m)
  ]

  pub has-update : (x y : K) (f : V → V) (m : List (K × V)) → has y (update x f m) ≡ has y m
  unfolding update
  has-update x y f [] = refl
  has-update x y f ((z, v) ∷ m) = elim (Bool-cases (beq z x)) [
    | inl e ↦ rw e refl
    | inr e ↦ rw e (ap (λ b. beq z y || b) (has-update x y f m))
  ]

  pub has-insert_sorted :
      (x y : K) (v : V) (m : List (K × V)) → has y (insert_sorted x v m) ≡ (beq x y || has y m)
  unfolding insert_sorted
  has-insert_sorted x y v [] = refl
  has-insert_sorted x y v ((z, w) ∷ m) = elim (Bool-cases (lt x z)) [
    | inl e ↦ rw e refl
    | inr e ↦ rw (e, has-insert_sorted x y v m) (ground arith)
  ]

  has-same : (x y : K) (m : List (K × V)) → has x m ≡ true → has y m ≡ (beq x y || has y m)
  has-same x y m h = elim (Bool-cases (beq x y)) [
    | inl e ↦ rw e (ap (λ z. has z m) (sym ((k.beq_iff x y).0 e)) ∙ h)
    | inr e ↦ rw e refl
  ]

  pub has-alter :
      (x y : K) (d : V) (f : V → V) (m : List (K × V))
      → has y (alter x d f m) ≡ (beq x y || has y m)
  unfolding alter
  has-alter x y d f m = elim (Bool-cases (is_some (lookup x m))) [
    | inl e ↦ rw e (has-update x y f m ∙ has-same x y m (sym (is_some-lookup x m) ∙ e))
    | inr e ↦ rw e (has-insert_sorted x y (f d) m)
  ]

  lookup-update :
      (x : K) (v : V) (m : List (K × V))
      → is_some (lookup x m) ≡ true
      → lookup x (update x (λ _. v) m) ≡ some v
  unfolding lookup update
  lookup-update x v [] h = absurd (cc)
  lookup-update x v ((y, w) ∷ m) h = elim (Bool-cases (beq y x)) [
    | inl e ↦ rw e (rw e refl)
    | inr e ↦ rw e (rw e (lookup-update x v m (rw e at h)))
  ]

  pub lookup-insert_sorted :
      (x : K) (v : V) (m : List (K × V))
      → is_some (lookup x m) ≡ false
      → lookup x (insert_sorted x v m) ≡ some v
  unfolding lookup insert_sorted
  lookup-insert_sorted x v [] h = rw (beq_refl x) refl
  lookup-insert_sorted x v ((y, w) ∷ m) h = elim (Bool-cases (lt x y)) [
    | inl e ↦ rw (e, beq_refl x) refl
    | inr e ↦ elim (Bool-cases (beq y x)) [
      | inl b ↦ absurd (false≢true (sym h ∙ rw b refl))
      | inr b ↦ rw (e, b) (lookup-insert_sorted x v m (rw b at h))
    ]
  ]

  -- What is written under a key is read back.
  pub lookup-alter : (x : K) (v : V) (m : List (K × V)) → lookup x (alter x v (λ _. v) m) ≡ some v
  unfolding alter
  lookup-alter x v m = elim (Bool-cases (is_some (lookup x m))) [
    | inl e ↦ rw e (lookup-update x v m e)
    | inr e ↦ rw e (lookup-insert_sorted x v m e)
  ]

  pub has-remove : (x y : K) (m : List (K × V)) → has y (remove x m) ≡ (has y m && not (beq x y))
  unfolding remove
  has-remove x y [] = refl
  has-remove x y ((z, v) ∷ m) = elim (Bool-cases (beq z x)) [
    | inl e ↦
        (let p : z ≡ x = (k.beq_iff z x).0 e in
          rw (e, has-remove x y m, p) (absorb (beq x y) (has y m)))
    | inr e ↦ rw (e, has-remove x y m) (apart (Bool-cases (beq x y)) e)
  ]
    where
      absorb : (a b : Bool) → (b && not a) ≡ ((a || b) && not a)
      absorb true b = ground arith
      absorb false b = ground arith

      apart :
          (beq x y ≡ true) ⊎ (beq x y ≡ false)
          → beq z x ≡ false
          → (beq z y || has y m && not (beq x y)) ≡ ((beq z y || has y m) && not (beq x y))
      apart (inl a) e = (let p : x ≡ y = (k.beq_iff x y).0 a in rw (a, sym p, e) (ground arith))
      apart (inr a) e = rw a (ground arith)
