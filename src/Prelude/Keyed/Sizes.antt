-- ===== src/Prelude/Keyed/Sizes.antt =====
-- How many keys a map has after an update.
use mathlib.Core.Path.{◌≡◌, refl, ap, ◌∙◌}
use mathlib.Core.Logic.{inl, inr}
use mathlib.Core.Bool.{true, false}
use mathlib.Core.Option.{some}
use mathlib.Core.List.{List, [], ◌∷◌}
use native.Mathlib.Omega.{arith}
use agentic_footprint.Prelude.Tests.{Bool-cases, is_some}
use Prim.Native.Nat.{suc, ◌≤◌, ◌<◌}
use agentic_footprint.Prelude.Lists.{length, is_empty}
use agentic_footprint.Prelude.Keyed.{Key, lookup, update, insert_sorted, alter, remove}

module _ {ℓ κ} {K : Type ℓ} {V : Type κ} ⦃k : Key K⦄ where
  open k use {beq, lt}

  length-update : (x : K) (f : V → V) (m : List (K × V)) → length (update x f m) ≡ length m
  unfolding update
  length-update x f [] = refl
  length-update x f ((y, v) ∷ m) = elim (Bool-cases (beq y x)) [
    | inl e ↦ rw e refl
    | inr e ↦ rw e (ap (λ n. suc n) (length-update x f m))
  ]

  length-insert_sorted :
      (x : K) (v : V) (m : List (K × V)) → length (insert_sorted x v m) ≡ suc (length m)
  unfolding insert_sorted
  length-insert_sorted x v [] = refl
  length-insert_sorted x v ((y, w) ∷ m) = elim (Bool-cases (lt x y)) [
    | inl e ↦ rw e refl
    | inr e ↦ rw e (ap (λ n. suc n) (length-insert_sorted x v m))
  ]

  pub length-alter :
      (x : K) (d : V) (f : V → V) (m : List (K × V)) → length (alter x d f m) ≤ suc (length m)
  unfolding alter
  length-alter x d f m = elim (Bool-cases (is_some (lookup x m))) [
    | inl e ↦ rw e (omega (arith, length-update x f m))
    | inr e ↦ rw e (omega (arith, length-insert_sorted x (f d) m))
  ]

  length-remove_le : (x : K) (m : List (K × V)) → length (remove x m) ≤ length m
  unfolding remove
  length-remove_le x [] = omega arith
  length-remove_le x ((y, v) ∷ m) = elim (Bool-cases (beq y x)) [
    | inl e ↦ rw e (omega (arith, length-remove_le x m))
    | inr e ↦ rw e (omega (arith, length-remove_le x m))
  ]

  -- What is there and is removed makes the map smaller.
  pub length-remove :
      (x : K) (v : V) (m : List (K × V)) → lookup x m ≡ some v → length (remove x m) < length m
  unfolding lookup remove
  length-remove x v [] h = absurd (cc)
  length-remove x v ((y, w) ∷ m) h = elim (Bool-cases (beq y x)) [
    | inl e ↦ rw e (omega (arith, length-remove_le x m))
    | inr e ↦ rw e (omega (arith, length-remove x v m (rw e at h)))
  ]

  pub is_empty-update :
      (x : K) (f : V → V) (m : List (K × V)) → is_empty (update x f m) ≡ is_empty m
  unfolding update
  is_empty-update x f [] = refl
  is_empty-update x f ((y, v) ∷ m) = elim (Bool-cases (beq y x)) [
    | inl e ↦ rw e refl
    | inr e ↦ rw e refl
  ]

  is_empty-insert_sorted :
      (x : K) (v : V) (m : List (K × V)) → is_empty (insert_sorted x v m) ≡ false
  unfolding insert_sorted
  is_empty-insert_sorted x v [] = refl
  is_empty-insert_sorted x v ((y, w) ∷ m) = elim (Bool-cases (lt x y)) [
    | inl e ↦ rw e refl
    | inr e ↦ rw e refl
  ]

  is_empty-lookup : (x : K) (m : List (K × V)) → is_some (lookup x m) ≡ true → is_empty m ≡ false
  unfolding lookup
  is_empty-lookup x [] h = absurd (cc)
  is_empty-lookup x ((y, v) ∷ m) h = refl

  pub is_empty-alter :
      (x : K) (d : V) (f : V → V) (m : List (K × V)) → is_empty (alter x d f m) ≡ false
  unfolding alter
  is_empty-alter x d f m = elim (Bool-cases (is_some (lookup x m))) [
    | inl e ↦ rw e (is_empty-update x f m ∙ is_empty-lookup x m e)
    | inr e ↦ rw e (is_empty-insert_sorted x (f d) m)
  ]
