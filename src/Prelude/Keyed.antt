-- ===== src/Prelude/Keyed.antt =====
-- Ordered maps (`BTreeMap`, and `HashMap` with its unspecified order taken as the key order) as
-- association lists sorted by key, and sets of keys.
pub mod Laws
pub mod Sizes
pub mod Lookups
pub mod Filtered
use Prim.Native.Nat.{ℕ, Ordering}
use Prim.Native.String.{String, compare}
use mathlib.Core.Path.{◌≡◌, refl, ap}
use mathlib.Core.Logic.{◌↔◌, inl, inr}
use mathlib.Core.Bool.{Bool, true, false, ◌&&◌, ◌||◌}
use mathlib.Core.Option.{Option, none, some}
use mathlib.Core.List.{List, [], ◌∷◌, ◌++◌, map}
use native.Mathlib.Omega.{arith}
use text.Mathlib.Text.{◌==◌ as str_eq}
use text.Mathlib.TextEquality.{eq_iff}
use agentic_footprint.Prelude.Tests.{if◌then◌else◌, Bool-cases, is_some}
use agentic_footprint.Prelude.Lists.{any}
use agentic_footprint.Prelude.Int.{ℤ, ltb_ℤ, eqb_ℤ, eqb_ℤ_iff}

-- The key's `Eq` and `Ord`.
pub record Key {ℓ} (K : Type ℓ) : Type ℓ where
  pub beq : K → K → Bool
  pub beq_iff : (a b : K) → (beq a b ≡ true) ↔ (a ≡ b)
  pub lt : K → K → Bool

abbrev pub str_lt : String → String → Bool
str_lt a b = elim (compare a b) [ Ordering.lt ↦ true | _ ↦ false ]

instance abbrev pub string_key : Key String
string_key = record { beq = str_eq; beq_iff = eq_iff; lt = str_lt }

instance abbrev pub int_key : Key ℤ
int_key = record { beq = eqb_ℤ; beq_iff = eqb_ℤ_iff; lt = ltb_ℤ }

module _ {ℓ κ} {K : Type ℓ} {V : Type κ} ⦃k : Key K⦄ where
  open k use {beq, lt}

  unfoldable pub lookup : K → List (K × V) → Option V
  lookup x [] = none
  lookup x ((y, v) ∷ m) = if beq y x then some v else lookup x m

  unfoldable pub update : K → (V → V) → List (K × V) → List (K × V)
  update x f [] = []
  update x f ((y, v) ∷ m) = if beq y x then (y, f v) ∷ m else (y, v) ∷ update x f m

  unfoldable pub insert_sorted : K → V → List (K × V) → List (K × V)
  insert_sorted x v [] = (x, v) ∷ []
  insert_sorted x v ((y, w) ∷ m) =
      if lt x y then (x, v) ∷ (y, w) ∷ m else (y, w) ∷ insert_sorted x v m

  -- `BTreeMap::remove`, without the value.
  unfoldable pub remove : K → List (K × V) → List (K × V)
  remove x [] = []
  remove x ((y, v) ∷ m) = if beq y x then remove x m else (y, v) ∷ remove x m

  -- `*map.entry(x).or_insert(d)` changed by `f`.
  unfoldable pub alter : K → V → (V → V) → List (K × V) → List (K × V)
  unfolding lookup update insert_sorted
  alter x d f m = if is_some (lookup x m) then update x f m else insert_sorted x (f d) m

module _ {ℓ} {K : Type ℓ} ⦃k : Key K⦄ where
  abbrev pub contains : List K → K → Bool
  contains xs x = any (λ y. k.beq y x) xs

  -- `HashSet::insert`.
  abbrev pub set_insert : K → List K → List K
  set_insert x xs = if contains xs x then xs else xs ++ x ∷ []
