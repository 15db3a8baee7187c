-- ===== src/Float.antt =====
-- The program's `f64`, as a parameter: the operations that the code uses, and the laws of exact
-- arithmetic under which the sums of the energy join are read.
pub mod Fixed
use agentic_footprint.Prelude.{◌≡◌, Bool}
use agentic_footprint.Prelude.Int.{ℤ}

pub record Float (F : Type 0) : Type 0 where
  pub nought : F
  pub unity : F
  pub add : F → F → F
  pub sub : F → F → F
  pub mul : F → F → F
  pub div : F → F → F
  pub gt : F → F → Bool
  pub le : F → F → Bool
  pub of_int : ℤ → F

infixl 65 ◌⊕◌ ◌⊖◌
infixl 70 ◌⊗◌ ◌⊘◌
abbrev pub ◌⊕◌ : {F : Type 0} ⦃f : Float F⦄ → F → F → F
◌⊕◌ ⦃f⦄ = f.add

abbrev pub ◌⊖◌ : {F : Type 0} ⦃f : Float F⦄ → F → F → F
◌⊖◌ ⦃f⦄ = f.sub

abbrev pub ◌⊗◌ : {F : Type 0} ⦃f : Float F⦄ → F → F → F
◌⊗◌ ⦃f⦄ = f.mul

abbrev pub ◌⊘◌ : {F : Type 0} ⦃f : Float F⦄ → F → F → F
◌⊘◌ ⦃f⦄ = f.div

-- Sums and differences do not round, as where all of them are whole multiples of one power of two
-- and below 2 ^ 53 times it. Nothing is asked of products, quotients and tests.
pub record IsExact (F : Type 0) ⦃f : Float F⦄ : Type 0 where
  pub add_comm : (a b : F) → a ⊕ b ≡ b ⊕ a
  pub add_assoc : (a b c : F) → a ⊕ b ⊕ c ≡ a ⊕ (b ⊕ c)
  pub add_nought : (a : F) → a ⊕ f.nought ≡ a
  pub add-sub : (a b : F) → a ⊕ (b ⊖ a) ≡ b
