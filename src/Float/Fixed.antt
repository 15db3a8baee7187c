-- ===== src/Float/Fixed.antt =====
-- A number type that meets the laws and runs: thousandths, with products and quotients cut off.
use agentic_footprint.Prelude.{ℕ, ◌+◌, ◌*◌, ◌/◌}
use agentic_footprint.Prelude.Int.{
  ℤ, pos, pos_part, neg_part, sub_ℕ, ◌+ℤ◌, ◌-ℤ◌, ltb_ℤ, leb_ℤ, int_laws,
}
use agentic_footprint.Float.{Float, IsExact}

-- The quotient of two products of magnitudes, with the sign of the three factors together.
scaled : ℤ → ℤ → ℕ → ℤ
scaled a b d =
    sub_ℕ ((pos_part a * pos_part b + neg_part a * neg_part b) / d)
      ((pos_part a * neg_part b + neg_part a * pos_part b) / d)

abbrev reciprocal_sign : ℤ → ℤ
reciprocal_sign (pos n) = pos 1000
reciprocal_sign b = sub_ℕ 0 1000

instance unfoldable pub fixed : Float ℤ
unfolding scaled ◌+ℤ◌ ◌-ℤ◌
fixed = record {
  nought = pos 0;
  unity = pos 1000;
  add = ◌+ℤ◌;
  sub = ◌-ℤ◌;
  mul = λ a b. scaled a b 1000;
  div = λ a b. scaled a (reciprocal_sign b) (pos_part b + neg_part b);
  gt = λ a b. ltb_ℤ b a;
  le = leb_ℤ;
  of_int = λ n. scaled n (pos 1_000_000) 1;
}

pub fixed-IsExact : IsExact ℤ
unfolding fixed
fixed-IsExact = record {
  add_comm = λ a b. omega int_laws;
  add_assoc = λ a b c. omega int_laws;
  add_nought = λ a. omega int_laws;
  add-sub = λ a b. omega int_laws;
}
