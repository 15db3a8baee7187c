-- ===== src/OpenCode/Escape.antt =====
-- crates/af-cli/src/cmd/opencode.rs: the encoding of a session id in a URL, and its decoding.
use agentic_footprint.Prelude.{
  ℕ, ◌+◌, ◌-◌, ◌*◌, ◌/◌, ◌%◌, ◌<◌, ◌≡◌, refl, ap, inl, inr, true, false, ◌||◌, List, [], ◌∷◌, leb,
  ◌==◌, if◌then◌else◌, Bool-cases, arith, All, all,
}
use agentic_footprint.OpenCode.Paths.{hex_digit, is_unreserved, percent_encode_path}

abbrev hex_value : ℕ → ℕ
hex_value c = if leb c b'9' then c - b'0' else c + 10 - b'A'

-- A byte behind a percent sign, and then the rest.
abbrev mutual
  pub percent_decode : List ℕ → List ℕ
  percent_decode [] = []
  percent_decode (c ∷ cs) = if c == b'%' then escaped cs else c ∷ percent_decode cs

  escaped : List ℕ → List ℕ
  escaped [] = []
  escaped (a ∷ []) = []
  escaped (a ∷ b ∷ cs) = (hex_value a * 16 + hex_value b) ∷ percent_decode cs

hex_value-hex_digit : (n : ℕ) → n < 16 → hex_value (hex_digit n) ≡ n
hex_value-hex_digit n h = ground arith

is_unreserved-hex_digit : (n : ℕ) → n < 16 → is_unreserved (hex_digit n) ≡ true
is_unreserved-hex_digit n h = ground arith

join_digits : (b : ℕ) → b / 16 * 16 + b % 16 ≡ b
join_digits b = omega arith

-- Neither the separators of a URL nor the percent sign stand for themselves.
not_percent : (b : ℕ) → is_unreserved b ≡ true → (b == b'%') ≡ false
not_percent b h = ground arith

-- The encoding of a list of bytes is decoded to them, and each of its bytes is a letter, a digit, one
-- of the four marks that a URL leaves as they are, or a percent sign.
pub percent_encode_path_lem :
    (bs : List ℕ)
    → All (λ b. b < 256) bs
    → (percent_decode (percent_encode_path bs) ≡ bs)
      × (all (λ b. is_unreserved b || b == b'%') (percent_encode_path bs) ≡ true)
unfolding percent_encode_path
percent_encode_path_lem [] h = (refl, refl)
percent_encode_path_lem (b ∷ bs) h =
    let ih = percent_encode_path_lem bs h.1 in
    elim (Bool-cases (is_unreserved b)) [
      | inl e ↦ rw (e, not_percent b e, ih.0) (refl, rw (e, ih.1) refl)
      | inr e ↦
          (let lt : b < 256 = h.0 in
            let high : b / 16 < 16 = omega (arith, lt) in
            let low : b % 16 < 16 = omega arith in
            rw (e, hex_value-hex_digit (b / 16) high, hex_value-hex_digit (b % 16) low, ih.0)
              (rw
                (is_unreserved-hex_digit (b / 16) high, is_unreserved-hex_digit (b % 16) low, ih.1)
                (ap (λ c. c ∷ bs) (join_digits b), refl)))
    ]
