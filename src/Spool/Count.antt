-- ===== src/Spool/Count.antt =====
-- Counting the newlines of a prefix in chunks, and offsets into a file.
use agentic_footprint.Prelude.{
  ℕ, zero, suc, ◌+◌, ◌-◌, ◌≤◌, ◌<◌, min, ◌≡◌, refl, ap, ◌∙◌, true, false, ◌&&◌, not, List, [], ◌∷◌,
  ◌++◌, length, take, drop, is_empty, ltb, arith, inl, inr, Bool-cases,
}
use agentic_footprint.Spool.Tail.{newlines, count_chunks, count_lines_before, chunk_len}

module _ {A : Type 0} where
  pub take-nil : (n : ℕ) → take {A = A} n [] ≡ []
  take-nil zero = refl
  take-nil (suc n) = refl

  pub drop-nil : (n : ℕ) → drop {A = A} n [] ≡ []
  drop-nil zero = refl
  drop-nil (suc n) = refl

  pub length-take : (n : ℕ) (xs : List A) → length (take n xs) ≡ min n (length xs)
  length-take zero xs = omega arith
  length-take (suc n) [] = omega arith
  length-take (suc n) (x ∷ xs) = omega (arith, length-take n xs)

  pub length-drop : (n : ℕ) (xs : List A) → length (drop n xs) ≡ length xs - n
  length-drop zero xs = omega arith
  length-drop (suc n) [] = omega arith
  length-drop (suc n) (x ∷ xs) = omega (arith, length-drop n xs)

  pub drop-+ : (m n : ℕ) (xs : List A) → drop (m + n) xs ≡ drop n (drop m xs)
  drop-+ zero n xs = let e : 0 + n ≡ n = omega arith in ap (λ k. drop k xs) e
  drop-+ (suc m) n [] = rw (drop-nil (suc m + n), drop-nil n) refl
  drop-+ (suc m) n (x ∷ xs) =
      let e : suc m + n ≡ suc (m + n) = omega arith in ap (λ k. drop k (x ∷ xs)) e ∙ drop-+ m n xs

  pub take-+ : (m n : ℕ) (xs : List A) → take (m + n) xs ≡ take m xs ++ take n (drop m xs)
  take-+ zero n xs = let e : 0 + n ≡ n = omega arith in ap (λ k. take k xs) e
  take-+ (suc m) n [] = rw (take-nil (suc m + n), take-nil n) refl
  take-+ (suc m) n (x ∷ xs) =
      let e : suc m + n ≡ suc (m + n) = omega arith in
      ap (λ k. take k (x ∷ xs)) e ∙ ap (λ t. x ∷ t) (take-+ m n xs)

  pub drop-append : (n : ℕ) (xs ys : List A) → n ≤ length xs → drop n (xs ++ ys) ≡ drop n xs ++ ys
  drop-append zero xs ys h = refl
  drop-append (suc n) [] ys h = absurd (omega (arith, h))
  drop-append (suc n) (x ∷ xs) ys h = drop-append n xs ys (omega (arith, h))

  pub take-append : (n : ℕ) (xs ys : List A) → n ≤ length xs → take n (xs ++ ys) ≡ take n xs
  take-append zero xs ys h = refl
  take-append (suc n) [] ys h = absurd (omega (arith, h))
  take-append (suc n) (x ∷ xs) ys h = ap (λ t. x ∷ t) (take-append n xs ys (omega (arith, h)))

  pub drop-length : (xs ys : List A) → drop (length xs) (xs ++ ys) ≡ ys
  drop-length [] ys = refl
  drop-length (x ∷ xs) ys = drop-length xs ys

  pub take-length : (xs ys : List A) → take (length xs) (xs ++ ys) ≡ xs
  take-length [] ys = refl
  take-length (x ∷ xs) ys = ap (λ t. x ∷ t) (take-length xs ys)

pub newlines-append : (xs ys : List ℕ) → newlines (xs ++ ys) ≡ newlines xs + newlines ys
newlines-append [] ys = omega arith
newlines-append (x ∷ xs) ys = omega (arith, newlines-append xs ys)

newlines-take :
    (m n : ℕ) (bs : List ℕ)
    → m ≤ n
    → newlines (take n bs)
      ≡ newlines (take m bs) + newlines (take (n - length (take m bs)) (drop m bs))
newlines-take zero n bs h = let e : n - 0 ≡ n = omega arith in rw e (omega arith)
newlines-take (suc m) n [] h = rw (take-nil n, take-nil (n - 0)) refl
newlines-take (suc m) zero (b ∷ bs) h = absurd (omega (arith, h))
newlines-take (suc m) (suc n) (b ∷ bs) h =
    let e : suc n - suc (length (take m bs)) ≡ n - length (take m bs) = omega arith in
    let ih = newlines-take m n bs (omega (arith, h)) in rw e (omega (arith, ih))

take-is_empty : (m : ℕ) (bs : List ℕ) → 0 < m → is_empty (take m bs) ≡ true → bs ≡ []
take-is_empty zero bs p h = absurd (omega (arith, p))
take-is_empty (suc m) [] p h = refl
take-is_empty (suc m) (b ∷ bs) p h = absurd (cc)

shorter :
    (fuel remaining : ℕ) (chunk : List ℕ)
    → (ltb 0 remaining && not (is_empty chunk)) ≡ true
    → remaining < suc fuel
    → remaining - length chunk < fuel
shorter fuel remaining [] p h = absurd (ground arith)
shorter fuel remaining (b ∷ chunk) p h = ground arith

-- No byte is read past the end, or when none is asked for.
no_chunk :
    (bytes : List ℕ) (remaining : ℕ)
    → (ltb 0 remaining && not (is_empty (take (min remaining chunk_len) bytes))) ≡ false
    → newlines (take remaining bytes) ≡ 0
no_chunk bytes remaining h = elim (Bool-cases (ltb 0 remaining)) [
  | inl p ↦ elim (Bool-cases (is_empty (take (min remaining chunk_len) bytes))) [
    | inl e ↦
        rw (take-is_empty (min remaining chunk_len) bytes (ground arith) e, take-nil remaining) refl
    | inr e ↦ absurd (cc)
  ]
  | inr p ↦ (let none_left : remaining ≡ 0 = ground arith in rw none_left refl)
]

pub count_chunks-newlines :
    (fuel : ℕ) (bytes : List ℕ) (remaining lines : ℕ)
    → remaining < fuel
    → count_chunks fuel bytes remaining lines ≡ lines + newlines (take remaining bytes)
unfolding count_chunks
count_chunks-newlines zero bytes remaining lines h = absurd (omega (arith, h))
count_chunks-newlines (suc fuel) bytes remaining lines h =
    let m = min remaining chunk_len in
    let chunk = take m bytes in
    elim (Bool-cases (ltb 0 remaining && not (is_empty chunk))) [
      | inl p ↦ rw p (
          count_chunks-newlines fuel (drop m bytes) (remaining - length chunk)
            (lines + newlines chunk) (shorter fuel remaining chunk p h)
          ∙ omega (arith, newlines-take m remaining bytes (omega arith)))
      | inr p ↦ rw p (omega (arith, no_chunk bytes remaining p))
    ]

-- The prefix that is counted is the whole of what lies before the offset.
pub count_lines_before_lem :
    (bytes : List ℕ) (upto : ℕ) → count_lines_before bytes upto ≡ newlines (take upto bytes)
unfolding count_lines_before
count_lines_before_lem bytes upto =
    count_chunks-newlines (suc upto) bytes upto 0 (omega arith) ∙ omega arith
