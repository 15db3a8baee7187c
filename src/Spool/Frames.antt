-- ===== src/Spool/Frames.antt =====
-- The complete lines of a read, at once: what `read_lines` finds one by one.
use agentic_footprint.Prelude.{
  ℕ, zero, suc, ◌+◌, ◌<◌, String, ◌≡◌, refl, ap, ◌∙◌, true, false, Option, none, some, List, [],
  ◌∷◌, ◌++◌, foldl, length, if◌then◌else◌, arith, inl, inr, length-append, Bool-cases, ==_iff,
}
use agentic_footprint.Events.Validate.{RejectReason, Result}
use agentic_footprint.Events.Parse.{ParsedLine}
use agentic_footprint.Spool.Tail.{Cursor, take_line, is_newline, read_line, read_lines}

abbrev pub put : ℕ → List (List ℕ) × List ℕ → List (List ℕ) × List ℕ
put b ([], left) = ([], b ∷ left)
put b (l ∷ ls, left) = ((b ∷ l) ∷ ls, left)

-- The newline-terminated lines of some bytes, and what is left after the last newline.
unfoldable pub frame : List ℕ → List (List ℕ) × List ℕ
frame [] = ([], [])
frame (b ∷ bs) =
    let (ls, left) = frame bs in if is_newline b then ([] ∷ ls, left) else put b (ls, left)

-- The bytes of some lines, each with its newline.
abbrev pub joined : List (List ℕ) → List ℕ
joined [] = []
joined (l ∷ ls) = l ++ (b'\n' ∷ joined ls)

pub length-joined-append :
    (xs ys : List (List ℕ)) → length (joined (xs ++ ys)) ≡ length (joined xs) + length (joined ys)
length-joined-append [] ys = omega arith
length-joined-append (l ∷ ls) ys = omega (
  arith,
  length-joined-append ls ys,
  length-append l (b'\n' ∷ joined (ls ++ ys)),
  length-append l (b'\n' ∷ joined ls),
)

abbrev Taken : List ℕ → Option (List ℕ × List ℕ) → Type 0
Taken bs none = frame bs ≡ ([], bs)
Taken bs (some (l, after)) =
    (frame bs ≡ (l ∷ (frame after).0, (frame after).1)) × (length bs ≡ length l + 1 + length after)

Taken-cons :
    (b : ℕ) (bs : List ℕ) (o : Option (List ℕ × List ℕ))
    → Taken bs o
    → Taken (b ∷ bs) (
        if is_newline b
        then some ([], bs)
        else elim o [ none ↦ none | some (line, after) ↦ some (b ∷ line, after) ])
unfolding frame
Taken-cons b bs none h = elim (Bool-cases (is_newline b)) [
  | inl e ↦ rw e (rw e refl, omega arith)
  | inr e ↦ rw e (rw (e, h) refl)
]
Taken-cons b bs (some (l, after)) h = elim (Bool-cases (is_newline b)) [
  | inl e ↦ rw e (rw e refl, omega arith)
  | inr e ↦ rw e (rw (e, h.0) refl, omega (arith, h.1))
]

take_line-frame : (bs : List ℕ) → Taken bs (take_line bs)
unfolding take_line
take_line-frame [] = unfold frame in refl
take_line-frame (b ∷ bs) = Taken-cons b bs (take_line bs) (take_line-frame bs)

put-append :
    (x : ℕ) (X : List (List ℕ) × List ℕ) (ys : List ℕ)
    → is_newline x ≡ false
    → put x (X.0 ++ (frame (X.1 ++ ys)).0, (frame (X.1 ++ ys)).1)
      ≡ ((put x X).0 ++ (frame ((put x X).1 ++ ys)).0, (frame ((put x X).1 ++ ys)).1)
put-append x ([], left) ys e = unfold frame in rw e refl
put-append x (l ∷ ls, left) ys e = refl

pub frame-newline :
    (b : ℕ) (bs : List ℕ) → is_newline b ≡ true → frame (b ∷ bs) ≡ ([] ∷ (frame bs).0, (frame bs).1)
unfolding frame
frame-newline b bs e = rw e refl

pub frame-byte : (b : ℕ) (bs : List ℕ) → is_newline b ≡ false → frame (b ∷ bs) ≡ put b (frame bs)
unfolding frame
frame-byte b bs e = rw e refl

-- Framing goes on where it stopped: what is left over is framed with the bytes that follow.
pub frame-append :
    (xs ys : List ℕ)
    → frame (xs ++ ys)
      ≡ ((frame xs).0 ++ (frame ((frame xs).1 ++ ys)).0, (frame ((frame xs).1 ++ ys)).1)
frame-append [] ys = unfold frame in refl
frame-append (x ∷ xs) ys =
    let ih = frame-append xs ys in
    elim (Bool-cases (is_newline x)) [
      | inl e ↦ rw (frame-newline x (xs ++ ys) e, frame-newline x xs e, ih) refl
      | inr e ↦ rw (frame-byte x (xs ++ ys) e, frame-byte x xs e, ih) (put-append x (frame xs) ys e)
    ]

joined-put :
    (b : ℕ) (X : List (List ℕ) × List ℕ) → joined (put b X).0 ++ (put b X).1 ≡ b ∷ joined X.0 ++ X.1
joined-put b ([], left) = refl
joined-put b (l ∷ ls, left) = refl

-- The bytes are the lines and what is left.
pub joined-frame : (bs : List ℕ) → joined (frame bs).0 ++ (frame bs).1 ≡ bs
unfolding frame
joined-frame [] = refl
joined-frame (b ∷ bs) = elim (Bool-cases (is_newline b)) [
  | inl e ↦ rw (e, (==_iff b 10).0 e) (ap (λ x. 10 ∷ x) (joined-frame bs))
  | inr e ↦ rw e (joined-put b (frame bs) ∙ ap (λ x. b ∷ x) (joined-frame bs))
]

module _ {V F : Type 0} (decode : List ℕ → String)
    (parse : String → Result (ParsedLine V F) RejectReason) (start : ℕ) where
  abbrev pub read_all : Cursor V F → List (List ℕ) → Cursor V F
  read_all = foldl (λ d l. read_line decode parse start l d)

  read_lines-step :
      (fuel : ℕ) (bs : List ℕ) (o : Option (List ℕ × List ℕ)) (c : Cursor V F)
      → Taken bs o
      → length bs < suc fuel
      → ((after : List ℕ) (d : Cursor V F)
          → length after < fuel
          → read_lines decode parse fuel start after d ≡ read_all d (frame after).0)
      → elim o [
        | none ↦ c
        | some (line, after) ↦
            read_lines decode parse fuel start after (read_line decode parse start line c)
      ]
        ≡ read_all c (frame bs).0
  read_lines-step fuel bs none c t h ih = rw t refl
  read_lines-step fuel bs (some (l, after)) c t h ih =
      rw t.0 (ih after (read_line decode parse start l c) (omega (arith, t.1, h)))

  -- With any fuel larger than the number of bytes, the loop comes to its end: it has processed
  -- exactly the newline-terminated lines of the bytes, in their order.
  pub read_lines-eq-foldl :
      (fuel : ℕ) (bs : List ℕ) (c : Cursor V F)
      → length bs < fuel
      → read_lines decode parse fuel start bs c ≡ read_all c (frame bs).0
  unfolding read_lines
  read_lines-eq-foldl zero bs c h = absurd (omega (arith, h))
  read_lines-eq-foldl (suc fuel) bs c h =
      read_lines-step fuel bs (take_line bs) c (take_line-frame bs) h (read_lines-eq-foldl fuel)
