-- ===== src/Join/Coverage/Union.antt =====
-- join.rs: the merged windows, beside the windows of the samples.
use agentic_footprint.Prelude.{
  String, ◌≡◌, refl, ap, ◌∙◌, Bool, true, false, ◌&&◌, ◌||◌, Option, List, [], ◌∷◌, any, filter_map,
  sort_by, insert_by, arith, Bool-cases, inl, inr,
}
use agentic_footprint.Prelude.Int.{ℤ, ◌≤ℤ◌, leb_ℤ, ltb_ℤ, max_ℤ}
use agentic_footprint.Events.{Envelope}
use agentic_footprint.Join.Coverage.{
  Interval, before, extend, merge, merge_sorted, energy_window, energy_coverage_windows,
}

-- Whether a time lies in a half-open interval.
abbrev pub inside : ℤ → Interval → Bool
inside x w = leb_ℤ w.0 x && ltb_ℤ x w.1

-- The starts ascend, from a bound on.
abbrev Ascending : ℤ → List Interval → Type 0
Ascending a [] = Unit
Ascending a (w ∷ ws) = (a ≤ℤ w.0) × Ascending w.0 ws

Ascending-from : (a b : ℤ) (ws : List Interval) → a ≤ℤ b → Ascending b ws → Ascending a ws
Ascending-from a b [] h k = tt
Ascending-from a b (w ∷ ws) h k = (omega (arith, h, k.0), k.1)

or_assoc : (a b c : Bool) → ((a || b) || c) ≡ (a || (b || c))
or_assoc true b c = refl
or_assoc false b c = refl

or_swap : (a b c : Bool) → (a || (b || c)) ≡ (b || (a || c))
or_swap true true c = refl
or_swap true false c = refl
or_swap false b c = refl

inside-max :
    (x a b c d : ℤ)
    → a ≤ℤ c
    → leb_ℤ c b ≡ true
    → inside x (a, max_ℤ b d) ≡ (inside x (a, b) || inside x (c, d))
inside-max x a b c d h k = ground arith

extend-joined :
    (last w : Interval) (ws : List Interval)
    → leb_ℤ w.0 last.1 ≡ true
    → extend last (w ∷ ws) ≡ extend (last.0, max_ℤ last.1 w.1) ws
unfolding extend
extend-joined last w ws e = rw (e, extend) refl

extend-apart :
    (last w : Interval) (ws : List Interval)
    → leb_ℤ w.0 last.1 ≡ false
    → extend last (w ∷ ws) ≡ last ∷ extend w ws
unfolding extend
extend-apart last w ws e = rw (e, extend) refl

any-extend :
    (x : ℤ) (last : Interval) (ws : List Interval)
    → Ascending last.0 ws
    → any (inside x) (extend last ws) ≡ (inside x last || any (inside x) ws)
any-extend x last [] h = unfold extend in refl
any-extend x last (w ∷ ws) h =
    let joined =
      any-extend x (last.0, max_ℤ last.1 w.1) ws (Ascending-from last.0 w.0 ws h.0 h.1) in
    let apart = any-extend x w ws h.1 in
    elim (Bool-cases (leb_ℤ w.0 last.1)) [
      | inl e ↦
          ap (any (inside x)) (extend-joined last w ws e)
          ∙ joined
          ∙ ap (λ b. b || any (inside x) ws) (inside-max x last.0 last.1 w.0 w.1 h.0 e)
          ∙ or_assoc (inside x last) (inside x w) (any (inside x) ws)
      | inr e ↦ ap (any (inside x)) (extend-apart last w ws e) ∙ ap (λ b. inside x last || b) apart
    ]

-- Sorting by the order of pairs.
before-false : (a b : Interval) → before a b ≡ false → b.0 ≤ℤ a.0
before-false a b h = ground arith

before-true : (a b : Interval) → before a b ≡ true → a.0 ≤ℤ b.0
before-true a b h = ground arith

Ascending-insert_by :
    (a : ℤ) (w : Interval) (ws : List Interval)
    → a ≤ℤ w.0
    → Ascending a ws
    → Ascending a (insert_by before w ws)
unfolding insert_by
Ascending-insert_by a w [] h k = (h, tt)
Ascending-insert_by a w (v ∷ vs) h k = elim (Bool-cases (before v w)) [
  | inl e ↦ rw e (k.0, Ascending-insert_by v.0 w vs (before-true v w e) k.1)
  | inr e ↦ rw e (h, (before-false v w e, k.1))
]

any-insert_by :
    (p : Interval → Bool) (w : Interval) (ws : List Interval)
    → any p (insert_by before w ws) ≡ (p w || any p ws)
unfolding insert_by
any-insert_by p w [] = refl
any-insert_by p w (v ∷ vs) = elim (Bool-cases (before v w)) [
  | inl e ↦ rw e (ap (λ b. p v || b) (any-insert_by p w vs) ∙ or_swap (p v) (p w) (any p vs))
  | inr e ↦ rw e refl
]

any-sort_by : (p : Interval → Bool) (ws : List Interval) → any p (sort_by before ws) ≡ any p ws
unfolding sort_by
any-sort_by p [] = refl
any-sort_by p (w ∷ ws) =
    any-insert_by p w (sort_by before ws) ∙ ap (λ b. p w || b) (any-sort_by p ws)

abbrev Sorted : List Interval → Type 0
Sorted [] = Unit
Sorted (w ∷ ws) = Ascending w.0 ws

Sorted-insert_by : (w : Interval) (ws : List Interval) → Sorted ws → Sorted (insert_by before w ws)
unfolding insert_by
Sorted-insert_by w [] h = tt
Sorted-insert_by w (v ∷ vs) h = elim (Bool-cases (before v w)) [
  | inl e ↦ rw e (Ascending-insert_by v.0 w vs (before-true v w e) h)
  | inr e ↦ rw e (before-false v w e, h)
]

Sorted-sort_by : (ws : List Interval) → Sorted (sort_by before ws)
unfolding sort_by
Sorted-sort_by [] = tt
Sorted-sort_by (w ∷ ws) = Sorted-insert_by w (sort_by before ws) (Sorted-sort_by ws)

any-merge : (x : ℤ) (ws : List Interval) → Sorted ws → any (inside x) (merge ws) ≡ any (inside x) ws
unfolding merge
any-merge x [] h = refl
any-merge x (w ∷ ws) h = any-extend x w ws h

-- A time lies in one of the merged windows of a session exactly when it lies in the window of one of its energy
-- samples with timestamps and a positive length: merging neither loses nor adds time.
pub energy_coverage_windows-inside :
    {F : Type 0} (parse_nanos : String → Option ℤ) (events : List (Envelope F)) (x : ℤ)
    → any (inside x) (energy_coverage_windows parse_nanos events)
      ≡ any (inside x) (filter_map (λ (e : Envelope F). energy_window parse_nanos e.payload) events)
unfolding energy_coverage_windows merge_sorted
energy_coverage_windows-inside parse_nanos events x =
    let windows = filter_map (λ (e : Envelope _). energy_window parse_nanos e.payload) events in
    any-merge x (sort_by before windows) (Sorted-sort_by windows) ∙ any-sort_by (inside x) windows
