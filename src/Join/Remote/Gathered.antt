-- ===== src/Join/Remote/Gathered.antt =====
-- join.rs: what the loop of `remote_estimated` gathers over the calls of a unit.
use mathlib.Core.List.{append_assoc, append-nil}
use agentic_footprint.Prelude.{
  ◌+◌, String, ◌≡◌, refl, sym, ap, ◌∙◌, ◌&&◌, Option, none, some, List, [], ◌∷◌, ◌++◌, filter_map,
  all, length, is_some, arith,
}
use agentic_footprint.Prelude.Keyed.{string_key, lookup}
use agentic_footprint.Json.{Json}
use agentic_footprint.Join.Remote.{LlmCallRef, Tally, status_of, usable, tally_call, tally_calls}

module _ {A B : Type 0} (g : A → Option B) where
  filter_map-cons :
      (x : A) (xs : List A) (o : Option B)
      → g x ≡ o
      → filter_map g (x ∷ xs) ≡ elim o [ none ↦ filter_map g xs | some y ↦ y ∷ filter_map g xs ]
  filter_map-cons x xs o h = rw (← h) refl

  all-cons :
      (x : A) (xs : List A) (o : Option B)
      → g x ≡ o
      → all (λ y. is_some (g y)) (x ∷ xs) ≡ (is_some o && all (λ y. is_some (g y)) xs)
  all-cons x xs o h = rw (← h) refl

module _ {V F : Type 0} (j : Json V F) where
  -- The estimate of a call, if it is one to sum.
  abbrev pub usable_estimate : List (String × V) → LlmCallRef → Option V
  usable_estimate estimates c = let e = lookup c.event_id estimates in usable j (status_of j e) e

  -- What the loop over the calls has gathered, from a state and the calls that are left.
  abbrev pub Gathered : List (String × V) → List LlmCallRef → Tally V → Tally V → Type 0
  Gathered estimates cs t u =
      (u.summable ≡ t.summable ++ filter_map (usable_estimate estimates) cs)
      × (u.complete ≡ (t.complete && all (λ c. is_some (usable_estimate estimates c)) cs))
      × (u.count ≡ t.count + length cs)

  -- What one call adds.
  Gathered-cons :
      (estimates : List (String × V)) (c : LlmCallRef) (cs : List LlmCallRef) (t t' u : Tally V)
      (a : Option V)
      → usable_estimate estimates c ≡ a
      → t'.summable ≡ elim a [ none ↦ t.summable | some value ↦ t.summable ++ value ∷ [] ]
      → t'.complete ≡ (t.complete && is_some a)
      → t'.count ≡ t.count + 1
      → Gathered estimates cs t' u
      → Gathered estimates (c ∷ cs) t u
  Gathered-cons estimates c cs t t' u a h s d n g =
      let used = usable_estimate estimates in
      let more = filter_map-cons used c cs a h in
      let every = all-cons used c cs a h in
      (
        g.0
            ∙ ap (λ xs. xs ++ filter_map used cs) s
            ∙ gathered a _ _
            ∙ sym (ap (λ xs. t.summable ++ xs) more),
        g.1 ∙ rw (every, d) (ground arith),
        omega (arith, g.2, n),
      )
    where
      gathered :
          (a : Option V) (xs ys : List V)
          → (elim a [ none ↦ xs | some value ↦ xs ++ value ∷ [] ]) ++ ys
            ≡ xs ++ (elim a [ none ↦ ys | some value ↦ value ∷ ys ])
      gathered none xs ys = refl
      gathered (some value) xs ys = append_assoc xs (value ∷ []) ys

  pub tally_calls-Gathered :
      (region : Option String) (estimates : List (String × V)) (cs : List LlmCallRef) (t : Tally V)
      → Gathered estimates cs t (tally_calls j region estimates cs t)
  unfolding tally_calls tally_call
  tally_calls-Gathered region estimates [] t =
      (sym (append-nil t.summable), ground arith, omega arith)
  tally_calls-Gathered region estimates (c ∷ cs) t =
      let t' = tally_call j region (lookup c.event_id estimates) t in
      Gathered-cons estimates c cs t t' (tally_calls j region estimates cs t')
        (usable_estimate estimates c) refl refl refl refl
        (tally_calls-Gathered region estimates cs t')
