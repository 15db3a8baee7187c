-- ===== src/Estimate/Laws.antt =====
-- What a pass over the backlog leaves in the store and in its outcome.
use mathlib.Core.Path.{subst}
use agentic_footprint.Prelude.{
  ℕ, ◌<◌, String, Bool, true, false, ◌&&◌, not, List, [], ◌∷◌, All, filter, length, sort_by,
  insert_by, ◌≡◌, refl, sym, ap, ◌∙◌, arith, Bool-cases, inl, inr, false≢true,
}
use agentic_footprint.Prelude.Keyed.{string_key}
use agentic_footprint.Prelude.Keyed.Laws.{is_some-lookup}
use agentic_footprint.Float.{Float}
use agentic_footprint.Json.{Json}
use agentic_footprint.Events.{Envelope}
use agentic_footprint.Events.Validate.{Result, ok, err}
use agentic_footprint.Join.Remote.{is_llm_call}
use agentic_footprint.Store.{Store}
use agentic_footprint.Store.Raw.{in_order}
use agentic_footprint.Store.Derived.{
  llm_calls_without_estimate_limit, pending, is_pending, count_llm_calls_without_estimate,
}
use agentic_footprint.Estimate.{
  EstimationRegion, processed, Pass, no_outcome, estimate_loop, estimate_events,
  estimate_pending_limit, estimate_pending,
}
use agentic_footprint.Estimate.Loop.{has_row, calls, Looped, estimate_loop-Looped}

All-insert_by :
    {A : Type 0} (P : A → Type 0) (lt : A → A → Bool) (x : A) (ys : List A)
    → All P (insert_by lt x ys)
    → P x × All P ys
unfolding insert_by
All-insert_by P lt x [] h = h
All-insert_by P lt x (y ∷ ys) h = elim (Bool-cases (lt y x)) [
  | inl e ↦ (let k = rw e at h in let r = All-insert_by P lt x ys k.1 in (r.0, (k.0, r.1)))
  | inr e ↦ rw e at h
]

All-sort_by :
    {A : Type 0} (P : A → Type 0) (lt : A → A → Bool) (xs : List A)
    → All P (sort_by lt xs)
    → All P xs
unfolding sort_by
All-sort_by P lt [] h = h
All-sort_by P lt (x ∷ xs) h =
    let r = All-insert_by P lt x (sort_by lt xs) h in (r.0, All-sort_by P lt xs r.1)

-- What holds of each selected element, and of each other one, holds of none that is selected after.
length-filter-All :
    {A : Type 0} (p q : A → Bool) (xs : List A)
    → ((x : A) → p x ≡ false → q x ≡ false)
    → All (λ x. q x ≡ false) (filter p xs)
    → length (filter q xs) ≡ 0
length-filter-All p q [] other h = refl
length-filter-All p q (x ∷ xs) other h = elim (Bool-cases (p x)) [
  | inl e ↦ (let k = rw e at h in rw k.0 (length-filter-All p q xs other k.1))
  | inr e ↦ (let k = rw e at h in rw (other x e) (length-filter-All p q xs other k))
]

All-map :
    {A : Type 0} (P Q : A → Type 0) → ((x : A) → P x → Q x) → (xs : List A) → All P xs → All Q xs
All-map P Q f [] h = tt
All-map P Q f (x ∷ xs) h = (f x h.0, All-map P Q f xs h.1)

is_pending_lem :
    {V F : Type 0} (s : Store V F) (e : Envelope F)
    → is_pending s e ≡ (is_llm_call e.payload && not (has_row e.event_id s))
unfolding is_pending
is_pending_lem s e =
    ap (λ b. is_llm_call e.payload && not b) (is_some-lookup e.event_id s.impact_estimates)

-- The number of processed events: all, when the pass went well, and fewer, when it ended with an error.
abbrev pub Counted : {V F S E : Type 0} → ℕ → Result (Unit {0}) E × Pass V F S → Type 0
Counted n (ok _, p) = processed p.outcome ≡ n
Counted n (err _, p) = processed p.outcome < n

module _ {V F : Type 0} (j : Json V F) ⦃f : Float F⦄ {S E : Type 0}
    (request : V → S → Result V E × S) (region : EstimationRegion) where
  abbrev begun : Store V F → S → Pass V F S
  begun store sidecar = record { store = store; sidecar = sidecar; outcome = no_outcome }

  from_start :
      (es : List (Envelope F)) (p : Pass V F S) (r : Result (Unit {0}) E × Pass V F S)
      → processed p.outcome ≡ 0
      → Looped j request region es p r
      → (r.1.store.raw_events ≡ p.store.raw_events) × Counted (calls es) r
  from_start es p (ok _, q) z h = (h.0, omega (arith, h.1, z))
  from_start es p (err _, q) z h = (h.0, omega (arith, h.1, z))

  -- A pass over some events that ends without an error counts each `llm_call` once, and one that ends with an error has
  -- counted fewer. In both cases the raw events are as they were.
  pub estimate_events-processed :
      (es : List (Envelope F)) (store : Store V F) (sidecar : S)
      → let r = estimate_events j request region es store sidecar in
        (r.1.store.raw_events ≡ store.raw_events) × Counted (calls es) r
  unfolding estimate_events
  estimate_events-processed es store sidecar =
      from_start es (begun store sidecar) (estimate_loop j request region es (begun store sidecar))
        refl (estimate_loop-Looped j request region es (begun store sidecar))

  not_pending :
      (s : Store V F) (e : Envelope F)
      → (is_llm_call e.payload ≡ true → has_row e.event_id s ≡ true)
      → is_pending s e ≡ false
  not_pending s e k = elim (Bool-cases (is_llm_call e.payload)) [
    | inl c ↦ rw (is_pending_lem s e, c, k c) refl
    | inr c ↦ rw (is_pending_lem s e, c) refl
  ]

  still_not_pending :
      (s t : Store V F) (e : Envelope F)
      → ((x : String) → has_row x s ≡ true → has_row x t ≡ true)
      → is_pending s e ≡ false
      → is_pending t e ≡ false
  still_not_pending s t e keeps h = not_pending t e (λ c. elim (Bool-cases (has_row e.event_id s)) [
    | inl r ↦ keeps e.event_id r
    | inr r ↦ absurd (false≢true (sym h ∙ is_pending_lem s e ∙ rw (c, r) refl))
  ])

  done :
      (p q : Pass V F S)
      → Looped j request region (pending p.store) p (ok tt, q)
      → count_llm_calls_without_estimate q.store ≡ 0
  unfolding count_llm_calls_without_estimate pending
  done p q h = rw h.0 (
      length-filter-All (is_pending p.store) (is_pending q.store) p.store.raw_events
        (λ e k. still_not_pending p.store q.store e h.2 k)
        (All-map _ _ (not_pending q.store) (filter (is_pending p.store) p.store.raw_events)
          (All-sort_by _ in_order (filter (is_pending p.store) p.store.raw_events) h.3)))

  -- After a pass over the whole backlog that ends without an error, no `llm_call` is pending.
  pub estimate_pending-done :
      (store : Store V F) (sidecar : S) (p : Pass V F S)
      → estimate_pending j request region store sidecar ≡ (ok tt, p)
      → count_llm_calls_without_estimate p.store ≡ 0
  unfolding estimate_pending estimate_pending_limit estimate_events llm_calls_without_estimate_limit
  estimate_pending-done store sidecar p h =
      let b = begun store sidecar in
      done b p (
        subst (Looped j request region (pending store) b) h
          (estimate_loop-Looped j request region (pending store) b))
