-- ===== src/Otlp/Groups/Laws.antt =====
-- crates/af-otlp/src/server.rs: the groups of a batch's events, in `append_envelopes`.
use agentic_footprint.Prelude.{
  String, ◌≡◌, refl, sym, ap, ◌∙◌, inl, inr, Bool, List, [], ◌∷◌, ◌++◌, filter, unwrap_or,
  Bool-cases,
}
use agentic_footprint.Prelude.Keyed.{lookup, alter}
use agentic_footprint.Prelude.Keyed.Lookups.{lookup-alter-same, lookup-alter-other}
use agentic_footprint.Events.{Envelope}
use agentic_footprint.Otlp.Groups.{pair_eq, pair_eq_iff, pair_key, destination, add_events, group}

abbrev pub events_at :
    {F : Type 0}
    → String × String
    → List ((String × String) × List (Envelope F))
    → List (Envelope F)
events_at key m = unwrap_or (lookup key m) []

abbrev pub goes_to : {F : Type 0} → String × String → Envelope F → Bool
goes_to key e = pair_eq (destination e) key

append_assoc {ℓ} : {A : Type ℓ} (xs ys zs : List A) → (xs ++ ys) ++ zs ≡ xs ++ (ys ++ zs)
append_assoc [] ys zs = refl
append_assoc (x ∷ xs) ys zs = ap (λ ws. x ∷ ws) (append_assoc xs ys zs)

append_nil {ℓ} : {A : Type ℓ} (xs : List A) → xs ++ [] ≡ xs
append_nil [] = refl
append_nil (x ∷ xs) = ap (λ ys. x ∷ ys) (append_nil xs)

module _ {F : Type 0} where
  filter-one :
      (key : String × String) (e : Envelope F) (es : List (Envelope F))
      → filter (goes_to key) (e ∷ []) ++ filter (goes_to key) es ≡ filter (goes_to key) (e ∷ es)
  filter-one key e es = elim (Bool-cases (goes_to key e)) [ inl h ↦ rw h refl | inr h ↦ rw h refl ]

  events_at-alter :
      (key : String × String) (e : Envelope F) (m : List ((String × String) × List (Envelope F)))
      → events_at key (alter (destination e) [] (λ xs. xs ++ e ∷ []) m)
        ≡ events_at key m ++ filter (goes_to key) (e ∷ [])
  events_at-alter key e m = elim (Bool-cases (pair_eq (destination e) key)) [
    | inl h ↦
        (let p : destination e ≡ key = (pair_eq_iff (destination e) key).0 h in
          rw h (
            ap (λ o. unwrap_or o [])
              (ap (λ q. lookup q (alter (destination e) [] (λ xs. xs ++ e ∷ []) m)) (sym p)
                ∙ lookup-alter-same (destination e) [] (λ xs. xs ++ e ∷ []) m)
            ∙ ap (λ q. events_at q m ++ e ∷ []) p))
    | inr h ↦ rw h (
        ap (λ o. unwrap_or o [])
          (lookup-alter-other (destination e) key [] (λ xs. xs ++ e ∷ []) m h)
        ∙ sym (append_nil (events_at key m)))
  ]

  events_at-add_events :
      (key : String × String) (es : List (Envelope F))
      (m : List ((String × String) × List (Envelope F)))
      → events_at key (add_events m es) ≡ events_at key m ++ filter (goes_to key) es
  unfolding add_events
  events_at-add_events key [] m = sym (append_nil (events_at key m))
  events_at-add_events key (e ∷ es) m =
      events_at-add_events key es (alter (destination e) [] (λ xs. xs ++ e ∷ []) m)
      ∙ ap (λ xs. xs ++ filter (goes_to key) es) (events_at-alter key e m)
      ∙ append_assoc (events_at key m) (filter (goes_to key) (e ∷ [])) (filter (goes_to key) es)
      ∙ ap (λ xs. events_at key m ++ xs) (filter-one key e es)

  -- The events that are grouped under a collector and a session are those of the batch that carry
  -- both names, in their order.
  pub group_lem :
      (key : String × String) (es : List (Envelope F))
      → unwrap_or (lookup key (group es)) [] ≡ filter (goes_to key) es
  unfolding group lookup
  group_lem key es = events_at-add_events key es []
