-- ===== src/Otlp/Codex/Bound.antt =====
-- The providers that are remembered.
use agentic_footprint.Prelude.{
  ◌≤◌, suc, String, ◌≡◌, refl, sym, ap, ◌∙◌, inl, inr, Bool, true, false, ◌||◌, ◌&&◌, not, some,
  List, [], ◌∷◌, ◌++◌, length, length-append, any-append, is_some, ltb, str_eq, eq_iff, Bool-cases,
  arith, neither,
}
use agentic_footprint.Prelude.Keyed.{string_key, contains, lookup, alter}
use agentic_footprint.Prelude.Keyed.Lookups.{lookup-remove-other}
use agentic_footprint.Prelude.Keyed.Laws.{has, has-alter, has-remove, is_some-lookup, lookup-alter}
use agentic_footprint.Watch.Bounded.Window.{Distinct, Distinct-append}
use agentic_footprint.Otlp.Codex.Cache.{
  ProviderCache, provider_cache_cap, evict_oldest, insert, get,
}

-- The queue has each conversation that has a provider once, and no more of them than the cap.
pub record IsCache (c : ProviderCache) : Type 0 where
  pub mirror : (k : String) → has k c.by_conversation ≡ contains c.insertion_order k
  pub distinct : Distinct c.insertion_order
  pub bounded : length c.insertion_order ≤ provider_cache_cap

-- The states before the oldest conversation is forgotten.
IsCache-evict_oldest :
    (order : List String) (m : List (String × String))
    → Distinct order
    → ((k : String) → has k m ≡ contains order k)
    → length order ≤ suc provider_cache_cap
    → IsCache (evict_oldest order m)
IsCache-evict_oldest [] m d f b = record { mirror = f; distinct = tt; bounded = omega arith }
IsCache-evict_oldest (x ∷ xs) m d f b = record {
  mirror = λ k. has-remove x k m ∙ ap (λ a. a && not (str_eq x k)) (f k) ∙ others k;
  distinct = d.1;
  bounded = omega (arith, b);
}
  where
    others : (k : String) → ((str_eq x k || contains xs k) && not (str_eq x k)) ≡ contains xs k
    others k = elim (Bool-cases (str_eq x k)) [
      | inl e ↦ (let p : x ≡ k = (eq_iff x k).0 e in rw e (sym (rw p at d.0)))
      | inr e ↦ rw e (ground arith)
    ]

module _ (conversation provider : String) (c : ProviderCache) (w : IsCache c) where
  abbrev with_provider : List (String × String)
  with_provider = alter conversation provider (λ _. provider) c.by_conversation

  known-mirror :
      is_some (lookup conversation c.by_conversation) ≡ true
      → (k : String) → has k with_provider ≡ contains c.insertion_order k
  known-mirror h k =
      has-alter conversation k provider (λ _. provider) c.by_conversation ∙ same ∙ w.mirror k
    where
      there : has conversation c.by_conversation ≡ true
      there = sym (is_some-lookup conversation c.by_conversation) ∙ h

      same : (str_eq conversation k || has k c.by_conversation) ≡ has k c.by_conversation
      same = elim (Bool-cases (str_eq conversation k)) [
        | inl e ↦
            (let p : conversation ≡ k = (eq_iff conversation k).0 e in rw e (sym (rw p at there)))
        | inr e ↦ rw e refl
      ]

  new-mirror :
      (k : String) → has k with_provider ≡ contains (c.insertion_order ++ conversation ∷ []) k
  new-mirror k =
      let a = has-alter conversation k provider (λ _. provider) c.by_conversation in
      let b = any-append (λ y. str_eq y k) c.insertion_order (conversation ∷ []) in
      a
      ∙ ap (λ x. str_eq conversation k || x) (w.mirror k)
      ∙ turn (str_eq conversation k) (contains c.insertion_order k)
      ∙ sym b
    where
      turn : (a b : Bool) → (a || b) ≡ (b || (a || false))
      turn a true = ground arith
      turn a false = ground arith

  new-absent :
      is_some (lookup conversation c.by_conversation) ≡ false
      → contains c.insertion_order conversation ≡ false
  new-absent h =
      sym (w.mirror conversation) ∙ sym (is_some-lookup conversation c.by_conversation) ∙ h

  IsCache-insert : IsCache (insert conversation provider c)
  unfolding insert
  IsCache-insert = elim (Bool-cases (is_some (lookup conversation c.by_conversation))) [
    | inl e ↦ rw e (record { mirror = known-mirror e; distinct = w.distinct; bounded = w.bounded })
    | inr e ↦
        (let order = c.insertion_order ++ conversation ∷ [] in
          let d = Distinct-append c.insertion_order conversation w.distinct (new-absent e) in
          let n = length-append c.insertion_order (conversation ∷ []) in
          let b = w.bounded in
          elim (Bool-cases (ltb provider_cache_cap (length order))) [
            | inl a ↦
                rw (e, a)
                  (IsCache-evict_oldest order with_provider d new-mirror (omega (arith, n, b)))
            | inr a ↦
                rw (e, a)
                  (record { mirror = new-mirror; distinct = d; bounded = ground (arith, a) })
          ])
  ]

  -- The oldest conversation is another one.
  lookup-evict_oldest :
      (order : List String)
      → contains order conversation ≡ false
      → (ltb provider_cache_cap (length (order ++ conversation ∷ []))) ≡ true
      → lookup conversation
          (evict_oldest (order ++ conversation ∷ []) with_provider).by_conversation
        ≡ some provider
  lookup-evict_oldest [] h e = absurd (cc)
  lookup-evict_oldest (x ∷ xs) h e =
      lookup-remove-other x conversation with_provider
        (neither (str_eq x conversation) (contains xs conversation) h).0
      ∙ lookup-alter conversation provider c.by_conversation

  get-insert : get conversation (insert conversation provider c) ≡ some provider
  unfolding get insert
  get-insert = elim (Bool-cases (is_some (lookup conversation c.by_conversation))) [
    | inl e ↦ rw e (lookup-alter conversation provider c.by_conversation)
    | inr e ↦
        elim (Bool-cases
          (ltb provider_cache_cap (length (c.insertion_order ++ conversation ∷ [])))) [
            | inl a ↦ rw (e, a) (lookup-evict_oldest c.insertion_order (new-absent e) a)
            | inr a ↦ rw (e, a) (lookup-alter conversation provider c.by_conversation)
          ]
  ]

  -- Remembering a provider keeps the queue and the map with the same conversations, each once, and
  -- the queue within the cap, and the provider is found, whatever was forgotten for it.
  pub insert_lem :
      IsCache (insert conversation provider c)
      × (get conversation (insert conversation provider c) ≡ some provider)
  insert_lem = (IsCache-insert, get-insert)
