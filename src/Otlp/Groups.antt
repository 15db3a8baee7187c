-- ===== src/Otlp/Groups.antt =====
-- crates/af-otlp/src/server.rs: the events of a batch by collector and session, in `append_envelopes`.
pub mod Laws
use agentic_footprint.Prelude.{
  String, ◌≡◌, ◌↔◌, ap, sym, refl, ◌∙◌, inl, inr, Bool, true, false, ◌&&◌, ◌||◌, Option, none, some,
  List, [], ◌∷◌, ◌++◌, str_eq, eq_iff, both, both_true, if◌then◌else◌, filter, unwrap_or,
  Bool-cases,
}
use agentic_footprint.Prelude.Keyed.{Key, str_lt, lookup, alter}
use agentic_footprint.Events.{Envelope}

abbrev pub pair_eq : String × String → String × String → Bool
pair_eq (a, b) (c, d) = str_eq a c && str_eq b d

pub pair_eq_iff : (p q : String × String) → (pair_eq p q ≡ true) ↔ (p ≡ q)
pair_eq_iff (a, b) (c, d) = (
  λ h.
      (let x = both (str_eq a c) (str_eq b d) h in
        λ i. ((eq_iff a c).0 x.0 i, (eq_iff b d).0 x.1 i)),
  λ p.
      both_true (str_eq a c) (str_eq b d) ((eq_iff a c).1 (ap (λ q. q.0) p))
        ((eq_iff b d).1 (ap (λ q. q.1) p)),
)

-- Pairs in the order of their first parts, and then of the second ones.
instance abbrev pub pair_key : Key (String × String)
pair_key = record {
  beq = pair_eq;
  beq_iff = pair_eq_iff;
  lt = λ p q. str_lt p.0 q.0 || str_eq p.0 q.0 && str_lt p.1 q.1;
}

abbrev pub destination : {F : Type 0} → Envelope F → String × String
destination e = (e.collector.name, e.session_id)

unfoldable pub add_events :
    {F : Type 0}
    → List ((String × String) × List (Envelope F))
    → List (Envelope F)
    → List ((String × String) × List (Envelope F))
add_events m [] = m
add_events m (e ∷ es) = add_events (alter (destination e) [] (λ xs. xs ++ e ∷ []) m) es

-- `by_collector_session`.
unfoldable pub group :
    {F : Type 0} → List (Envelope F) → List ((String × String) × List (Envelope F))
unfolding add_events
group es = add_events [] es
