-- ===== src/Estimate/Loop.antt =====
-- One step of a pass over the backlog, and its loop.
use agentic_footprint.Prelude.{
  ℕ, ◌+◌, ◌<◌, String, Bool, true, ◌&&◌, ◌||◌, Option, none, some, List, [], ◌∷◌, str_eq,
  if◌then◌else◌, All, filter, length, ◌≡◌, refl, ap, ◌∙◌, arith, eq_refl,
}
use agentic_footprint.Prelude.Keyed.{string_key}
use agentic_footprint.Prelude.Keyed.Laws.{has, has-alter}
use agentic_footprint.Float.{Float}
use agentic_footprint.Json.{Json, get_str}
use agentic_footprint.Events.{
  Envelope, Payload, LlmCall, llm_call, energy_sample, action_span, process_sample, session_meta,
}
use agentic_footprint.Events.Validate.{Result, ok, err}
use agentic_footprint.Join.Remote.{is_llm_call}
use agentic_footprint.Store.{Store, Estimate}
use agentic_footprint.Store.Derived.{ImpactEstimate, upsert_estimate}
use agentic_footprint.Estimate.{
  EstimationRegion, EstimationOutcome, processed, count_status, Pass, store_response, with_tokens,
  response_row, missing_usage_row, estimate_call, estimate_payload, go_on, estimate_loop,
}

abbrev pub has_row : {V F : Type 0} → String → Store V F → Bool
has_row id s = has id s.impact_estimates

has_row-upsert_estimate :
    {V F : Type 0} (id : String) (e : ImpactEstimate V) (s : Store V F)
    → has_row id (upsert_estimate e s) ≡ (str_eq e.event_id id || has_row id s)
unfolding upsert_estimate
has_row-upsert_estimate {V} {F} id e s =
    let row : Estimate V = record { json = e.json; methodology_version = e.methodology_version } in
    has-alter e.event_id id row (λ _. row) s.impact_estimates

raw_events-upsert_estimate :
    {V F : Type 0} (e : ImpactEstimate V) (s : Store V F)
    → (upsert_estimate e s).raw_events ≡ s.raw_events
unfolding upsert_estimate
raw_events-upsert_estimate e s = refl

count_status-processed :
    (status : Option String) (o : EstimationOutcome)
    → processed (count_status status o) ≡ processed o + 1
unfolding count_status
count_status-processed none o = omega arith
count_status-processed (some s) o = ground arith

abbrev pub calls : {F : Type 0} → List (Envelope F) → ℕ
calls es = length (filter (λ (e : Envelope _). is_llm_call e.payload) es)

module _ {V F : Type 0} (j : Json V F) ⦃f : Float F⦄ {S E : Type 0}
    (request : V → S → Result V E × S) (region : EstimationRegion) where
  -- What one event's step does to the pass.
  abbrev Stepped : String → Bool → Pass V F S → Result (Unit {0}) E × Pass V F S → Type 0
  Stepped id is_call p (err e, q) = (q.store ≡ p.store) × (q.outcome ≡ p.outcome) × (is_call ≡ true)
  Stepped id is_call p (ok _, q) =
      (q.store.raw_events ≡ p.store.raw_events)
      × ((x : String) → has_row x q.store ≡ ((is_call && str_eq id x) || has_row x p.store))
      × (processed q.outcome ≡ processed p.outcome + (if is_call then 1 else 0))

  store_response-Stepped :
      (id : String) (r : Result V E × S) (p : Pass V F S)
      → Stepped id true p (store_response j request region id r p)
  unfolding store_response response_row
  store_response-Stepped id (err e, sidecar) p = (refl, refl, refl)
  store_response-Stepped id (ok response, sidecar) p = (
    raw_events-upsert_estimate _ p.store,
    λ x. has_row-upsert_estimate x _ p.store,
    count_status-processed (get_str j response "status") p.outcome,
  )

  estimate_call-Stepped :
      (id : String) (call : LlmCall) (tokens : Option ℕ) (p : Pass V F S)
      → Stepped id true p (estimate_call j request region id call tokens p)
  unfolding estimate_call missing_usage_row
  estimate_call-Stepped id call none p =
      (raw_events-upsert_estimate _ p.store, λ x. has_row-upsert_estimate x _ p.store, omega arith)
  estimate_call-Stepped id call (some n) p =
      store_response-Stepped id (request (with_tokens j request region call n) p.sidecar) p

  estimate_payload-Stepped :
      (id : String) (payload : Payload F) (p : Pass V F S)
      → Stepped id (is_llm_call payload) p (estimate_payload j request region id payload p)
  unfolding estimate_payload
  estimate_payload-Stepped id (llm_call call) p =
      estimate_call-Stepped id call call.usage.output_tokens p
  estimate_payload-Stepped id (energy_sample s) p = (refl, λ x. refl, omega arith)
  estimate_payload-Stepped id (action_span s) p = (refl, λ x. refl, omega arith)
  estimate_payload-Stepped id (process_sample s) p = (refl, λ x. refl, omega arith)
  estimate_payload-Stepped id (session_meta m) p = (refl, λ x. refl, omega arith)

  -- What the whole loop does.
  abbrev pub Looped : List (Envelope F) → Pass V F S → Result (Unit {0}) E × Pass V F S → Type 0
  Looped es p (err e, q) =
      (q.store.raw_events ≡ p.store.raw_events)
      × (processed q.outcome < processed p.outcome + calls es)
  Looped es p (ok _, q) =
      (q.store.raw_events ≡ p.store.raw_events)
      × (processed q.outcome ≡ processed p.outcome + calls es)
      × ((x : String) → has_row x p.store ≡ true → has_row x q.store ≡ true)
      × All (λ (e : Envelope F). is_llm_call e.payload ≡ true → has_row e.event_id q.store ≡ true)
          es

  calls-cons :
      (e : Envelope F) (es : List (Envelope F))
      → calls (e ∷ es) ≡ (if is_llm_call e.payload then 1 else 0) + calls es
  calls-cons e es = ground arith

  -- The rest of the loop, after an event that went well.
  rest-Looped :
      (e : Envelope F) (es : List (Envelope F)) (p q : Pass V F S) (u : Unit {0})
      (r : Result (Unit {0}) E × Pass V F S)
      → Stepped e.event_id (is_llm_call e.payload) p (ok u, q)
      → Looped es q r
      → Looped (e ∷ es) p r
  rest-Looped e es p q u (err x, r) h k = (k.0 ∙ h.0, omega (arith, k.1, h.2, calls-cons e es))
  rest-Looped e es p q u (ok _, r) h k =
      let kept : (x : String) → has_row x p.store ≡ true → has_row x q.store ≡ true =
        λ x a. h.1 x ∙ rw a (ground arith) in
      (
        k.0 ∙ h.0,
        omega (arith, k.1, h.2, calls-cons e es),
        λ x a. k.2 x (kept x a),
        (λ a. k.2 e.event_id (h.1 e.event_id ∙ rw (a, eq_refl e.event_id) refl), k.3),
      )

  go_on-Looped :
      (e : Envelope F) (es : List (Envelope F)) (p : Pass V F S)
      (r : Result (Unit {0}) E × Pass V F S)
      → ((q : Pass V F S) → Looped es q (estimate_loop j request region es q))
      → Stepped e.event_id (is_llm_call e.payload) p r
      → Looped (e ∷ es) p (go_on j request region (estimate_loop j request region es) r)
  go_on-Looped e es p (err x, q) ih h =
      let counted : ℕ = 1 in
      let one : (if is_llm_call e.payload then counted else 0) ≡ counted = rw h.2 refl in
      (
        ap (λ (s : Store V F). s.raw_events) h.0,
        omega (arith, ap processed h.1, calls-cons e es, one),
      )
  go_on-Looped e es p (ok u, q) ih h =
      rest-Looped e es p q u (estimate_loop j request region es q) h (ih q)

  pub estimate_loop-Looped :
      (es : List (Envelope F)) (p : Pass V F S) → Looped es p (estimate_loop j request region es p)
  unfolding estimate_loop
  estimate_loop-Looped [] p = (refl, omega arith, λ x h. h, tt)
  estimate_loop-Looped (e ∷ es) p =
      go_on-Looped e es p (estimate_payload j request region e.event_id e.payload p)
        (estimate_loop-Looped es) (estimate_payload-Stepped e.event_id e.payload p)
