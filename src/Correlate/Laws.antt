-- ===== src/Correlate/Laws.antt =====
-- Which events the session tree takes in.
use agentic_footprint.Prelude.{
  ℕ, ◌+◌, String, Bool, true, false, Option, none, some, List, [], ◌∷◌, filter, length,
  length-append, if◌then◌else◌, ◌≡◌, ◌∙◌, arith,
}
use agentic_footprint.Prelude.Int.{ℤ}
use agentic_footprint.Events.{
  Envelope, Payload, Attribution, ActionSpan, llm_call, energy_sample, action_span, process_sample,
  session_meta,
}
use agentic_footprint.Correlate.{
  SessionTree, no_tree, push_span, add_payload, add_events, correlate,
}

abbrev pub is_action_span : {F : Type 0} → Payload F → Bool
is_action_span (action_span _) = true
is_action_span _ = false

abbrev pub action_spans : {F : Type 0} → List (Envelope F) → ℕ
action_spans es = length (filter (λ (e : Envelope _). is_action_span e.payload) es)

-- The spans of a tree, and those that were skipped.
abbrev pub seen : SessionTree → ℕ
seen tree = length tree.spans + tree.skipped_events

seen-push_span :
    (parse_nanos : String → Option ℤ) (attribution : Option Attribution) (action : ActionSpan)
    (t0 t1 : Option ℤ) (tree : SessionTree)
    → seen (push_span parse_nanos attribution action t0 t1 tree) ≡ seen tree + 1
unfolding push_span
seen-push_span parse_nanos attribution action none t1 tree = omega arith
seen-push_span parse_nanos attribution action (some t0) none tree = omega arith
seen-push_span parse_nanos attribution action (some t0) (some t1) tree =
    omega (arith, length-append tree.spans (_ ∷ []))

module _ {F : Type 0} (parse_nanos : String → Option ℤ) where
  seen-add_payload :
      (attribution : Option Attribution) (payload : Payload F) (tree : SessionTree)
      → seen (add_payload parse_nanos attribution payload tree)
        ≡ seen tree + (if is_action_span payload then 1 else 0)
  unfolding add_payload
  seen-add_payload attribution (llm_call _) tree = omega arith
  seen-add_payload attribution (energy_sample _) tree = omega arith
  seen-add_payload attribution (action_span action) tree =
      seen-push_span parse_nanos attribution action _ _ tree
  seen-add_payload attribution (process_sample _) tree = omega arith
  seen-add_payload attribution (session_meta _) tree = omega arith

  action_spans-cons :
      (e : Envelope F) (es : List (Envelope F))
      → action_spans (e ∷ es) ≡ (if is_action_span e.payload then 1 else 0) + action_spans es
  action_spans-cons e es = ground arith

  seen-add_events :
      (tree : SessionTree) (es : List (Envelope F))
      → seen (add_events parse_nanos tree es) ≡ seen tree + action_spans es
  unfolding add_events
  seen-add_events tree [] = omega arith
  seen-add_events tree (e ∷ es) = omega (
    arith,
    seen-add_events (add_payload parse_nanos e.attribution e.payload tree) es,
    seen-add_payload e.attribution e.payload tree,
    action_spans-cons e es,
  )

  -- Each `action_span` event is a span of the tree or is counted as skipped, and no other event is.
  pub seen-correlate :
      (events : List (Envelope F))
      → length (correlate parse_nanos events).spans + (correlate parse_nanos events).skipped_events
        ≡ action_spans events
  unfolding correlate
  seen-correlate events = seen-add_events no_tree events ∙ omega arith
