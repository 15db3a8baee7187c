-- ===== src/Store/Derived.antt =====
-- crates/af-store/src/derived.rs: the tables that a replay can rebuild.
use agentic_footprint.Prelude.{
  ℕ, min, String, Bool, false, ◌&&◌, not, Option, none, some, List, [], foldl, filter, length, take,
  sort_by, is_some, str_eq, and_then,
}
use agentic_footprint.Prelude.Keyed.{string_key, lookup, alter}
use agentic_footprint.Json.{Json}
use agentic_footprint.Events.{Envelope}
use agentic_footprint.Join.Remote.{is_llm_call}
use agentic_footprint.Store.{Store, Estimate}
use agentic_footprint.Store.Raw.{in_order}

pub record ImpactEstimate (V : Type 0) : Type 0 where
  pub event_id : String
  pub methodology_version : String
  pub json : V

module _ {V F : Type 0} where
  unfoldable pub upsert_estimate : ImpactEstimate V → Store V F → Store V F
  unfolding alter
  upsert_estimate e s =
      let row : Estimate V = record {
        json = e.json;
        methodology_version = e.methodology_version;
      } in
      record s { impact_estimates = alter e.event_id row (λ _. row) s.impact_estimates }

  unfoldable pub estimates_for_events : List String → Store V F → List (String × V)
  unfolding alter lookup
  estimates_for_events ids s =
      foldl
        (λ out id. elim (lookup id s.impact_estimates) [
          | none ↦ out
          | some row ↦ alter id row.json (λ v. v) out
        ])
        [] ids

  unfoldable pub upsert_join : String → V → Store V F → Store V F
  unfolding alter
  upsert_join unit_key json s = record s {
    impact_joins = alter unit_key json (λ _. json) s.impact_joins;
  }

  unfoldable pub wipe_derived : Store V F → Store V F
  wipe_derived s = record s { impact_estimates = []; impact_joins = [] }

  -- The `WHERE` of the pending queries.
  unfoldable pub is_pending : Store V F → Envelope F → Bool
  unfolding lookup
  is_pending s e = is_llm_call e.payload && not (is_some (lookup e.event_id s.impact_estimates))

  unfoldable pub pending : Store V F → List (Envelope F)
  unfolding sort_by is_pending
  pending s = sort_by in_order (filter (is_pending s) s.raw_events)

  unfoldable pub llm_calls_without_estimate_limit : Option ℕ → Store V F → List (Envelope F)
  llm_calls_without_estimate_limit none s = pending s
  llm_calls_without_estimate_limit (some n) s = take (min n 9_223_372_036_854_775_807) (pending s)

  unfoldable pub count_llm_calls_without_estimate : Store V F → ℕ
  count_llm_calls_without_estimate s = length (filter (is_pending s) s.raw_events)

module _ {V F : Type 0} (j : Json V F) where
  abbrev session_of : V → Option String
  session_of json = and_then (and_then (j.get json "unit") (λ u. j.get u "session_id")) j.as_str

  abbrev is_session : String → Option String → Bool
  is_session session none = false
  is_session session (some s) = str_eq s session

  -- The map is sorted by `unit_key` already.
  unfoldable pub joins_for_session : String → Store V F → List (String × V)
  joins_for_session session s =
      filter (λ (e : String × V). is_session session (session_of e.1)) s.impact_joins
