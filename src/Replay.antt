-- ===== src/Replay.antt =====
-- crates/af-core/src/replay.rs: the derived tables, rebuilt from the raw events.
pub mod Laws
use agentic_footprint.Prelude.{
  ℕ, ◌+◌, String, Bool, true, false, ◌&&◌, not, Option, none, some, List, [], ◌∷◌, ◌++◌, map, foldl,
  filter, filter_map, length, is_some, str_eq, if◌then◌else◌,
}
use agentic_footprint.Prelude.Int.{ℤ}
use agentic_footprint.Prelude.Keyed.{string_key, contains}
use agentic_footprint.Float.{Float}
use agentic_footprint.Json.{Json}
use agentic_footprint.Events.{
  Envelope, Payload, EnergySample, ProcessSample, energy_sample, process_sample,
}
use agentic_footprint.Events.Validate.{Result, ok, err}
use agentic_footprint.Correlate.{SessionTree, correlate}
use agentic_footprint.Attribution.Types.{Apportionment}
use agentic_footprint.Attribution.Run.{apportion}
use agentic_footprint.Join.Remote.{is_llm_call, stale_zone_estimates}
use agentic_footprint.Join.Local.{Zone, ZoneFactors, unresolved, zone_factors}
use agentic_footprint.Join.Units.{ImpactJoin, build_joins}
use agentic_footprint.Store.{Store}
use agentic_footprint.Store.Raw.{SessionSummary, session_summaries, events_for_session}
use agentic_footprint.Store.Derived.{
  wipe_derived, upsert_join, estimates_for_events, count_llm_calls_without_estimate,
}
use agentic_footprint.Estimate.{EstimationRegion, EstimationOutcome, Pass, estimate_pending}

-- The degradation notes, each with what its text names.
pub data Note (E : Type 0) : Type 0 where
  forced_wipe : Note E
  unknown_zone : String → Note E
  zone_factors_failed : E → Note E
  estimation_failed : E → Note E
  stale_estimates : String → ℕ → String → String → Note E

pub record RebuildOutcome (F E : Type 0) : Type 0 where
  pub zone : Zone F
  pub estimation : Option EstimationOutcome
  pub pending_llm_calls : ℕ
  pub wiped : Bool
  pub sessions : ℕ
  pub joins : ℕ
  pub notes : List (Note E)

-- The payloads of one session, by kind.
abbrev pub energy_of : {F : Type 0} → Payload F → Option (EnergySample F)
energy_of (energy_sample s) = some s
energy_of _ = none

abbrev pub process_of : {F : Type 0} → Payload F → Option ProcessSample
process_of (process_sample s) = some s
process_of _ = none

abbrev pub energy_samples : {F : Type 0} → List (Envelope F) → List (EnergySample F)
energy_samples = filter_map (λ (e : Envelope _). energy_of e.payload)

abbrev pub process_samples : {F : Type 0} → List (Envelope F) → List ProcessSample
process_samples = filter_map (λ (e : Envelope _). process_of e.payload)

abbrev pub llm_event_ids : {F : Type 0} → List (Envelope F) → List String
llm_event_ids events =
    map (λ (e : Envelope _). e.event_id) (filter (λ (e : Envelope _). is_llm_call e.payload) events)

-- `sessions`: only the named ones, if any are named.
abbrev pub is_visited : Option (List String) → SessionSummary → Bool
is_visited none s = true
is_visited (some only) s = contains only s.session_id

-- The `bail!` of a wipe that has no estimator to recompute from.
pub data Refusal : Type 0 where
  no_estimator : Refusal

-- What the loop over the sessions changes.
pub record Rebuilt (V F E : Type 0) : Type 0 where
  pub store : Store V F
  pub joins : ℕ
  pub notes : List (Note E)

module _ {V F : Type 0} (j : Json V F) ⦃f : Float F⦄ (parse_nanos : String → Option ℤ)
    (rfc3339_ms : ℤ → Option String) where
  unfoldable pub stale_notes :
      {E : Type 0} → String → Option String → List (String × V) → List (Note E)
  stale_notes session_id none estimates = []
  stale_notes session_id (some region) estimates =
      map (λ (e : String × ℕ). stale_estimates session_id e.1 e.0 region)
        (stale_zone_estimates j estimates region)

  unfoldable pub write_joins : List (ImpactJoin V) → Store V F → Store V F
  write_joins joins store =
      foldl (λ s (x : ImpactJoin V). upsert_join x.unit_key x.json s) store joins

  -- The joins of one session, from the events and the estimates that the store has.
  unfoldable pub session_joins :
      Store V F → Zone F → Option String → SessionSummary → List (ImpactJoin V)
  session_joins store zone region s =
      let events = events_for_session s.session_id store in
      let tree = correlate parse_nanos events in
      build_joins ⦃j = j⦄ parse_nanos rfc3339_ms s.session_id s.first_ts s.last_ts events tree
        (apportion parse_nanos (energy_samples events) (process_samples events) tree)
        (estimates_for_events (llm_event_ids events) store) zone region

  unfoldable pub rebuild_session :
      {E : Type 0} → Zone F → Option String → SessionSummary → Rebuilt V F E → Rebuilt V F E
  rebuild_session zone region s r =
      let events = events_for_session s.session_id r.store in
      let estimates = estimates_for_events (llm_event_ids events) r.store in
      let joins = session_joins r.store zone region s in
      record {
        store = write_joins joins r.store;
        joins = r.joins + length joins;
        notes = r.notes ++ stale_notes s.session_id region estimates;
      }

  unfoldable pub rebuild_sessions :
      {E : Type 0} → Zone F → Option String → List SessionSummary → Rebuilt V F E → Rebuilt V F E
  rebuild_sessions zone region [] r = r
  rebuild_sessions zone region (s ∷ ss) r =
      rebuild_sessions zone region ss (rebuild_session zone region s r)

  -- The summaries come sorted by session.
  unfoldable pub rebuild_joins :
      {E : Type 0}
      → Zone F
      → EstimationRegion
      → Option EstimationOutcome
      → Bool
      → Option (List String)
      → List (Note E)
      → Store V F
      → RebuildOutcome F E × Store V F
  rebuild_joins zone region estimation wiped sessions notes store =
      let summaries = filter (is_visited sessions) (session_summaries store) in
      let r =
        rebuild_sessions zone region.id summaries
          (record { store = store; joins = 0; notes = notes }) in
      (
        record {
          zone = zone;
          estimation = estimation;
          pending_llm_calls = count_llm_calls_without_estimate store;
          wiped = wiped;
          sessions = length summaries;
          joins = r.joins;
          notes = r.notes;
        },
        r.store,
      )

  unfoldable pub rebuild_derived_stored :
      {E : Type 0}
      → Zone F
      → EstimationRegion
      → Option (List String)
      → Store V F
      → RebuildOutcome F E × Store V F
  rebuild_derived_stored zone region sessions store =
      rebuild_joins zone region none false sessions [] store

  -- The notes of a wipe; a refusal leaves the store as it is.
  unfoldable pub check_wipe : {E : Type 0} → Bool → Bool → Bool → Result (List (Note E)) Refusal
  check_wipe wipe force has_sidecar =
      if wipe && not has_sidecar
      then (if force then ok (forced_wipe ∷ []) else err no_estimator)
      else ok []

  abbrev pub factors_notes : {E : Type 0} → String → Option (ZoneFactors F) → List (Note E)
  factors_notes zone_id none = unknown_zone zone_id ∷ []
  factors_notes zone_id (some _) = []

  abbrev pub zone_request : String → V
  zone_request zone_id = j.object (("op", j.text "zone_factors") ∷ ("zone", j.text zone_id) ∷ [])

  -- `fetch_zone_factors` and the `match` on its result.
  unfoldable pub resolve_zone : {E : Type 0} → String → String → Result V E → Zone F × List (Note E)
  resolve_zone zone_id zone_source (ok response) =
      let factors = zone_factors j response in
      (record (unresolved zone_id zone_source) { factors = factors }, factors_notes zone_id factors)
  resolve_zone zone_id zone_source (err e) =
      (unresolved zone_id zone_source, zone_factors_failed e ∷ [])

  -- The `match` on `estimate_pending`.
  unfoldable pub note_estimation :
      {S E : Type 0} → Result (Unit {0}) E × Pass V F S → Option EstimationOutcome × List (Note E)
  note_estimation (ok _, p) = (some p.outcome, [])
  note_estimation (err e, p) = (none, estimation_failed e ∷ [])

  -- The pass after the wipe: zone factors, then the backlog, then the joins.
  unfoldable pub rebuild_with :
      {S E : Type 0}
      → (V → S → Result V E × S)
      → Option S
      → String
      → String
      → EstimationRegion
      → Bool
      → Option (List String)
      → List (Note E)
      → Store V F
      → RebuildOutcome F E × Store V F
  rebuild_with request none zone_id zone_source region wipe sessions notes store =
      rebuild_joins (unresolved zone_id zone_source) region none wipe sessions notes store
  rebuild_with request (some sidecar) zone_id zone_source region wipe sessions notes store =
      let (response, sidecar') = request (zone_request zone_id) sidecar in
      let (zone, zone_notes) = resolve_zone zone_id zone_source response in
      let pass = estimate_pending j request region store sidecar' in
      let (estimation, estimation_notes) = note_estimation pass in
      rebuild_joins zone region estimation wipe sessions ((notes ++ zone_notes) ++ estimation_notes)
        pass.1.store

  unfoldable pub rebuild_derived :
      {S E : Type 0}
      → (V → S → Result V E × S)
      → Option S
      → String
      → String
      → EstimationRegion
      → Bool
      → Bool
      → Option (List String)
      → Store V F
      → Result (RebuildOutcome F E) Refusal × Store V F
  rebuild_derived request sidecar zone_id zone_source region wipe force sessions store =
      elim (check_wipe wipe force (is_some sidecar)) [
        | err refusal ↦ (err refusal, store)
        | ok notes ↦
            let store' = if wipe then wipe_derived store else store in
            let (outcome, rebuilt) =
              rebuild_with request sidecar zone_id zone_source region wipe sessions notes store' in
            (ok outcome, rebuilt)
      ]
