-- ===== src/Replay/Laws.antt =====
-- crates/af-core/src/replay.rs: the refusal of a rebuild, and the raw events.
use agentic_footprint.Prelude.{
  String, Bool, true, false, ◌&&◌, not, Option, none, some, List, [], ◌∷◌, is_some, ◌≡◌, refl, ◌∙◌,
  ◌↔◌,
}
use agentic_footprint.Prelude.Int.{ℤ}
use agentic_footprint.Prelude.Keyed.{string_key}
use agentic_footprint.Float.{Float}
use agentic_footprint.Json.{Json}
use agentic_footprint.Events.Validate.{Result, err}
use agentic_footprint.Join.Local.{Zone}
use agentic_footprint.Join.Units.{ImpactJoin}
use agentic_footprint.Store.{Store}
use agentic_footprint.Store.Raw.{SessionSummary}
use agentic_footprint.Store.Derived.{wipe_derived}
use agentic_footprint.Estimate.{EstimationRegion, EstimationOutcome}
use agentic_footprint.Estimate.{estimate_pending, estimate_pending_limit}
use agentic_footprint.Estimate.Laws.{estimate_events-processed}
use agentic_footprint.Store.Derived.{upsert_join}
use agentic_footprint.Replay.{
  Note, no_estimator, Rebuilt, write_joins, rebuild_session, rebuild_sessions, rebuild_joins,
  rebuild_with, rebuild_derived, check_wipe,
}

raw_events-upsert_join :
    {V F : Type 0} (k : String) (v : V) (s : Store V F)
    → (upsert_join k v s).raw_events ≡ s.raw_events
unfolding upsert_join
raw_events-upsert_join k v s = refl

raw_events-wipe_derived :
    {V F : Type 0} (s : Store V F) → (wipe_derived s).raw_events ≡ s.raw_events
unfolding wipe_derived
raw_events-wipe_derived s = refl

module _ {V F : Type 0} (j : Json V F) ⦃f : Float F⦄ (parse_nanos : String → Option ℤ)
    (rfc3339_ms : ℤ → Option String) where
  raw_events-write_joins :
      (joins : List (ImpactJoin V)) (s : Store V F)
      → (write_joins j parse_nanos rfc3339_ms joins s).raw_events ≡ s.raw_events
  unfolding write_joins
  raw_events-write_joins [] s = refl
  raw_events-write_joins (x ∷ xs) s =
      raw_events-write_joins xs (upsert_join x.unit_key x.json s)
      ∙ raw_events-upsert_join x.unit_key x.json s

  module _ {E : Type 0} (zone : Zone F) where
    raw_events-rebuild_session :
        (region : Option String) (s : SessionSummary) (r : Rebuilt V F E)
        → (rebuild_session j parse_nanos rfc3339_ms zone region s r).store.raw_events
          ≡ r.store.raw_events
    unfolding rebuild_session
    raw_events-rebuild_session region s r = raw_events-write_joins _ r.store

    raw_events-rebuild_sessions :
        (region : Option String) (ss : List SessionSummary) (r : Rebuilt V F E)
        → (rebuild_sessions j parse_nanos rfc3339_ms zone region ss r).store.raw_events
          ≡ r.store.raw_events
    unfolding rebuild_sessions
    raw_events-rebuild_sessions region [] r = refl
    raw_events-rebuild_sessions region (s ∷ ss) r =
        raw_events-rebuild_sessions region ss
          (rebuild_session j parse_nanos rfc3339_ms zone region s r)
        ∙ raw_events-rebuild_session region s r

    raw_events-rebuild_joins :
        (region : EstimationRegion) (o : Option EstimationOutcome) (wiped : Bool)
        (sessions : Option (List String)) (notes : List (Note E)) (s : Store V F)
        → (rebuild_joins j parse_nanos rfc3339_ms zone region o wiped sessions notes s).1.raw_events
          ≡ s.raw_events
    unfolding rebuild_joins
    raw_events-rebuild_joins region o wiped sessions notes s =
        raw_events-rebuild_sessions region.id _ _

  module _ {S E : Type 0} (request : V → S → Result V E × S) (zone_id zone_source : String)
      (region : EstimationRegion) where
    raw_events-rebuild_with :
        (sidecar : Option S) (wipe : Bool) (sessions : Option (List String)) (notes : List (Note E))
        (s : Store V F)
        → (rebuild_with j parse_nanos rfc3339_ms request sidecar zone_id zone_source region wipe
            sessions notes s).1.raw_events
          ≡ s.raw_events
    unfolding rebuild_with estimate_pending estimate_pending_limit
    raw_events-rebuild_with none wipe sessions notes s =
        raw_events-rebuild_joins _ region none wipe sessions notes s
    raw_events-rebuild_with (some sidecar) wipe sessions notes s =
        raw_events-rebuild_joins _ region _ wipe sessions _ _
        ∙ (estimate_events-processed j request region _ s _).0

    -- A rebuild leaves the raw events as they are, in every mode and also when it is refused; and it is refused
    -- exactly when a wipe is asked for that is not forced and there is no estimator.
    pub rebuild_derived_lem :
        (sidecar : Option S) (wipe force : Bool) (sessions : Option (List String)) (s : Store V F)
        → let (r, rebuilt) =
            rebuild_derived j parse_nanos rfc3339_ms request sidecar zone_id zone_source region wipe
              force sessions s in
          (rebuilt.raw_events ≡ s.raw_events)
          × ((r ≡ err no_estimator) ↔ ((wipe && (not (is_some sidecar) && not force)) ≡ true))
    unfolding rebuild_derived check_wipe
    rebuild_derived_lem none true true sessions s = (
      raw_events-rebuild_with none true sessions _ _ ∙ raw_events-wipe_derived s,
      (λ h. absurd (cc), λ h. absurd (cc)),
    )
    rebuild_derived_lem none true false sessions s = (refl, (λ h. refl, λ h. refl))
    rebuild_derived_lem none false force sessions s =
        (raw_events-rebuild_with none false sessions _ _, (λ h. absurd (cc), λ h. absurd (cc)))
    rebuild_derived_lem (some sidecar) true force sessions s = (
      raw_events-rebuild_with (some sidecar) true sessions _ _ ∙ raw_events-wipe_derived s,
      (λ h. absurd (cc), λ h. absurd (cc)),
    )
    rebuild_derived_lem (some sidecar) false force sessions s = (
      raw_events-rebuild_with (some sidecar) false sessions _ _,
      (λ h. absurd (cc), λ h. absurd (cc)),
    )
