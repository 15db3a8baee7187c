-- ===== src/Estimate.antt =====
-- crates/af-core/src/estimate.rs: the backlog of `llm_call`s goes to the estimator sidecar.
pub mod Loop
pub mod Laws
use agentic_footprint.Prelude.{
  ℕ, ◌+◌, String, str_append, Bool, Option, none, some, List, [], ◌∷◌, ◌++◌, unwrap_or, and_then,
  str_eq, if◌then◌else◌,
}
use agentic_footprint.Prelude.Int.{pos}
use agentic_footprint.Float.{Float, ◌⊘◌}
use agentic_footprint.Json.{Json, get_str}
use agentic_footprint.Events.{Envelope, Payload, LlmCall, llm_call}
use agentic_footprint.Events.Validate.{Result, ok, err}
use agentic_footprint.Store.{Store}
use agentic_footprint.Store.Derived.{
  ImpactEstimate, upsert_estimate, llm_calls_without_estimate_limit,
}

pub record EstimationRegion : Type 0 where
  pub id : Option String
  pub source : String

abbrev pub automatic : EstimationRegion
automatic = record { id = none; source = "estimator_auto" }

abbrev pub explicit : String → String → EstimationRegion
explicit id source = record { id = some id; source = source }

pub record EstimationOutcome : Type 0 where
  pub estimated : ℕ
  pub unknown_model : ℕ
  pub missing_zone : ℕ
  pub missing_usage : ℕ
  pub errors : ℕ

abbrev pub no_outcome : EstimationOutcome
no_outcome = record {
  estimated = 0;
  unknown_model = 0;
  missing_zone = 0;
  missing_usage = 0;
  errors = 0;
}

abbrev pub processed : EstimationOutcome → ℕ
processed o = o.estimated + o.unknown_model + o.missing_zone + o.missing_usage + o.errors

-- The `match` on the response's status.
unfoldable pub count_status : Option String → EstimationOutcome → EstimationOutcome
count_status none o = record o { errors = o.errors + 1 }
count_status (some status) o =
    if str_eq status "ok"
    then record o { estimated = o.estimated + 1 }
    else if str_eq status "unknown_model"
    then record o { unknown_model = o.unknown_model + 1 }
    else if str_eq status "missing_zone"
    then record o { missing_zone = o.missing_zone + 1 }
    else record o { errors = o.errors + 1 }

-- What a pass works on.
pub record Pass (V F S : Type 0) : Type 0 where
  pub store : Store V F
  pub sidecar : S
  pub outcome : EstimationOutcome

abbrev version_text : Option String → String
version_text none = "ecologits-unknown"
version_text (some v) = str_append "ecologits-" v

module _ {V F : Type 0} (j : Json V F) where
  open j use {object, text, count, float, get, as_str, or_insert}

  unfoldable pub region_object : EstimationRegion → V
  region_object region = elim region.id [
    | some id ↦ object (("id", text id) ∷ ("source", text region.source) ∷ [])
    | none ↦ object (("source", text region.source) ∷ [])
  ]

  unfoldable pub stamp_region : V → EstimationRegion → V
  stamp_region response region = or_insert response "remote_region" (region_object region)

  unfoldable pub methodology_version : V → String
  methodology_version response =
      version_text
        (and_then (and_then (get response "methodology") (λ m. get m "ecologits_version")) as_str)

  abbrev zone_member : Option String → List (String × V)
  zone_member none = []
  zone_member (some id) = ("electricity_mix_zone", text id) ∷ []

  unfoldable pub estimate_request : String → String → ℕ → EstimationRegion → List (String × V)
  estimate_request provider model_name output_tokens region =
      ("op", text "estimate")
      ∷ ("provider", text provider)
      ∷ ("model_name", text model_name)
      ∷ ("output_token_count", count output_tokens)
      ∷ zone_member region.id

  abbrev latency_member : ⦃f : Float F⦄ → Option ℕ → List (String × V)
  latency_member none = []
  latency_member ⦃f⦄ (some ms) =
      ("request_latency", float (f.of_int (pos ms) ⊘ f.of_int (pos 1000))) ∷ []

  unfoldable pub missing_usage_row : String → EstimationRegion → ImpactEstimate V
  unfolding stamp_region
  missing_usage_row event_id region = record {
    event_id = event_id;
    methodology_version = "none";
    json = stamp_region (object (("status", text "missing_usage") ∷ [])) region;
  }

  unfoldable pub response_row : String → V → EstimationRegion → ImpactEstimate V
  unfolding stamp_region methodology_version
  response_row event_id response region = record {
    event_id = event_id;
    methodology_version = methodology_version response;
    json = stamp_region response region;
  }

  -- The sidecar is a process with a state of its own: a request is answered, or fails with an
  -- error, and the state goes on. `E` is the error.
  module _ ⦃f : Float F⦄ {S E : Type 0} (request : V → S → Result V E × S)
      (region : EstimationRegion) where
    abbrev pub with_tokens : LlmCall → ℕ → V
    with_tokens call output_tokens = object (
        estimate_request call.provider call.model_id_requested output_tokens region
        ++ latency_member call.duration_ms)

    -- The response is stored and counted, or the pass ends with the error.
    unfoldable pub store_response :
        String → Result V E × S → Pass V F S → Result (Unit {0}) E × Pass V F S
    unfolding response_row count_status
    store_response event_id (err e, sidecar) p = (err e, record p { sidecar = sidecar })
    store_response event_id (ok response, sidecar) p = (
      ok tt,
      record {
        store = upsert_estimate (response_row event_id response region) p.store;
        sidecar = sidecar;
        outcome = count_status (get_str j response "status") p.outcome;
      },
    )

    unfoldable pub estimate_call :
        String → LlmCall → Option ℕ → Pass V F S → Result (Unit {0}) E × Pass V F S
    estimate_call event_id call none p = (
      ok tt,
      record p {
        store = upsert_estimate (missing_usage_row event_id region) p.store;
        outcome = record p.outcome { missing_usage = p.outcome.missing_usage + 1 };
      },
    )
    estimate_call event_id call (some output_tokens) p =
        store_response event_id (request (with_tokens call output_tokens) p.sidecar) p

    unfoldable pub estimate_payload :
        String → Payload F → Pass V F S → Result (Unit {0}) E × Pass V F S
    estimate_payload event_id (llm_call call) p =
        estimate_call event_id call call.usage.output_tokens p
    estimate_payload event_id _ p = (ok tt, p)

    -- The rest of the loop, after one event.
    abbrev pub go_on :
        (Pass V F S → Result (Unit {0}) E × Pass V F S)
        → Result (Unit {0}) E × Pass V F S
        → Result (Unit {0}) E × Pass V F S
    go_on rest (ok _, p) = rest p
    go_on rest (err e, p) = (err e, p)

    unfoldable pub estimate_loop : List (Envelope F) → Pass V F S → Result (Unit {0}) E × Pass V F S
    estimate_loop [] p = (ok tt, p)
    estimate_loop (e ∷ es) p = go_on (estimate_loop es) (estimate_payload e.event_id e.payload p)

    unfoldable pub estimate_events :
        List (Envelope F) → Store V F → S → Result (Unit {0}) E × Pass V F S
    estimate_events events store sidecar =
        estimate_loop events (record { store = store; sidecar = sidecar; outcome = no_outcome })

    unfoldable pub estimate_pending_limit :
        Option ℕ → Store V F → S → Result (Unit {0}) E × Pass V F S
    estimate_pending_limit limit store sidecar =
        estimate_events (llm_calls_without_estimate_limit limit store) store sidecar

    unfoldable pub estimate_pending : Store V F → S → Result (Unit {0}) E × Pass V F S
    estimate_pending = estimate_pending_limit none
