-- ===== src/Join/Remote.antt =====
-- join.rs: the remote half of a join.
pub mod Gathered
use agentic_footprint.Prelude.{
  ℕ, ◌+◌, String, Bool, true, false, ◌&&◌, ◌||◌, not, Option, none, some, List, [], ◌∷◌, ◌++◌,
  foldl, map, filter, filter_map, sort_by, length, is_empty, is_some, unwrap_or, and_then, str_eq,
  ltb, ◌==◌, if◌then◌else◌,
}
use agentic_footprint.Prelude.Keyed.{string_key, str_lt, lookup, alter}
use agentic_footprint.Float.{Float}
use agentic_footprint.Events.{Attribution, Envelope, Payload, llm_call}
use agentic_footprint.Json.{Json, get_str}
use agentic_footprint.Join.Criteria.{CriterionSum, Sums, sum_criteria}

pub record LlmCallRef : Type 0 where
  pub event_id : String
  pub task_id : Option String
  pub tool_call_id : Option String

abbrev pub is_llm_call : {F : Type 0} → Payload F → Bool
is_llm_call (llm_call _) = true
is_llm_call _ = false

-- The order of `(ts, event_id)`.
abbrev pub earlier : {F : Type 0} → Envelope F → Envelope F → Bool
earlier a b = str_lt a.ts b.ts || str_eq a.ts b.ts && str_lt a.event_id b.event_id

abbrev pub call_ref : {F : Type 0} → Envelope F → LlmCallRef
call_ref e = record {
  event_id = e.event_id;
  task_id = and_then e.attribution (λ (a : Attribution). a.task_id);
  tool_call_id = and_then e.attribution (λ (a : Attribution). a.tool_call_id);
}

unfoldable pub llm_calls : {F : Type 0} → List (Envelope F) → List LlmCallRef
unfolding sort_by
llm_calls events =
    map call_ref (sort_by earlier (filter (λ (e : Envelope _). is_llm_call e.payload) events))

pub record RemoteEstimated (V F : Type 0) : Type 0 where
  pub json : V
  pub totals : List (String × (String × F × F))
  pub complete : Bool
  pub calls : ℕ

-- The variables of the loop over the calls.
pub record Tally (V : Type 0) : Type 0 where
  pub statuses : List (String × ℕ)
  pub summable : List V
  pub count : ℕ
  pub stale_zone : ℕ
  pub complete : Bool

module _ {V F : Type 0} (j : Json V F) where
  open j use {get, as_str}

  unfoldable pub estimate_zone : V → Option String
  estimate_zone estimate =
      let region = and_then (and_then (get estimate "remote_region") (λ r. get r "id")) as_str in
      if is_some region then region else get_str j estimate "zone"

  abbrev pub status_of : Option V → String
  status_of none = "pending"
  status_of (some value) = unwrap_or (get_str j value "status") "error"

  -- Whether the stored region is another than the expected one.
  abbrev pub is_other : String → Option String → Bool
  is_other expected none = false
  is_other expected (some region) = not (str_eq region expected)

  abbrev pub is_stale : Option String → Option V → Bool
  is_stale none estimate = false
  is_stale (some expected) estimate = is_other expected (and_then estimate estimate_zone)

  -- The last `match` of the loop: an estimate to sum, or none.
  abbrev pub usable : String → Option V → Option V
  usable status none = none
  usable status (some value) =
      if str_eq status "ok" && is_some (get value "impacts") then some value else none

  unfoldable pub tally_call : Option String → Option V → Tally V → Tally V
  unfolding alter estimate_zone
  tally_call region estimate t =
      let status = status_of estimate in
      let sum = usable status estimate in
      record {
        statuses = alter status 0 (λ n. n + 1) t.statuses;
        summable = elim sum [ none ↦ t.summable | some value ↦ t.summable ++ value ∷ [] ];
        count = t.count + 1;
        stale_zone = if is_stale region estimate then t.stale_zone + 1 else t.stale_zone;
        complete = t.complete && is_some sum;
      }

  abbrev pub no_tally : Tally V
  no_tally = record { statuses = []; summable = []; count = 0; stale_zone = 0; complete = true }

  unfoldable pub tally_calls :
      Option String → List (String × V) → List LlmCallRef → Tally V → Tally V
  tally_calls region estimates [] t = t
  tally_calls region estimates (c ∷ cs) t =
      tally_calls region estimates cs (tally_call region (lookup c.event_id estimates) t)

  unfoldable pub stale_zone_estimates : List (String × V) → String → List (String × ℕ)
  unfolding alter
  stale_zone_estimates estimates region_id =
      foldl
        (λ out stamped. if str_eq stamped region_id then out else alter stamped 0 (λ n. n + 1) out)
        [] (filter_map (λ (x : String × V). estimate_zone x.1) estimates)

-- What may be published: a criterion without unit mismatches.
abbrev pub published : {F : Type 0} → Sums F → Sums F
published = filter (λ (e : String × CriterionSum _). e.1.mismatches == 0)

-- What may be combined: of those, the ones that every `ok` estimate contributed to.
abbrev pub combinable : {F : Type 0} → ℕ → Sums F → List (String × (String × F × F))
combinable ok_estimates sums =
    map (λ (e : String × CriterionSum _). (e.0, (e.1.unit, e.1.low, e.1.high)))
      (filter (λ (e : String × CriterionSum _). e.1.contributors == ok_estimates) (published sums))

-- A member that is left out of the object where the condition fails.
abbrev pub optional : {V : Type 0} → Bool → String → V → List (String × V)
optional here name value = if here then (name, value) ∷ [] else []

module _ {V F : Type 0} ⦃j : Json V F⦄ where
  open j use {object, text, float, count}

  unfoldable pub criterion : String → F → F → V
  criterion unit low high =
      object (
        ("unit", text unit)
        ∷ ("total", object (("min", float low) ∷ ("max", float high) ∷ []))
        ∷ [])

  unfoldable pub remote_object : Tally V → Sums F → V
  unfolding criterion
  remote_object t sums =
      let impacts =
        map (λ (e : String × CriterionSum F). (e.0, criterion e.1.unit e.1.low e.1.high))
          (published sums) in
      let mismatches =
        map (λ (e : String × CriterionSum F). (e.0, count e.1.mismatches))
          (filter (λ (e : String × CriterionSum F). ltb 0 e.1.mismatches) sums) in
      let statuses = map (λ (e : String × ℕ). (e.0, count e.1)) t.statuses in
      object (
        ("llm_calls", count t.count)
          ∷ optional (not (is_empty statuses)) "estimate_status_counts" (object statuses)
        ++ (optional (not (is_empty impacts)) "impacts" (object impacts)
            ++ (optional (not (is_empty mismatches)) "unit_mismatches" (object mismatches)
                ++ optional (ltb 0 t.stale_zone) "stale_zone_estimates" (count t.stale_zone))))

  unfoldable pub remote_estimated :
      ⦃f : Float F⦄
      → List LlmCallRef
      → List (String × V)
      → Option String
      → (LlmCallRef → Bool)
      → RemoteEstimated V F
  remote_estimated calls estimates region matcher =
      let t = tally_calls j region estimates (filter matcher calls) (no_tally j) in
      let sums = sum_criteria t.summable in
      record {
        json = remote_object t sums;
        totals = combinable (length t.summable) sums;
        complete = t.complete;
        calls = t.count;
      }
