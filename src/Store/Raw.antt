-- ===== src/Store/Raw.antt =====
-- crates/af-store/src/raw.rs: events, deduplicated by id, and the read offsets.
use agentic_footprint.Prelude.{
  ℕ, ◌+◌, String, Bool, ◌&&◌, ◌||◌, Option, none, List, [], ◌∷◌, ◌++◌, foldl, map, any, filter,
  filter_map, length, sort_by, unwrap_or, str_eq, if◌then◌else◌,
}
use agentic_footprint.Prelude.Keyed.{string_key, str_lt, lookup, alter}
use agentic_footprint.Events.{Envelope, Payload, session_meta, type_tag}
use agentic_footprint.Events.Parse.{OpaqueEvent}
use agentic_footprint.Store.{Store, Source, source_key}

module _ {F : Type 0} where
  abbrev pub has_id : String → List (Envelope F) → Bool
  has_id id = any (λ (e : Envelope F). str_eq e.event_id id)

  -- `INSERT OR IGNORE` for one row; the number of rows that it changed is beside the table.
  unfoldable pub insert_row : List (Envelope F) × ℕ → Envelope F → List (Envelope F) × ℕ
  insert_row (rows, n) e = if has_id e.event_id rows then (rows, n) else (rows ++ e ∷ [], n + 1)

  -- The order of `ORDER BY ts ASC, event_id ASC`.
  abbrev pub in_order : Envelope F → Envelope F → Bool
  in_order a b = str_lt a.ts b.ts || str_eq a.ts b.ts && str_lt a.event_id b.event_id

  abbrev pub geo_zone_of : Payload F → Option String
  geo_zone_of (session_meta m) = m.geo_zone
  geo_zone_of _ = none

module _ {V : Type 0} where
  unfoldable pub insert_opaque_row :
      List (OpaqueEvent V) × ℕ → OpaqueEvent V → List (OpaqueEvent V) × ℕ
  insert_opaque_row (rows, n) e =
      if any (λ (r : OpaqueEvent V). str_eq r.event_id e.event_id) rows
      then (rows, n)
      else (rows ++ e ∷ [], n + 1)

pub record SessionSummary : Type 0 where
  pub session_id : String
  pub counts : List (String × ℕ)
  pub first_ts : String
  pub last_ts : String

-- `MIN(ts)` and `MAX(ts)` of a group.
abbrev pub min_text : String → String → String
min_text a b = if str_lt b a then b else a

abbrev pub max_text : String → String → String
max_text a b = if str_lt a b then b else a

abbrev summarise : {F : Type 0} → Envelope F → SessionSummary → SessionSummary
summarise e m = record m {
  counts = alter (type_tag e.payload) 0 (λ n. n + 1) m.counts;
  first_ts = min_text m.first_ts e.ts;
  last_ts = max_text m.last_ts e.ts;
}

module _ {V F : Type 0} where
  unfoldable pub insert_events : List (Envelope F) → Store V F → ℕ × Store V F
  insert_events events s =
      let (rows, n) = foldl insert_row (s.raw_events, 0) events in
      (n, record s { raw_events = rows })

  unfoldable pub insert_opaque_events : List (OpaqueEvent V) → Store V F → ℕ × Store V F
  insert_opaque_events events s =
      let (rows, n) = foldl insert_opaque_row (s.opaque_events, 0) events in
      (n, record s { opaque_events = rows })

  unfoldable pub count_opaque_events : Store V F → ℕ
  count_opaque_events s = length s.opaque_events

  unfoldable pub events_for_session : String → Store V F → List (Envelope F)
  events_for_session session s =
      sort_by in_order (filter (λ (e : Envelope F). str_eq e.session_id session) s.raw_events)

  unfoldable pub declared_geo_zones : Store V F → List String
  unfolding alter
  declared_geo_zones s =
      map (λ (e : String × Unit {0}). e.0)
        (foldl (λ m zone. if str_eq zone "" then m else alter zone tt (λ u. u) m) []
          (filter_map (λ (e : Envelope F). geo_zone_of e.payload) s.raw_events))

  unfoldable pub get_offset : Source → Store V F → ℕ
  unfolding lookup
  get_offset source s = unwrap_or (lookup source s.ingest_offsets) 0

  unfoldable pub set_offset : Source → ℕ → Store V F → Store V F
  unfolding alter
  set_offset source offset s = record s {
    ingest_offsets = alter source offset (λ _. offset) s.ingest_offsets;
  }

  -- The two `GROUP BY` queries, joined by session.
  unfoldable pub session_summaries : Store V F → List SessionSummary
  unfolding alter
  session_summaries s =
      map (λ (e : String × SessionSummary). e.1)
        (foldl
          (λ m (e : Envelope F).
            alter e.session_id
              (record { session_id = e.session_id; counts = []; first_ts = e.ts; last_ts = e.ts })
              (summarise e) m)
          [] s.raw_events)
