-- ===== src/Store.antt =====
-- crates/af-store: the SQLite tables as lists of rows, and the statements that the code runs on
-- them. A row's JSON blob is read as the event or value that it encodes; SQLite's own failures
-- are not modelled.
pub mod Raw
pub mod Derived
pub mod Laws
use agentic_footprint.Prelude.{
  ℕ, String, Bool, true, ◌&&◌, ◌||◌, List, [], str_eq, eq_iff, ◌≡◌, ◌↔◌, arith,
}
use agentic_footprint.Prelude.Keyed.{Key, str_lt}
use agentic_footprint.Events.{Envelope}
use agentic_footprint.Events.Parse.{OpaqueEvent}

-- The primary key of `ingest_offsets`: collector and session.
pub record Source : Type 0 where
  pub collector : String
  pub session_id : String

abbrev pub same_source : Source → Source → Bool
same_source a b = str_eq a.collector b.collector && str_eq a.session_id b.session_id

pub same_source_iff : (a b : Source) → (same_source a b ≡ true) ↔ (a ≡ b)
same_source_iff a b =
    ground (arith, eq_iff a.collector b.collector, eq_iff a.session_id b.session_id)

instance abbrev pub source_key : Key Source
source_key = record {
  beq = same_source;
  beq_iff = same_source_iff;
  lt = λ a b.
      str_lt a.collector b.collector
      || str_eq a.collector b.collector && str_lt a.session_id b.session_id;
}

pub record Estimate (V : Type 0) : Type 0 where
  pub json : V
  pub methodology_version : String

pub record Store (V F : Type 0) : Type 0 where
  pub raw_events : List (Envelope F)
  pub opaque_events : List (OpaqueEvent V)
  pub ingest_offsets : List (Source × ℕ)
  pub impact_estimates : List (String × Estimate V)
  pub impact_joins : List (String × V)

abbrev pub empty : {V F : Type 0} → Store V F
empty = record {
  raw_events = [];
  opaque_events = [];
  ingest_offsets = [];
  impact_estimates = [];
  impact_joins = [];
}
