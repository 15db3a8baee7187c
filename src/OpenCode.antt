-- ===== src/OpenCode.antt =====
-- crates/af-cli/src/cmd/opencode.rs: the events of OpenCode's stream and what the collector keeps.
pub mod Normalize
pub mod Settle
pub mod Stream
pub mod Laws
pub mod Restart
pub mod Frames
pub mod Pairs
pub mod Reconnect
pub mod Escape
pub mod Live
pub mod Paths
use agentic_footprint.Prelude.{
  ℕ, String, Bool, true, false, Option, none, some, List, [], str_eq, ◌==◌, if◌then◌else◌,
}
use agentic_footprint.Prelude.Int.{ℤ}
use agentic_footprint.Json.{Json}

pub record Durable (V : Type 0) : Type 0 where
  pub aggregate_id : V
  pub seq : V

-- The field `data` is `body` here.
pub record SourceEvent (V : Type 0) : Type 0 where
  pub id : Option String
  pub event_type : Option String
  pub durable : Option (Durable V)
  pub body : V

pub record NormalizerState (V : Type 0) : Type 0 where
  pub steps : List (String × V)
  pub tools : List (String × V)
  pub shells : List (String × V)

-- `NormalizerState::default()`.
abbrev pub no_state : {V : Type 0} → NormalizerState V
no_state = record { steps = []; tools = []; shells = [] }

pub record Normalizer (V : Type 0) : Type 0 where
  pub pid : Option ℤ
  pub state : NormalizerState V

pub record CursorState (V : Type 0) : Type 0 where
  pub version : ℕ
  pub server : String
  pub session_id : String
  pub after : ℕ
  pub normalizer : NormalizerState V

pub data DurableSequence : Type 0 where
  absent other_session : DurableSequence
  sequence : ℕ → DurableSequence
  malformed : String → DurableSequence

module _ {V F : Type 0} (j : Json V F) where
  abbrev sequence_of : Option ℕ → DurableSequence
  sequence_of none = malformed "seq is not a positive integer"
  sequence_of (some n) = if n == 0 then malformed "seq is not a positive integer" else sequence n

  abbrev sequence_in : String → V → Option String → DurableSequence
  sequence_in session_id seq none = malformed "aggregateID is not a string"
  sequence_in session_id seq (some aggregate_id) =
      if str_eq aggregate_id session_id then sequence_of (j.as_u64 seq) else other_session

  unfoldable pub durable_sequence : SourceEvent V → String → DurableSequence
  durable_sequence event session_id = elim event.durable [
    | none ↦ absent
    | some durable ↦ sequence_in session_id durable.seq (j.as_str durable.aggregate_id)
  ]
