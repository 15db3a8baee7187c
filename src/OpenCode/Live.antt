-- ===== src/OpenCode/Live.antt =====
-- crates/af-cli/src/cmd/opencode.rs: reconnecting to the stream, `emit_session_meta` and `run`.
use agentic_footprint.Prelude.{
  ℕ, zero, suc, ◌*◌, min, String, str_append, Bool, ◌||◌, Option, none, some, List, [], ◌∷◌, ltb,
  if◌then◌else◌,
}
use agentic_footprint.Json.{Json}
use agentic_footprint.Events.{Envelope, session_meta}
use agentic_footprint.Events.Validate.{Result, ok, err}
use agentic_footprint.OpenCode.Normalize.{Library, collector, digest_prefix}
use agentic_footprint.OpenCode.Stream.{Files, Held, append_envelopes, collect_reader}

-- In milliseconds.
abbrev pub reconnect_initial : ℕ
reconnect_initial = 250

abbrev pub reconnect_max : ℕ
reconnect_max = 10000

-- The variables of the loop, and the server and the network that answer it.
pub record Live (V D S : Type 0) : Type 0 where
  pub latest : ℕ
  pub backoff : ℕ
  pub held : Held V D
  pub peer : S

abbrev pub start_live : {V D S : Type 0} → ℕ → Held V D → S → Live V D S
start_live latest h peer = record {
  latest = latest;
  backoff = reconnect_initial;
  held = h;
  peer = peer;
}

-- `if latest > before { backoff = RECONNECT_INITIAL }`.
unfoldable pub backoff_after : ℕ → ℕ → ℕ → ℕ
backoff_after before latest backoff = if ltb before latest then reconnect_initial else backoff

unfoldable pub next_backoff : ℕ → ℕ
next_backoff backoff = min (backoff * 2) reconnect_max

module _ {V F T D : Type 0} (l : Library T) (files : Files V F D) where
  abbrev session_envelope : String → Option String → String → Envelope F
  session_envelope session_id version now = record {
    schema_version = "0.1.0";
    event_id = str_append "opencode-session-" (digest_prefix l session_id 24);
    ts = now;
    collector = collector;
    session_id = session_id;
    attribution = none;
    payload = session_meta (record {
      agent_app = record { name = "opencode"; version = version };
      os = none;
      hardware = none;
      geo_zone = none;
      power_source = none;
    });
  }

  unfoldable pub write_meta :
      String → Option String → Result String String → D → Result (Unit {0}) String × D
  unfolding append_envelopes
  write_meta session_id version (err e) d = (err e, d)
  write_meta session_id version (ok now) d =
      append_envelopes files (session_envelope session_id version now ∷ []) d

  -- `exists` is whether the spool file is there, `now` the clock's text.
  unfoldable pub emit_session_meta :
      Bool → Bool → String → Option String → Result String String → D → Result (Unit {0}) String × D
  unfolding append_envelopes
  emit_session_meta no_session_meta exists session_id version now d =
      if no_session_meta || exists then (ok tt, d) else write_meta session_id version now d

-- `connect` requests the stream behind a sequence number: it fails, or gives the lines of the
-- response up to its end.
module _ {V F T D S : Type 0} (j : Json V F) (l : Library T) (files : Files V F D)
    (session_id server : String)
    (connect : ℕ → S → Result (List (Result String String)) String × S) where
  -- What the loop's body does to the sequence number and the held state.
  unfoldable pub received :
      Result (List (Result String String)) String → ℕ → Held V D → ℕ × Held V D
  unfolding collect_reader
  received (err e) latest h = (latest, h)
  received (ok lines) latest h =
      (collect_reader j l files session_id (some server) lines latest h).1

  unfoldable pub after_round : Live V D S → (ℕ × Held V D) → S → Live V D S
  unfolding backoff_after next_backoff
  after_round c (latest, h) peer = record {
    latest = latest;
    backoff = next_backoff (backoff_after c.latest latest c.backoff);
    held = h;
    peer = peer;
  }

  -- One round of the loop of `collect_live`, the pause left out.
  unfoldable pub live_round : Live V D S → Live V D S
  live_round c =
      let answer = connect c.latest c.peer in
      after_round c (received answer.0 c.latest c.held) answer.1

  -- Its loop never ends; this is the state after a number of rounds.
  unfoldable pub collect_live : ℕ → Live V D S → Live V D S
  unfolding live_round
  collect_live zero c = c
  collect_live (suc n) c = collect_live n (live_round c)
