-- ===== src/Otlp/Server.antt =====
-- crates/af-otlp/src/server.rs: what a request does to the receiver and how it is answered.
use agentic_footprint.Prelude.{
  ℕ, ◌+◌, ◌*◌, suc, String, str_append, Bool, true, false, Option, none, some, List, [], ◌∷◌,
  length, ltb, ◌==◌, str_eq, if◌then◌else◌,
}
use agentic_footprint.Prelude.Keyed.{string_key}
use agentic_footprint.Json.{Json}
use agentic_footprint.Events.{Envelope}
use agentic_footprint.Events.Validate.{Result, ok, err}
use agentic_footprint.Sanitize.{sanitize_id}
use agentic_footprint.Spool.Name.{spool_file_name}
use agentic_footprint.Otlp.Outcome.{Library}
use agentic_footprint.Otlp.Codex.Cache.{ProviderCache}
use agentic_footprint.Otlp.Normalize.{NormalizeOutcome, normalize_logs}
use agentic_footprint.Otlp.Authority.{is_loopback_authority}
use agentic_footprint.Otlp.Groups.{group}

abbrev pub max_body_bytes : ℕ
max_body_bytes = 4 * 1024 * 1024

pub record Counters : Type 0 where
  pub logs_requests : ℕ
  pub logs_accepted : ℕ
  pub logs_dropped : ℕ
  pub logs_unclaimed : ℕ
  pub logs_persistence_failures : ℕ
  pub logs_persistence_failed_events : ℕ
  pub bodies_quarantined : ℕ
  pub metrics_discarded : ℕ

-- A body gives its bytes, and then ends or fails.
pub record Body : Type 0 where
  pub bytes : List ℕ
  pub fails : Bool

pub record Request : Type 0 where
  pub host : Option String
  pub is_post : Bool
  pub url : String
  pub body : Body

pub record Response : Type 0 where
  pub status : ℕ
  pub text : String

-- The receiver: its counters, the Codex providers and the disk.
pub record Receiver (D : Type 0) : Type 0 where
  pub counters : Counters
  pub providers : ProviderCache
  pub disk : D

-- The file system `D`, the JSON parser the lossy reading of UTF-8 and
-- the decimal printing of a number; `quarantine` writes a body
-- under a prefix, and its failures are only printed.
pub record Machine (V F D : Type 0) : Type 0 where
  pub create_dir : D → Result (Unit {0}) String × D
  pub write_lines : String → List (Envelope F) → D → Result (Unit {0}) String × D
  pub quarantine : String → String → D → D
  pub from_utf8_lossy : List ℕ → String
  pub show : ℕ → String
  pub parse : String → Option V

pub data Capped : Type 0 where
  whole : List ℕ → Capped
  too_large failed : Capped

-- At most one byte more than the limit is read.
unfoldable pub read_capped_body : Body → Capped
read_capped_body body =
    if ltb max_body_bytes (length body.bytes)
    then too_large
    else if body.fails
    then failed
    else whole body.bytes

abbrev pub done : Response
done = record { status = 200; text = "{\"partialSuccess\":{}}" }

abbrev pub large : Response
large = record { status = 413; text = "payload too large" }

module _ {V F D : Type 0} (m : Machine V F D) where
  abbrev pub and_write :
      (D → Result (Unit {0}) String × D)
      → Result (Unit {0}) String × D
      → Result (Unit {0}) String × D
  and_write rest (ok _, d) = rest d
  and_write rest (err e, d) = (err e, d)

  unfoldable pub write_files :
      List ((String × String) × List (Envelope F)) → D → Result (Unit {0}) String × D
  unfolding sanitize_id spool_file_name
  write_files [] d = (ok tt, d)
  write_files (((collector, session_id), events) ∷ files) d =
      and_write (write_files files)
        (m.write_lines (spool_file_name collector (sanitize_id session_id)) events d)

  unfoldable pub append_envelopes : List (Envelope F) → D → Result (Unit {0}) String × D
  unfolding write_files group
  append_envelopes [] d = (ok tt, d)
  append_envelopes (e ∷ es) d = and_write (write_files (group (e ∷ es))) (m.create_dir d)

abbrev pub counted : {D : Type 0} → Receiver D → Receiver D
counted s = record s {
  counters = record s.counters { logs_requests = suc s.counters.logs_requests };
}

abbrev pub discard : {D : Type 0} → Capped → Receiver D → Response × Receiver D
discard too_large s = (large, s)
discard _ s = (
  record { status = 200; text = "{}" },
  record s {
    counters = record s.counters { metrics_discarded = suc s.counters.metrics_discarded };
  },
)

unfoldable pub handle_metrics : {D : Type 0} → Body → Receiver D → Response × Receiver D
unfolding read_capped_body
handle_metrics body s = discard (read_capped_body body) s

unfoldable pub is_forbidden : Option String → Bool
unfolding is_loopback_authority
is_forbidden none = false
is_forbidden (some host) = if is_loopback_authority host then false else true

module _ {V F D : Type 0} (l : Library F) (j : Json V F) (m : Machine V F D) where
  unfoldable pub retryable : String → String → Response
  retryable code message = record {
    status = 503;
    text = j.to_text (
        j.object (
          (
            "error",
            j.object (
                ("code", j.text code)
                ∷ ("message", j.text message)
                ∷ ("retryable", j.flag true)
                ∷ []),
          )
          ∷ []));
  }

  -- The batch is on disk: its records are counted, and kept aside if some were dropped.
  unfoldable pub accepted : String → NormalizeOutcome F → Receiver D → D → Response × Receiver D
  accepted body o s d =
      let c = record s.counters { logs_accepted = s.counters.logs_accepted + length o.events } in
      if o.dropped == 0 then (done, record s { counters = c; disk = d }) else (
        done,
        record s {
          counters = record c {
            logs_dropped = c.logs_dropped + o.dropped;
            bodies_quarantined = suc c.bodies_quarantined;
          };
          disk = m.quarantine "otlp-cc.dropped" body d;
        },
      )

  unfoldable pub persisted :
      String
      → NormalizeOutcome F
      → Receiver D
      → Result (Unit {0}) String × D
      → Response × Receiver D
  unfolding accepted retryable
  persisted body o s (ok _, d) = accepted body o s d
  persisted body o s (err e, d) = (
    retryable "persistence_failed" (
        str_append "failed to append "
          (str_append (m.show (length o.events)) " normalized event(s); retry the export")),
    record s {
      counters = record s.counters {
        logs_persistence_failures = suc s.counters.logs_persistence_failures;
        logs_persistence_failed_events =
            s.counters.logs_persistence_failed_events + length o.events;
      };
      disk = d;
    },
  )

  unfoldable pub handle_outcome :
      String → NormalizeOutcome F × ProviderCache → Receiver D → Response × Receiver D
  unfolding persisted append_envelopes
  handle_outcome body (o, providers) s =
      let c = record s.counters { logs_unclaimed = s.counters.logs_unclaimed + o.unclaimed } in
      persisted body o (record s { counters = c; providers = providers })
        (append_envelopes m o.events s.disk)

  unfoldable pub handle_value : String → Option V → Receiver D → Response × Receiver D
  unfolding handle_outcome normalize_logs
  handle_value body none s = (
    done,
    record s {
      counters = record s.counters { bodies_quarantined = suc s.counters.bodies_quarantined };
      disk = m.quarantine "otlp-cc.unparsed" body s.disk;
    },
  )
  handle_value body (some value) s = handle_outcome body (normalize_logs l j value s.providers) s

  unfoldable pub handle_read : Capped → Receiver D → Response × Receiver D
  unfolding handle_value retryable
  handle_read too_large s = (large, s)
  handle_read failed s =
      (retryable "body_read_failed" "request body could not be read; retry the export", s)
  handle_read (whole raw) s = let body = m.from_utf8_lossy raw in handle_value body (m.parse body) s

  unfoldable pub handle_logs : Body → Receiver D → Response × Receiver D
  unfolding handle_read read_capped_body
  handle_logs body s = handle_read (read_capped_body body) (counted s)

  unfoldable pub handle_request : Request → Receiver D → Response × Receiver D
  unfolding is_forbidden handle_logs handle_metrics
  handle_request r s =
      if is_forbidden r.host
      then (record { status = 403; text = "forbidden host" }, s)
      else if r.is_post
      then (if str_eq r.url "/v1/logs"
          then handle_logs r.body s
          else if str_eq r.url "/v1/metrics"
          then handle_metrics r.body s
          else (record { status = 404; text = "not found" }, s))
      else (record { status = 404; text = "not found" }, s)
