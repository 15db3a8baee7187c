-- ===== src/OpenCode/Stream.antt =====
-- crates/af-cli/src/cmd/opencode.rs: from the lines of the event stream to the spool and the cursor.
use Prim.Native.Char.{Char, code}
use agentic_footprint.Prelude.{
  ℕ, String, Bool, false, ◌||◌, Option, none, some, List, [], ◌∷◌, ◌++◌, str_eq, if◌then◌else◌,
  ◌==◌, leb, unwrap_or,
}
use agentic_footprint.Prelude.Text.{join, strip_prefix, starts_with, trim_end_matches}
use agentic_footprint.Json.{Json}
use agentic_footprint.Events.{Envelope}
use agentic_footprint.Events.Validate.{Result, ok, err}
use agentic_footprint.OpenCode.{
  SourceEvent, NormalizerState, Normalizer, CursorState, DurableSequence, absent, other_session,
  sequence, malformed, durable_sequence, no_state,
}
use agentic_footprint.OpenCode.Normalize.{Library}
use agentic_footprint.OpenCode.Settle.{normalize}

-- What opening the cursor file gives: its contents as they parse, or what went wrong.
pub data Opened (V : Type 0) : Type 0 where
  contents : Result (CursorState V) String → Opened V
  not_found : Opened V
  failed : String → Opened V

-- The file system `D` and the derived codecs: `append` adds lines to the spool file, `replace`
-- writes the cursor file, `open_cursor` reads and parses it.
pub record Files (V F D : Type 0) : Type 0 where
  pub append : List (Envelope F) → D → Result (Unit {0}) String × D
  pub replace : CursorState V → D → Result (Unit {0}) String × D
  pub open_cursor : D → Opened V
  pub parse_event : String → Result (SourceEvent V) String

-- What outlives one event: the normalizer and the disk.
pub record Held (V D : Type 0) : Type 0 where
  pub normalizer : Normalizer V
  pub disk : D

unfoldable pub canonical_server : String → String
canonical_server server = trim_end_matches (λ c. code c == b'/') server

abbrev pub cursor_version : ℕ
cursor_version = 1

abbrev pub is_line_end : Char → Bool
is_line_end c = code c == 13 || code c == 10

-- A line's `data:` field, without the space that may lead it, is pushed.
unfoldable pub push_data : String → List String → List String
push_data line fields = elim (strip_prefix "data:" line) [
  | none ↦ fields
  | some value ↦ fields ++ unwrap_or (strip_prefix " " value) value ∷ []
]

unfoldable pub is_own : {V : Type 0} → String → String → CursorState V → Bool
unfolding canonical_server
is_own server session_id c =
    if c.version == cursor_version
    then if str_eq c.server (canonical_server server) then str_eq c.session_id session_id else false
    else false

abbrev pub check_cursor :
    {V : Type 0}
    → String
    → String
    → Result (CursorState V) String
    → Result (Option (CursorState V)) String
check_cursor server session_id (err e) = err e
check_cursor server session_id (ok c) =
    if is_own server session_id c then ok (some c) else err "invalid OpenCode cursor"

unfoldable pub load_opened :
    {V : Type 0} → String → String → Opened V → Result (Option (CursorState V)) String
load_opened server session_id (contents parsed) = check_cursor server session_id parsed
load_opened server session_id not_found = ok none
load_opened server session_id (failed e) = err e

abbrev pub state_from :
    {V : Type 0} → Result (Option (CursorState V)) String → Result (ℕ × NormalizerState V) String
state_from (err e) = err e
state_from (ok none) = ok (0, no_state)
state_from (ok (some saved)) = ok (saved.after, saved.normalizer)

-- A call that failed gives no envelopes and leaves the state as it was.
abbrev pub normalized :
    {V F : Type 0}
    → NormalizerState V
    → Result (List (Envelope F)) String × NormalizerState V
    → List (Envelope F) × NormalizerState V
normalized before (ok envelopes, state) = (envelopes, state)
normalized before (err e, state) = ([], before)

module _ {V D : Type 0} where
  abbrev pub hold : Held V D → NormalizerState V → D → Held V D
  hold h state d = record { normalizer = record h.normalizer { state = state }; disk = d }

  abbrev pub saved :
      ℕ → Held V D → NormalizerState V → Result (Unit {0}) String × D → Result ℕ String × Held V D
  saved n h state (ok _, d) = (ok n, hold h state d)
  saved n h state (err e, d) = (err e, record h { disk = d })

  -- `*latest = process_frame(...)?` and what comes after it.
  abbrev pub and_on :
      (ℕ → Held V D → Result (Unit {0}) String × (ℕ × Held V D))
      → ℕ
      → Result ℕ String × Held V D
      → Result (Unit {0}) String × (ℕ × Held V D)
  and_on rest latest (ok n, h) = rest n h
  and_on rest latest (err e, h) = (err e, (latest, h))

module _ {V F D : Type 0} (files : Files V F D) where
  unfoldable pub append_envelopes : List (Envelope F) → D → Result (Unit {0}) String × D
  append_envelopes [] d = (ok tt, d)
  append_envelopes (e ∷ es) d = files.append (e ∷ es) d

  unfoldable pub save_cursor :
      String → String → ℕ → NormalizerState V → D → Result (Unit {0}) String × D
  unfolding canonical_server
  save_cursor server session_id after state d =
      files.replace
        (record {
          version = cursor_version;
          server = canonical_server server;
          session_id = session_id;
          after = after;
          normalizer = state;
        })
        d

  unfoldable pub load_cursor : String → String → D → Result (Option (CursorState V)) String
  load_cursor server session_id d = load_opened server session_id (files.open_cursor d)

  unfoldable pub initial_state :
      String → String → Option ℕ → D → Result (ℕ × NormalizerState V) String
  unfolding load_cursor
  initial_state server session_id (some after) d = ok (after, no_state)
  initial_state server session_id none d = state_from (load_cursor server session_id d)

-- `cursor` is the server of the cursor target, where there is one.
module _ {V F T D : Type 0} (j : Json V F) (l : Library T) (files : Files V F D)
    (session_id : String) (cursor : Option String) where
  unfoldable pub advance :
      Option ℕ → ℕ → Held V D → NormalizerState V → D → Result ℕ String × Held V D
  unfolding save_cursor
  advance none latest h state d = (ok latest, hold h state d)
  advance (some n) latest h state d = elim cursor [
    | none ↦ (ok n, hold h state d)
    | some server ↦ saved n h state (save_cursor files server session_id n state d)
  ]

  abbrev pub appended :
      Option ℕ
      → ℕ
      → Held V D
      → NormalizerState V
      → Result (Unit {0}) String × D
      → Result ℕ String × Held V D
  appended seq latest h state (ok _, d) = advance seq latest h state d
  appended seq latest h state (err e, d) = (err e, record h { disk = d })

  unfoldable pub spool :
      Option ℕ → ℕ → Held V D → List (Envelope F) × NormalizerState V → Result ℕ String × Held V D
  unfolding append_envelopes
  spool seq latest h (envelopes, state) =
      appended seq latest h state (append_envelopes files envelopes h.disk)

  unfoldable pub handle : Option ℕ → SourceEvent V → ℕ → Held V D → Result ℕ String × Held V D
  unfolding normalize
  handle seq event latest h =
      spool seq latest h (normalized h.normalizer.state (normalize j l event h.normalizer))

  unfoldable pub by_sequence :
      DurableSequence → SourceEvent V → ℕ → Held V D → Result ℕ String × Held V D
  unfolding handle
  by_sequence other_session event latest h = (ok latest, h)
  by_sequence (malformed reason) event latest h = (ok latest, h)
  by_sequence absent event latest h = handle none event latest h
  by_sequence (sequence n) event latest h =
      if leb n latest then (ok latest, h) else handle (some n) event latest h

  unfoldable pub process_event : SourceEvent V → ℕ → Held V D → Result ℕ String × Held V D
  unfolding durable_sequence
  process_event event latest h = by_sequence (durable_sequence j event session_id) event latest h

  unfoldable pub process_parsed :
      Result (SourceEvent V) String → ℕ → Held V D → Result ℕ String × Held V D
  unfolding process_event
  process_parsed (err e) latest h = (ok latest, h)
  process_parsed (ok event) latest h = process_event event latest h

  unfoldable pub process_frame : List String → ℕ → Held V D → Result ℕ String × Held V D
  process_frame fields latest h = process_parsed (files.parse_event (join "\n" fields)) latest h

  -- The frame of the collected fields, if there are any.
  unfoldable pub flush :
      (ℕ → Held V D → Result (Unit {0}) String × (ℕ × Held V D))
      → List String
      → ℕ
      → Held V D
      → Result (Unit {0}) String × (ℕ × Held V D)
  unfolding process_frame
  flush rest [] latest h = rest latest h
  flush rest (x ∷ fields) latest h = and_on rest latest (process_frame (x ∷ fields) latest h)

  -- One line, with its end trimmed; `rest` reads the lines behind it.
  unfoldable pub read_line :
      String
      → (List String → ℕ → Held V D → Result (Unit {0}) String × (ℕ × Held V D))
      → List String
      → ℕ
      → Held V D
      → Result (Unit {0}) String × (ℕ × Held V D)
  unfolding flush push_data
  read_line line rest fields latest h =
      if str_eq line ""
      then flush (rest []) fields latest h
      else if starts_with ":" line
      then rest fields latest h
      else rest (push_data line fields) latest h

  -- The reader is what `read_line` gives on it, call by call; its end is the end of the stream.
  unfoldable pub collect_lines :
      List (Result String String)
      → List String
      → ℕ
      → Held V D
      → Result (Unit {0}) String × (ℕ × Held V D)
  unfolding read_line
  collect_lines [] fields latest h = flush (λ n k. (ok tt, (n, k))) fields latest h
  collect_lines (err e ∷ lines) fields latest h = (err e, (latest, h))
  collect_lines (ok raw ∷ lines) fields latest h =
      read_line (trim_end_matches is_line_end raw) (collect_lines lines) fields latest h

  unfoldable pub collect_reader :
      List (Result String String) → ℕ → Held V D → Result (Unit {0}) String × (ℕ × Held V D)
  collect_reader lines latest h = collect_lines lines [] latest h
