-- ===== src/OpenCode/Reconnect.antt =====
-- The loop of `collect_live`: its pause and its sequence number.
use agentic_footprint.Prelude.{
  ℕ, zero, suc, ◌≤◌, String, inl, inr, Option, some, List, [], ◌∷◌, str_eq, Bool-cases, arith, ltb,
}
use agentic_footprint.Prelude.Text.{starts_with, trim_end_matches}
use agentic_footprint.Json.{Json}
use agentic_footprint.Events.Validate.{Result, ok, err}
use agentic_footprint.OpenCode.{SourceEvent, durable_sequence}
use agentic_footprint.OpenCode.Normalize.{Library}
use agentic_footprint.OpenCode.Stream.{
  Files, Held, is_line_end, push_data, and_on, process_event, process_parsed, process_frame, flush,
  read_line, collect_lines, collect_reader,
}
use agentic_footprint.OpenCode.Laws.{Outcome, process_event_lem, le_reached}
use agentic_footprint.OpenCode.Live.{
  Live, reconnect_initial, reconnect_max, backoff_after, next_backoff, received, after_round,
  live_round, collect_live,
}

-- The pause is between the initial and the largest one.
abbrev pub IsPause : ℕ → Type 0
IsPause backoff = (reconnect_initial ≤ backoff) × (backoff ≤ reconnect_max)

IsPause-next_backoff :
    (before latest backoff : ℕ)
    → IsPause backoff
    → IsPause (next_backoff (backoff_after before latest backoff))
unfolding next_backoff backoff_after
IsPause-next_backoff before latest backoff p = elim (Bool-cases (ltb before latest)) [
  | inl e ↦ rw e (omega arith, omega arith)
  | inr e ↦ rw e (omega (arith, p.0), omega (arith, p.1))
]

module _ {V F T D : Type 0} (j : Json V F) (l : Library T) (files : Files V F D)
    (session_id : String) (cursor : Option String) where
  -- A result that has a sequence number has one that is not below `n`.
  abbrev NotBelow : ℕ → Result ℕ String × Held V D → Type 0
  NotBelow n (ok m, h) = n ≤ m
  NotBelow n (err _, h) = Unit

  NotBelow-Outcome :
      (e : SourceEvent V) (n : ℕ) (h : Held V D) (r : Result ℕ String × Held V D)
      → Outcome (durable_sequence j e session_id) n h r
      → NotBelow n r
  NotBelow-Outcome e n h (ok m, k) o =
      omega (arith, o.0, le_reached n (durable_sequence j e session_id))
  NotBelow-Outcome e n h (err _, k) o = tt

  NotBelow-parsed :
      (r : Result (SourceEvent V) String) (n : ℕ) (h : Held V D)
      → NotBelow n (process_parsed j l files session_id cursor r n h)
  unfolding process_parsed
  NotBelow-parsed (err _) n h = omega arith
  NotBelow-parsed (ok e) n h =
      NotBelow-Outcome e n h (process_event j l files session_id cursor e n h)
        (process_event_lem j l files session_id cursor e n h)

  abbrev Rest : (ℕ → Held V D → Result (Unit {0}) String × (ℕ × Held V D)) → Type 0
  Rest f = (m : ℕ) (k : Held V D) → m ≤ (f m k).1.0

  le_and_on :
      (f : ℕ → Held V D → Result (Unit {0}) String × (ℕ × Held V D))
      → Rest f
      → (n : ℕ) (r : Result ℕ String × Held V D) → NotBelow n r
      → n ≤ (and_on f n r).1.0
  le_and_on f g n (ok m, k) b = omega (arith, b, g m k)
  le_and_on f g n (err _, k) b = omega arith

  le_flush :
      (f : ℕ → Held V D → Result (Unit {0}) String × (ℕ × Held V D))
      → Rest f
      → (d : List String) (n : ℕ) (h : Held V D)
      → n ≤ (flush j l files session_id cursor f d n h).1.0
  unfolding flush process_frame
  le_flush f g [] n h = g n h
  le_flush f g (x ∷ d) n h =
      le_and_on f g n (process_frame j l files session_id cursor (x ∷ d) n h)
        (NotBelow-parsed (files.parse_event _) n h)

  le_collect_lines :
      (lines : List (Result String String)) (d : List String) (n : ℕ) (h : Held V D)
      → n ≤ (collect_lines j l files session_id cursor lines d n h).1.0
  unfolding collect_lines read_line
  le_collect_lines [] d n h = le_flush _ (λ m k. omega arith) d n h
  le_collect_lines (err e ∷ lines) d n h = omega arith
  le_collect_lines (ok raw ∷ lines) d n h =
      let line = trim_end_matches is_line_end raw in
      elim (Bool-cases (str_eq line "")) [
        | inl e ↦ rw e (le_flush _ (λ m k. le_collect_lines lines [] m k) d n h)
        | inr e ↦ rw e (elim (Bool-cases (starts_with ":" line)) [
          | inl c ↦ rw c (le_collect_lines lines d n h)
          | inr c ↦ rw c (le_collect_lines lines (push_data line d) n h)
        ])
      ]

  pub le_collect_reader :
      (lines : List (Result String String)) (n : ℕ) (h : Held V D)
      → n ≤ (collect_reader j l files session_id cursor lines n h).1.0
  unfolding collect_reader
  le_collect_reader lines n h = le_collect_lines lines [] n h

module _ {V F T D S : Type 0} (j : Json V F) (l : Library T) (files : Files V F D)
    (session_id server : String)
    (connect : ℕ → S → Result (List (Result String String)) String × S) where
  le_received :
      (r : Result (List (Result String String)) String) (n : ℕ) (h : Held V D)
      → n ≤ (received j l files session_id server connect r n h).0
  unfolding received
  le_received (err _) n h = omega arith
  le_received (ok lines) n h = le_collect_reader j l files session_id (some server) lines n h

  abbrev Onward : Live V D S → Live V D S → Type 0
  Onward c d = (c.latest ≤ d.latest) × IsPause d.backoff

  Onward-live_round :
      (c : Live V D S)
      → IsPause c.backoff
      → Onward c (live_round j l files session_id server connect c)
  unfolding live_round after_round
  Onward-live_round c p =
      let answer = connect c.latest c.peer in
      let r = received j l files session_id server connect answer.0 c.latest c.held in
      (le_received answer.0 c.latest c.held, IsPause-next_backoff c.latest r.0 c.backoff p)

  -- When the pause lies between the initial and the largest one, so it does after any number of
  -- rounds, and the sequence number is not below the first, whatever the server answers.
  pub collect_live_lem :
      (rounds : ℕ) (c : Live V D S)
      → IsPause c.backoff
      → (c.latest ≤ (collect_live j l files session_id server connect rounds c).latest)
        × IsPause (collect_live j l files session_id server connect rounds c).backoff
  unfolding collect_live
  collect_live_lem zero c p = (omega arith, p)
  collect_live_lem (suc n) c p =
      let a = Onward-live_round c p in
      let b = collect_live_lem n (live_round j l files session_id server connect c) a.1 in
      (omega (arith, a.0, b.0), b.1)
