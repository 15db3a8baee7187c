-- ===== src/OpenCode/Laws.antt =====
-- One event of the stream: what `process_event` does to the sequence number and the held state.
use agentic_footprint.Prelude.{
  ℕ, ◌≤◌, ◌<◌, max, String, ◌≡◌, refl, inl, inr, Bool, true, false, Option, none, some, leb,
  Bool-cases, arith,
}
use agentic_footprint.Json.{Json}
use agentic_footprint.Events.Validate.{Result, ok, err}
use agentic_footprint.OpenCode.{
  SourceEvent, NormalizerState, DurableSequence, absent, other_session, sequence, malformed,
  durable_sequence,
}
use agentic_footprint.OpenCode.Normalize.{Library}
use agentic_footprint.OpenCode.Settle.{normalize}
use agentic_footprint.OpenCode.Stream.{
  Files, Held, append_envelopes, save_cursor, normalized, saved, advance, appended, spool, handle,
  by_sequence, process_event,
}

-- The event carries a sequence number of its session, or is one to skip.
abbrev pub is_sequenced : DurableSequence → Bool
is_sequenced absent = false
is_sequenced _ = true

-- The event is skipped by a collector that has reached sequence `n`.
abbrev pub is_behind : ℕ → DurableSequence → Bool
is_behind n absent = false
is_behind n other_session = true
is_behind n (malformed _) = true
is_behind n (sequence m) = leb m n

-- The sequence number that is reached from `n`: the larger of it and the event's.
abbrev pub reached : ℕ → DurableSequence → ℕ
reached n (sequence m) = max n m
reached n _ = n

abbrev pub Outcome :
    {V D : Type 0} → DurableSequence → ℕ → Held V D → Result ℕ String × Held V D → Type 0
Outcome seq n h (ok m, k) = (m ≡ reached n seq) × (k.normalizer.pid ≡ h.normalizer.pid)
Outcome seq n h (err e, k) = k.normalizer ≡ h.normalizer

pub is_behind-weaken :
    (n m : ℕ) → n ≤ m → (s : DurableSequence) → is_behind n s ≡ true → is_behind m s ≡ true
is_behind-weaken n m le absent b = b
is_behind-weaken n m le other_session b = b
is_behind-weaken n m le (malformed _) b = b
is_behind-weaken n m le (sequence i) b = ground arith

pub is_behind-reached :
    (n : ℕ) (s : DurableSequence) → is_sequenced s ≡ true → is_behind (reached n s) s ≡ true
is_behind-reached n absent q = absurd (cc)
is_behind-reached n other_session q = refl
is_behind-reached n (malformed _) q = refl
is_behind-reached n (sequence m) q = ground arith

pub le_reached : (n : ℕ) (s : DurableSequence) → n ≤ reached n s
le_reached n (sequence m) = omega arith
le_reached n absent = omega arith
le_reached n other_session = omega arith
le_reached n (malformed _) = omega arith

module _ {V F T D : Type 0} (j : Json V F) (l : Library T) (files : Files V F D)
    (session_id : String) (cursor : Option String) where
  -- The tests of `process_event` pass `seq` on as it is.
  abbrev Passed : Option ℕ → DurableSequence → ℕ → Type 0
  Passed none s n = s ≡ absent
  Passed (some m) s n = (s ≡ sequence m) × (n < m)

  Outcome-saved :
      (s : DurableSequence) (n m : ℕ) (h : Held V D) (state : NormalizerState V)
      → Passed (some m) s n
      → (r : Result (Unit {0}) String × D) → Outcome s n h (saved m h state r)
  Outcome-saved s n m h state p (ok _, d) = (rw p.0 (omega (arith, p.1)), refl)
  Outcome-saved s n m h state p (err e, d) = refl

  Outcome-advance :
      (s : DurableSequence) (seq : Option ℕ) (n : ℕ) (h : Held V D) (state : NormalizerState V)
      (d : D)
      → Passed seq s n
      → (c : Option String) → Outcome s n h (advance j l files session_id c seq n h state d)
  unfolding advance
  Outcome-advance s none n h state d p c = (rw p refl, refl)
  Outcome-advance s (some m) n h state d p none = (rw p.0 (omega (arith, p.1)), refl)
  Outcome-advance s (some m) n h state d p (some server) =
      Outcome-saved s n m h state p (save_cursor files server session_id m state d)

  Outcome-appended :
      (s : DurableSequence) (seq : Option ℕ) (n : ℕ) (h : Held V D) (state : NormalizerState V)
      → Passed seq s n
      → (r : Result (Unit {0}) String × D)
      → Outcome s n h (appended j l files session_id cursor seq n h state r)
  Outcome-appended s seq n h state p (ok _, d) = Outcome-advance s seq n h state d p cursor
  Outcome-appended s seq n h state p (err e, d) = refl

  Outcome-handle :
      (s : DurableSequence) (seq : Option ℕ) (event : SourceEvent V) (n : ℕ) (h : Held V D)
      → Passed seq s n
      → Outcome s n h (handle j l files session_id cursor seq event n h)
  unfolding handle spool append_envelopes
  Outcome-handle s seq event n h p =
      let r = normalized h.normalizer.state (normalize j l event h.normalizer) in
      Outcome-appended s seq n h r.1 p (append_envelopes files r.0 h.disk)

  pub Outcome-by_sequence :
      (s : DurableSequence) (event : SourceEvent V) (n : ℕ) (h : Held V D)
      → Outcome s n h (by_sequence j l files session_id cursor s event n h)
  unfolding by_sequence handle
  Outcome-by_sequence other_session event n h = (refl, refl)
  Outcome-by_sequence (malformed _) event n h = (refl, refl)
  Outcome-by_sequence absent event n h = Outcome-handle absent none event n h refl
  Outcome-by_sequence (sequence m) event n h = elim (Bool-cases (leb m n)) [
    | inl e ↦ rw e (ground arith, refl)
    | inr e ↦ rw e (Outcome-handle (sequence m) (some m) event n h (refl, ground arith))
  ]

  -- When an event is processed, the sequence number becomes the larger of itself and the event's own,
  -- where it has one, and the process id stays; when its processing fails, the normalizer is as it
  -- was.
  pub process_event_lem :
      (event : SourceEvent V) (n : ℕ) (h : Held V D)
      → Outcome
          (durable_sequence j event session_id)
          n
          h
          (process_event j l files session_id cursor event n h)
  unfolding process_event by_sequence
  process_event_lem event n h = Outcome-by_sequence (durable_sequence j event session_id) event n h
