-- ===== src/OpenCode/Restart.antt =====
-- A stream of events processed in turn, stopped and started again from the saved cursor.
use mathlib.Core.Path.{subst}
use agentic_footprint.Prelude.{
  ℕ, ◌≤◌, String, ◌≡◌, refl, sym, ap, ◌∙◌, inl, inr, Bool, true, false, false≢true, Option, none,
  some, List, [], ◌∷◌, ◌++◌, leb, Bool-cases, arith, all, both, both_true, eq_refl,
}
use agentic_footprint.Json.{Json}
use agentic_footprint.Events.Validate.{Result, ok, err}
use agentic_footprint.OpenCode.{
  SourceEvent, NormalizerState, CursorState, DurableSequence, absent, other_session, sequence,
  malformed, durable_sequence,
}
use agentic_footprint.OpenCode.Normalize.{Library}
use agentic_footprint.OpenCode.Settle.{normalize}
use agentic_footprint.OpenCode.Stream.{
  Files, Held, contents, append_envelopes, save_cursor, load_cursor, load_opened, initial_state,
  canonical_server, is_own, cursor_version, normalized, hold, saved, and_on, advance, appended,
  spool, handle, by_sequence, process_event,
}
use agentic_footprint.OpenCode.Laws.{
  is_sequenced, is_behind, is_behind-weaken, is_behind-reached, le_reached, reached, Outcome,
  process_event_lem,
}

-- What the file system and the derived codecs promise: a cursor that was written is read back.
pub record FilesLaws {V F D : Type 0} (files : Files V F D) : Type 0 where
  pub read-replace :
      (c : CursorState V) (d : D) (t : Unit {0})
      → (files.replace c d).0 ≡ ok t
      → files.open_cursor (files.replace c d).1 ≡ contents (ok c)

is_ok : {A E : Type 0} → Result A E → Bool
is_ok (ok _) = true
is_ok (err _) = false

ok≢err : {A E : Type 0} {a : A} {e : E} → err e ≡ ok a → ⊥
unfolding is_ok
ok≢err p = false≢true (ap is_ok p)

module _ {V F T D : Type 0} (j : Json V F) (l : Library T) (files : Files V F D)
    (session_id : String) (cursor : Option String) where
  -- The events of a stream, one after the other, up to the first error.
  unfoldable pub process_all :
      List (SourceEvent V) → ℕ → Held V D → Result (Unit {0}) String × (ℕ × Held V D)
  process_all [] n h = (ok tt, (n, h))
  process_all (e ∷ es) n h =
      and_on (process_all es) n (process_event j l files session_id cursor e n h)

  abbrev pub sequence_in : SourceEvent V → DurableSequence
  sequence_in e = durable_sequence j e session_id

  by_sequence-behind :
      (s : DurableSequence) (e : SourceEvent V) (n : ℕ) (h : Held V D)
      → is_behind n s ≡ true
      → by_sequence j l files session_id cursor s e n h ≡ (ok n, h)
  unfolding by_sequence
  by_sequence-behind absent e n h b = absurd (cc)
  by_sequence-behind other_session e n h b = refl
  by_sequence-behind (malformed _) e n h b = refl
  by_sequence-behind (sequence m) e n h b = rw b refl

  process_event-behind :
      (e : SourceEvent V) (n : ℕ) (h : Held V D)
      → is_behind n (sequence_in e) ≡ true
      → process_event j l files session_id cursor e n h ≡ (ok n, h)
  unfolding process_event
  process_event-behind e n h b = by_sequence-behind (sequence_in e) e n h b

  process_event-reached :
      (e : SourceEvent V) (n m : ℕ) (h k : Held V D)
      → process_event j l files session_id cursor e n h ≡ (ok m, k)
      → (m ≡ reached n (sequence_in e)) × (k.normalizer.pid ≡ h.normalizer.pid)
  process_event-reached e n m h k p =
      subst (Outcome (sequence_in e) n h) p (process_event_lem j l files session_id cursor e n h)

  -- What a run that ended well did first.
  first-result :
      (es : List (SourceEvent V)) (n m : ℕ) (k : Held V D) (r : Result ℕ String × Held V D)
      → and_on (process_all es) n r ≡ (ok tt, (m, k))
      → (i : ℕ) × (g : Held V D) × (r ≡ (ok i, g)) × (process_all es i g ≡ (ok tt, (m, k)))
  first-result es n m k (ok i, g) p = (i, g, refl, p)
  first-result es n m k (err x, g) p = absurd (ok≢err (ap (λ q. q.0) p))

  pub process_all-append :
      (es fs : List (SourceEvent V)) (n m : ℕ) (h k : Held V D)
      → process_all es n h ≡ (ok tt, (m, k))
      → process_all (es ++ fs) n h ≡ process_all fs m k
  unfolding process_all
  process_all-append [] fs n m h k e =
      let a : n ≡ m = ap (λ q. q.1.0) e in let b : h ≡ k = ap (λ q. q.1.1) e in rw (a, b) refl
  process_all-append (x ∷ es) fs n m h k e =
      let (i, g, p, q) =
        first-result es n m k (process_event j l files session_id cursor x n h) e in
      rw p (process_all-append es fs i m g k q)

  process_all-reached :
      (es : List (SourceEvent V)) (n m : ℕ) (h k : Held V D)
      → process_all es n h ≡ (ok tt, (m, k))
      → n ≤ m
  unfolding process_all
  process_all-reached [] n m h k e = let a : n ≡ m = ap (λ q. q.1.0) e in omega (arith, a)
  process_all-reached (x ∷ es) n m h k e =
      let (i, g, p, q) =
        first-result es n m k (process_event j l files session_id cursor x n h) e in
      let r = process_event-reached x n i h g p in
      let s = process_all-reached es i m g k q in
      let t = le_reached n (sequence_in x) in omega (arith, r.0, s, t)

  -- After a run the collector is past each of its events.
  process_all-is_behind :
      (es : List (SourceEvent V)) (n m : ℕ) (h k : Held V D)
      → process_all es n h ≡ (ok tt, (m, k))
      → all (λ e. is_sequenced (sequence_in e)) es ≡ true
      → all (λ e. is_behind m (sequence_in e)) es ≡ true
  unfolding process_all
  process_all-is_behind [] n m h k e q = refl
  process_all-is_behind (x ∷ es) n m h k e q =
      let (i, g, p, r) =
        first-result es n m k (process_event j l files session_id cursor x n h) e in
      let c = both (is_sequenced (sequence_in x)) (all (λ y. is_sequenced (sequence_in y)) es) q in
      let a = process_event-reached x n i h g p in
      let b = is_behind-reached n (sequence_in x) c.0 in
      let d : is_behind i (sequence_in x) ≡ true = rw a.0 b in
      both_true (is_behind m (sequence_in x)) (all (λ y. is_behind m (sequence_in y)) es)
        (is_behind-weaken i m (process_all-reached es i m g k r) (sequence_in x) d)
        (process_all-is_behind es i m g k r c.1)

  -- Events that the collector is past change nothing.
  process_all-behind :
      (es fs : List (SourceEvent V)) (n : ℕ) (h : Held V D)
      → all (λ e. is_behind n (sequence_in e)) es ≡ true
      → process_all (es ++ fs) n h ≡ process_all fs n h
  unfolding process_all
  process_all-behind [] fs n h b = refl
  process_all-behind (x ∷ es) fs n h b =
      let c = both (is_behind n (sequence_in x)) (all (λ y. is_behind n (sequence_in y)) es) b in
      rw (process_event-behind x n h c.0) (process_all-behind es fs n h c.1)

  pub process_all-again :
      (es fs : List (SourceEvent V)) (n m : ℕ) (h k : Held V D)
      → process_all es n h ≡ (ok tt, (m, k))
      → all (λ e. is_sequenced (sequence_in e)) es ≡ true
      → process_all (es ++ fs) m k ≡ process_all (es ++ fs) n h
  process_all-again es fs n m h k e q =
      process_all-behind es fs m k (process_all-is_behind es n m h k e q)
      ∙ sym (process_all-append es fs n m h k e)

module _ {V F T D : Type 0} (j : Json V F) (l : Library T) (files : Files V F D)
    (session_id server : String) (laws : FilesLaws files) where
  -- The cursor file holds the sequence number and the state of the normalizer.
  abbrev pub IsSaved : ℕ → Held V D → Type 0
  IsSaved n h = initial_state files server session_id none h.disk ≡ ok (n, h.normalizer.state)

  is_own-saved :
      (n : ℕ) (state : NormalizerState V)
      → is_own server session_id (record {
        version = cursor_version;
        server = canonical_server server;
        session_id = session_id;
        after = n;
        normalizer = state;
      })
        ≡ true
  unfolding is_own
  is_own-saved n state = rw (eq_refl (canonical_server server), eq_refl session_id) refl

  IsSaved-replace :
      (n : ℕ) (h : Held V D) (state : NormalizerState V) (d : D) (t : Unit {0})
      → (save_cursor files server session_id n state d).0 ≡ ok t
      → IsSaved n (hold h state (save_cursor files server session_id n state d).1)
  unfolding save_cursor initial_state load_cursor load_opened
  IsSaved-replace n h state d t e =
      let p =
        laws.read-replace
          (record {
            version = cursor_version;
            server = canonical_server server;
            session_id = session_id;
            after = n;
            normalizer = state;
          })
          d t e in
      rw (p, is_own-saved n state) refl

  -- A result that is no error leaves the cursor file so.
  abbrev SavedResult : Result ℕ String × Held V D → Type 0
  SavedResult (ok n, h) = IsSaved n h
  SavedResult (err _, h) = Unit

  IsSaved-result :
      (m : ℕ) (k : Held V D) (r : Result ℕ String × Held V D)
      → SavedResult r
      → r ≡ (ok m, k)
      → IsSaved m k
  IsSaved-result m k r s e = subst SavedResult e s

  IsSaved-saved :
      (n m : ℕ) (h k : Held V D) (state : NormalizerState V) (r : Result (Unit {0}) String × D)
      → ((t : Unit {0}) → r.0 ≡ ok t → IsSaved n (hold h state r.1))
      → saved n h state r ≡ (ok m, k)
      → IsSaved m k
  IsSaved-saved n m h k state (ok t, d) f e =
      IsSaved-result m k (saved n h state (ok t, d)) (f t refl) e
  IsSaved-saved n m h k state (err x, d) f e = absurd (ok≢err (ap (λ q. q.0) e))

  IsSaved-appended :
      (i n m : ℕ) (h k : Held V D) (state : NormalizerState V) (r : Result (Unit {0}) String × D)
      → appended j l files session_id (some server) (some i) n h state r ≡ (ok m, k)
      → IsSaved m k
  unfolding advance
  IsSaved-appended i n m h k state (ok t, d) e =
      IsSaved-saved i m h k state (save_cursor files server session_id i state d)
        (λ u p. IsSaved-replace i h state d u p) e
  IsSaved-appended i n m h k state (err x, d) e = absurd (ok≢err (ap (λ q. q.0) e))

  IsSaved-handle :
      (event : SourceEvent V) (i n m : ℕ) (h k : Held V D)
      → handle j l files session_id (some server) (some i) event n h ≡ (ok m, k)
      → IsSaved m k
  unfolding handle spool
  IsSaved-handle event i n m h k e =
      let r = normalized h.normalizer.state (normalize j l event h.normalizer) in
      IsSaved-appended i n m h k r.1 (append_envelopes files r.0 h.disk) e

  IsSaved-by_sequence :
      (s : DurableSequence) (event : SourceEvent V) (n m : ℕ) (h k : Held V D)
      → is_sequenced s ≡ true
      → IsSaved n h
      → by_sequence j l files session_id (some server) s event n h ≡ (ok m, k)
      → IsSaved m k
  unfolding by_sequence
  IsSaved-by_sequence absent event n m h k q b e = absurd (cc)
  IsSaved-by_sequence other_session event n m h k q b e = IsSaved-result m k (ok n, h) b e
  IsSaved-by_sequence (malformed _) event n m h k q b e = IsSaved-result m k (ok n, h) b e
  IsSaved-by_sequence (sequence i) event n m h k q b e = elim (Bool-cases (leb i n)) [
    | inl a ↦ IsSaved-result m k (ok n, h) b (rw a at e)
    | inr a ↦ IsSaved-handle event i n m h k (rw a at e)
  ]

  IsSaved-process_all :
      (es : List (SourceEvent V)) (n m : ℕ) (h k : Held V D)
      → all (λ e. is_sequenced (durable_sequence j e session_id)) es ≡ true
      → IsSaved n h
      → process_all j l files session_id (some server) es n h ≡ (ok tt, (m, k))
      → IsSaved m k
  unfolding process_all process_event
  IsSaved-process_all [] n m h k q b e = subst (λ p. IsSaved p.0 p.1) (ap (λ r. r.1) e) b
  IsSaved-process_all (x ∷ es) n m h k q b e =
      let (i, g, p, r) =
        first-result j l files session_id (some server) es n m k
          (process_event j l files session_id (some server) x n h) e in
      let c =
        both (is_sequenced (durable_sequence j x session_id))
          (all (λ y. is_sequenced (durable_sequence j y session_id)) es) q in
      IsSaved-process_all es i m g k c.1
        (IsSaved-by_sequence (durable_sequence j x session_id) x n i h g c.0 b p) r

  -- When a collector whose cursor file holds what it starts with has processed durable events without
  -- an error and is started again, it reads the sequence number and the state that it had reached,
  -- and processing all the events from there, with those that have come since, gives what an
  -- uninterrupted run gives, if a cursor that was written is read back.
  pub process_all-restart :
      (es fs : List (SourceEvent V)) (n m : ℕ) (h k : Held V D)
      → all (λ e. is_sequenced (durable_sequence j e session_id)) es ≡ true
      → initial_state files server session_id none h.disk ≡ ok (n, h.normalizer.state)
      → process_all j l files session_id (some server) es n h ≡ (ok tt, (m, k))
      → (initial_state files server session_id none k.disk ≡ ok (m, k.normalizer.state))
        × (process_all j l files session_id (some server) (es ++ fs) m k
            ≡ process_all j l files session_id (some server) (es ++ fs) n h)
  process_all-restart es fs n m h k q b e = (
    IsSaved-process_all es n m h k q b e,
    process_all-again j l files session_id (some server) es fs n m h k e q,
  )
