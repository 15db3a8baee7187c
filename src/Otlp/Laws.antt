-- ===== src/Otlp/Laws.antt =====
-- crates/af-otlp: the outcomes of a batch's records, and the receiver's answers.
use agentic_footprint.Prelude.{
  ℕ, suc, ◌+◌, String, ◌≡◌, ◌⊎◌, refl, inl, inr, Bool, true, false, Option, none, some, List, [],
  ◌∷◌, length, length-append, ◌==◌, ◌||◌, ==_iff, str_eq, Bool-cases, arith,
}
use agentic_footprint.Json.{Json}
use agentic_footprint.Events.Validate.{Result, ok, err}
use agentic_footprint.Otlp.Record.{LogRecord, decode_logs}
use agentic_footprint.Otlp.Outcome.{RecordOutcome, envelope, not_applicable, dropped, Library}
use agentic_footprint.Otlp.Codex.Cache.{ProviderCache}
use agentic_footprint.Otlp.Normalize.{
  NormalizeOutcome, no_records, tally, normalize_record, normalize_records, normalize_logs,
}
use agentic_footprint.Otlp.Server.{
  Machine, Receiver, Counters, Request, Capped, whole, too_large, failed, append_envelopes,
  accepted, persisted, handle_outcome, handle_value, handle_read, handle_logs, handle_metrics,
  discard, handle_request, is_forbidden, retryable, read_capped_body, counted,
}

-- The records that a batch's outcome accounts for.
abbrev pub size : {F : Type 0} → NormalizeOutcome F → ℕ
size o = length o.events + (o.dropped + o.unclaimed)

size-tally :
    {F : Type 0} (x : RecordOutcome F) (o : NormalizeOutcome F) → size (tally x o) ≡ suc (size o)
size-tally (envelope e) o = omega (arith, length-append o.events (e ∷ []))
size-tally dropped o = omega arith
size-tally not_applicable o = omega arith

module _ {V F : Type 0} (l : Library F) (j : Json V F) where
  size-normalize_records :
      (rs : List (LogRecord V)) (index : ℕ) (o : NormalizeOutcome F) (c : ProviderCache)
      → size (normalize_records l j rs index o c).0 ≡ size o + length rs
  unfolding normalize_records
  size-normalize_records [] index o c = omega arith
  size-normalize_records (r ∷ rs) index o c =
      let x = normalize_record l j r index c in
      let a = size-normalize_records rs (suc index) (tally x.0 o) x.1 in
      let b = size-tally x.0 o in omega (arith, a, b)

  -- Each record of a batch is an event, is dropped by the normalizer that claims it, or is unclaimed.
  pub normalize_logs_lem :
      (body : V) (c : ProviderCache)
      → length (normalize_logs l j body c).0.events
          + ((normalize_logs l j body c).0.dropped + (normalize_logs l j body c).0.unclaimed)
        ≡ length (decode_logs j l.whole body)
  unfolding normalize_logs
  normalize_logs_lem body c =
      let a = size-normalize_records (decode_logs j l.whole body) 0 no_records c in omega (arith, a)

-- The records that the counters account for.
abbrev pub accounted : Counters → ℕ
accounted c = c.logs_accepted + (c.logs_dropped + c.logs_unclaimed)

-- The answers of the handlers, and those in front of them.
abbrev pub is_handled : ℕ → Bool
is_handled status = status == 200 || (status == 413 || status == 503)

abbrev pub is_refused : ℕ → Bool
is_refused status = status == 403 || status == 404

module _ {V F D : Type 0} (l : Library F) (j : Json V F) (m : Machine V F D) where
  accounted-accepted :
      (body : String) (o : NormalizeOutcome F) (s : Receiver D) (d : D)
      → accounted (accepted l j m body o s d).1.counters
        ≡ accounted s.counters + (length o.events + o.dropped)
  unfolding accepted
  accounted-accepted body o s d = elim (Bool-cases (o.dropped == 0)) [
    | inl e ↦ (let z : o.dropped ≡ 0 = (==_iff o.dropped 0).0 e in rw e (omega (arith, z)))
    | inr e ↦ rw e (omega arith)
  ]

  accounted-persisted :
      (body : String) (o : NormalizeOutcome F) (s : Receiver D) (r : Result (Unit {0}) String × D)
      → (persisted l j m body o s r).0.status ≡ 200
      → accounted (persisted l j m body o s r).1.counters
        ≡ accounted s.counters + (length o.events + o.dropped)
  unfolding persisted retryable
  accounted-persisted body o s (ok _, d) h = accounted-accepted body o s d
  accounted-persisted body o s (err e, d) h = absurd (omega (arith, h))

  -- A batch that is answered with 200 adds the number of its records to the counters of accepted,
  -- dropped and unclaimed records.
  pub handle_value_lem :
      (body : String) (value : V) (s : Receiver D)
      → (handle_value l j m body (some value) s).0.status ≡ 200
      → accounted (handle_value l j m body (some value) s).1.counters
        ≡ accounted s.counters + length (decode_logs j l.whole value)
  unfolding handle_value handle_outcome
  handle_value_lem body value s h =
      let o = normalize_logs l j value s.providers in
      let c = record s.counters { logs_unclaimed = s.counters.logs_unclaimed + o.0.unclaimed } in
      let t = record s { counters = c; providers = o.1 } in
      let a = accounted-persisted body o.0 t (append_envelopes m o.0.events s.disk) h in
      let b = normalize_logs_lem l j value s.providers in omega (arith, a, b)

  handled-accepted :
      (body : String) (o : NormalizeOutcome F) (s : Receiver D) (d : D)
      → is_handled (accepted l j m body o s d).0.status ≡ true
  unfolding accepted
  handled-accepted body o s d = elim (Bool-cases (o.dropped == 0)) [
    | inl e ↦ rw e refl
    | inr e ↦ rw e refl
  ]

  handled-persisted :
      (body : String) (o : NormalizeOutcome F) (s : Receiver D) (r : Result (Unit {0}) String × D)
      → is_handled (persisted l j m body o s r).0.status ≡ true
  unfolding persisted retryable
  handled-persisted body o s (ok _, d) = handled-accepted body o s d
  handled-persisted body o s (err e, d) = refl

  handled-value :
      (body : String) (value : Option V) (s : Receiver D)
      → is_handled (handle_value l j m body value s).0.status ≡ true
  unfolding handle_value handle_outcome
  handled-value body none s = refl
  handled-value body (some value) s =
      let o = normalize_logs l j value s.providers in
      let c = record s.counters { logs_unclaimed = s.counters.logs_unclaimed + o.0.unclaimed } in
      handled-persisted body o.0 (record s { counters = c; providers = o.1 })
        (append_envelopes m o.0.events s.disk)

  handled-read : (c : Capped) (s : Receiver D) → is_handled (handle_read l j m c s).0.status ≡ true
  unfolding handle_read retryable
  handled-read too_large s = refl
  handled-read failed s = refl
  handled-read (whole raw) s =
      handled-value (m.from_utf8_lossy raw) (m.parse (m.from_utf8_lossy raw)) s

  handled-discard : (c : Capped) (s : Receiver D) → is_handled (discard c s).0.status ≡ true
  handled-discard too_large s = refl
  handled-discard failed s = refl
  handled-discard (whole raw) s = refl

  -- A request is refused with 403 or 404 and leaves the receiver as it is, or it is answered with
  -- 200, 413 or 503 and names no host that is not a loopback one.
  pub handle_request_lem :
      (r : Request) (s : Receiver D)
      → (is_refused (handle_request l j m r s).0.status ≡ true) × ((handle_request l j m r s).1 ≡ s)
        ⊎ (is_handled (handle_request l j m r s).0.status ≡ true) × (is_forbidden r.host ≡ false)
  unfolding handle_request handle_logs handle_metrics
  handle_request_lem r s = elim (Bool-cases (is_forbidden r.host)) [
    | inl e ↦ rw e (inl (refl, refl))
    | inr e ↦ rw e (elim (Bool-cases r.is_post) [
      | inr p ↦ rw p (inl (refl, refl))
      | inl p ↦ rw p (elim (Bool-cases (str_eq r.url "/v1/logs")) [
        | inl u ↦ rw u (inr (handled-read (read_capped_body r.body) (counted s), refl))
        | inr u ↦ rw u (elim (Bool-cases (str_eq r.url "/v1/metrics")) [
          | inl v ↦ rw v (inr (handled-discard (read_capped_body r.body) s, refl))
          | inr v ↦ rw v (inl (refl, refl))
        ])
      ])
    ])
  ]
