-- ===== src/Otlp/Normalize.antt =====
-- crates/af-otlp/src/normalize.rs: the registry of normalizers over a batch of records.
use agentic_footprint.Prelude.{ℕ, suc, List, [], ◌∷◌, ◌++◌}
use agentic_footprint.Json.{Json}
use agentic_footprint.Events.{Envelope}
use agentic_footprint.Otlp.Record.{LogRecord, decode_logs}
use agentic_footprint.Otlp.Outcome.{
  RecordOutcome, envelope, not_applicable, dropped, Library, claude_code,
}
use agentic_footprint.Otlp.GenAi.{gen_ai}
use agentic_footprint.Otlp.Codex.{codex}
use agentic_footprint.Otlp.Codex.Cache.{ProviderCache}

-- What came of a batch, with the numbers of records that were claimed in vain and by nobody.
pub record NormalizeOutcome (F : Type 0) : Type 0 where
  pub events : List (Envelope F)
  pub dropped : ℕ
  pub unclaimed : ℕ

abbrev pub no_records : {F : Type 0} → NormalizeOutcome F
no_records = record { events = []; dropped = 0; unclaimed = 0 }

-- The `match` on what became of a record; `not_applicable` is a record that nobody claimed.
abbrev pub tally : {F : Type 0} → RecordOutcome F → NormalizeOutcome F → NormalizeOutcome F
tally (envelope e) o = record o { events = o.events ++ e ∷ [] }
tally dropped o = record o { dropped = suc o.dropped }
tally not_applicable o = record o { unclaimed = suc o.unclaimed }

-- The next normalizer is asked only about a record that is not claimed yet.
abbrev pub or_next :
    {F C : Type 0} → RecordOutcome F × C → (C → RecordOutcome F × C) → RecordOutcome F × C
or_next (envelope e, c) next = (envelope e, c)
or_next (dropped, c) next = (dropped, c)
or_next (not_applicable, c) next = next c

module _ {V F : Type 0} (l : Library F) (j : Json V F) where
  -- The registry's order: Claude Code, Codex, GenAI. Codex keeps a state between the batches.
  unfoldable pub normalize_record :
      LogRecord V → ℕ → ProviderCache → RecordOutcome F × ProviderCache
  unfolding claude_code codex gen_ai
  normalize_record r index c =
      or_next (claude_code l j r index, c)
        λ c1. or_next (codex l j r index c1) λ c2. (gen_ai l j r index, c2)

  unfoldable pub normalize_records :
      List (LogRecord V)
      → ℕ
      → NormalizeOutcome F
      → ProviderCache
      → NormalizeOutcome F × ProviderCache
  unfolding normalize_record
  normalize_records [] index o c = (o, c)
  normalize_records (r ∷ rs) index o c =
      let x = normalize_record r index c in normalize_records rs (suc index) (tally x.0 o) x.1

  unfoldable pub normalize_logs : V → ProviderCache → NormalizeOutcome F × ProviderCache
  unfolding decode_logs
  normalize_logs body c = normalize_records (decode_logs j l.whole body) 0 no_records c
