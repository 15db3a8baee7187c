-- ===== src/Ingest/Laws.antt =====
-- A spool file that is ingested again.
use agentic_footprint.Prelude.{
  ℕ, String, ◌≡◌, refl, sym, ap, ◌∙◌, true, List, [], ◌==◌, ==_iff, unwrap_or, Bool-cases, inl, inr,
  arith,
}
use mathlib.Core.List.{append-nil}
use mathlib.Core.Path.{subst}
use agentic_footprint.Prelude.Keyed.Laws.{lookup-alter}
use agentic_footprint.Events.Validate.{RejectReason, Result, ok}
use agentic_footprint.Events.{Envelope}
use agentic_footprint.Events.Parse.{ParsedLine, OpaqueEvent}
use agentic_footprint.Spool.Name.{SpoolFile}
use agentic_footprint.Spool.Tail.{TailResult, tail}
use agentic_footprint.Spool.Again.{tail-again}
use agentic_footprint.Store.{Store, Source, source_key}
use agentic_footprint.Store.Raw.{get_offset, set_offset, insert_events, insert_opaque_events}
use agentic_footprint.Ingest.{Ingesting, take_in, ingest_content, source_of}

get_offset-set_offset :
    {V F : Type 0} (source : Source) (n : ℕ) (s : Store V F)
    → get_offset source (set_offset source n s) ≡ n
unfolding get_offset set_offset
get_offset-set_offset source n s = ap (λ o. unwrap_or o 0) (lookup-alter source n s.ingest_offsets)

get_offset-inserts :
    {V F : Type 0} (source : Source) (es : List (Envelope F)) (os : List (OpaqueEvent V))
    (s : Store V F)
    → get_offset source (insert_opaque_events os (insert_events es s).1).1 ≡ get_offset source s
unfolding get_offset insert_events insert_opaque_events
get_offset-inserts source es os s = refl

module _ {P V F E : Type 0} (decode : List ℕ → String)
    (parse : String → Result (ParsedLine V F) RejectReason) (read : P → Result (List ℕ) E) where
  ingest_offsets-take_in :
      (file : SpoolFile P) (result : TailResult V F) (s : Ingesting P V F)
      → get_offset
          (source_of file)
          (take_in decode parse read file (get_offset (source_of file) s.store) result s).store
        ≡ result.new_offset
  unfolding take_in
  ingest_offsets-take_in file result s =
      elim (Bool-cases (result.new_offset == get_offset (source_of file) s.store)) [
        | inl e ↦ rw e (
            get_offset-inserts (source_of file) result.events result.opaque_events s.store
            ∙ sym ((==_iff result.new_offset (get_offset (source_of file) s.store)).0 e))
        | inr e ↦ rw e (get_offset-set_offset (source_of file) result.new_offset _)
      ]

  -- What a pass keeps when it finds nothing new.
  abbrev pub SameResults : Ingesting P V F → Ingesting P V F → Type 0
  SameResults s t =
      (t.store ≡ s.store)
      × (t.ingested ≡ s.ingested)
      × (t.opaque ≡ s.opaque)
      × (t.rejected ≡ s.rejected)
      × (t.events ≡ s.events)
      × (t.rejects ≡ s.rejects)

  take_in-nothing :
      (file : SpoolFile P) (offset : ℕ) (r : TailResult V F) (s : Ingesting P V F)
      → r.events ≡ []
      → r.opaque_events ≡ []
      → r.rejected ≡ []
      → r.new_offset ≡ offset
      → SameResults s (take_in decode parse read file offset r s)
  unfolding take_in insert_events insert_opaque_events
  take_in-nothing file offset r s e o j n =
      let same : (r.new_offset == offset) ≡ true = (==_iff r.new_offset offset).1 n in
      (
        rw (same, e, o) refl,
        rw e (omega arith),
        rw o (omega arith),
        rw j (omega arith),
        rw e (append-nil s.events),
        rw j (append-nil s.rejects),
      )

  -- A file that is ingested and has not changed since: its stored offset is the one that the read returned, and
  -- ingesting it again leaves the store, the counts, the events and the rejected lines as they are.
  pub ingest_content-again :
      (file : SpoolFile P) (content : List ℕ) (s : Ingesting P V F)
      → let t = (ingest_content decode parse read file (ok content) s).1 in
        let read_to =
          (tail decode parse content (get_offset (source_of file) s.store)).new_offset in
        (get_offset (source_of file) t.store ≡ read_to)
        × SameResults t (ingest_content decode parse read file (ok content) t).1
  unfolding ingest_content
  ingest_content-again file content s =
      let from = get_offset (source_of file) s.store in
      let first = tail decode parse content from in
      let t = take_in decode parse read file from first s in
      let stored = ingest_offsets-take_in file first s in
      let again = tail-again decode parse content from in
      (
        stored,
        subst
            (λ n. SameResults t (take_in decode parse read file n (tail decode parse content n) t))
            (sym stored)
            (take_in-nothing file first.new_offset (tail decode parse content first.new_offset) t
              again.1 again.2 again.3 again.4),
      )
