-- ===== src/Spool/Again.antt =====
-- A file that is read again at the offset that the last read returned.
use mathlib.Core.List.{append-nil}
use agentic_footprint.Prelude.{
  ℕ, ◌+◌, ◌≤◌, String, ◌≡◌, refl, sym, ap, ◌∙◌, List, [], ◌∷◌, ◌++◌, length, drop, arith,
  length-append,
}
use agentic_footprint.Events.Validate.{RejectReason, Result}
use agentic_footprint.Events.Parse.{ParsedLine}
use agentic_footprint.Spool.Tail.{tail}
use agentic_footprint.Spool.Frames.{frame, joined, frame-append, joined-frame}
use agentic_footprint.Spool.Count.{drop-+, drop-length, length-drop}
use agentic_footprint.Spool.Reading.{tail_lem, tail-within, start_of}

nothing : {A : Type 0} (xs ys : List A) → xs ≡ xs ++ ys → ys ≡ []
nothing xs [] h = refl
nothing xs (y ∷ ys) h =
    absurd (omega (arith, ap (λ (l : List _). length l) h, length-append xs (y ∷ ys)))

-- What is left after the last newline has no complete line.
frame-left : (bs : List ℕ) → (frame (frame bs).1).0 ≡ []
frame-left bs = nothing (frame bs).0 (frame (frame bs).1).0 (
    ap (λ x. (frame x).0) (sym (append-nil bs))
    ∙ ap (λ (x : List (List ℕ) × List ℕ). x.0) (frame-append bs [])
    ∙ ap (λ x. (frame bs).0 ++ (frame x).0) (append-nil (frame bs).1))

module _ (file : List ℕ) (at : ℕ) (h : at ≤ length file) where
  -- Where a read from `at` stops.
  abbrev end_of : ℕ
  end_of = at + length (joined (frame (drop at file)).0)

  end_of-bound : end_of ≤ length file
  end_of-bound = omega (
    arith,
    h,
    length-drop at file,
    length-append (joined (frame (drop at file)).0) (frame (drop at file)).1,
    ap (λ (x : List ℕ). length x) (joined-frame (drop at file)),
  )

  no_lines_left : (frame (drop end_of file)).0 ≡ []
  no_lines_left =
      ap (λ x. (frame x).0)
        (drop-+ at (length (joined (frame (drop at file)).0)) file
          ∙ ap (drop (length (joined (frame (drop at file)).0))) (sym (joined-frame (drop at file)))
          ∙ drop-length (joined (frame (drop at file)).0) (frame (drop at file)).1)
      ∙ frame-left (drop at file)

start_of-bound : (file : List ℕ) (from : ℕ) → start_of file from ≤ length file
start_of-bound file from = ground arith

module _ {V F : Type 0} (decode : List ℕ → String)
    (parse : String → Result (ParsedLine V F) RejectReason) where
  -- The offset that a read returns lies within the file, and a read of the same file from there finds nothing and
  -- returns the same offset, whatever offset the first read had.
  pub tail-again :
      (file : List ℕ) (from : ℕ)
      → let at = (tail decode parse file from).new_offset in
        let r = tail decode parse file at in
        (at ≤ length file)
        × (r.events ≡ [])
        × (r.opaque_events ≡ [])
        × (r.rejected ≡ [])
        × (r.new_offset ≡ at)
  tail-again file from =
      let start = start_of file from in
      let bound = start_of-bound file from in
      let at = end_of file start bound in
      let moved : (tail decode parse file from).new_offset ≡ at =
        (tail_lem decode parse file from).3 in
      let (events, opaque_events, rejected, offset) =
        tail-within decode parse file at (end_of-bound file start bound) in
      let none = no_lines_left file start bound in
      rw moved (
        end_of-bound file start bound,
        rw (events, none) refl,
        rw (opaque_events, none) refl,
        rw (rejected, none) refl,
        rw (offset, none) (omega arith),
      )
