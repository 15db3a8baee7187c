-- ===== src/Spool/Reading.antt =====
-- What a read of a spool file returns, in terms of the file's complete lines.
use agentic_footprint.Prelude.{
  ℕ, suc, ◌+◌, ◌≤◌, String, ◌≡◌, refl, ap, ◌∙◌, false, ◌&&◌, not, List, [], ◌∷◌, map, length, take,
  drop, is_empty, ltb, if◌then◌else◌, arith, inl, inr, Bool-cases,
}
use agentic_footprint.Events.Validate.{RejectReason, Result}
use agentic_footprint.Events.Parse.{ParsedLine}
use agentic_footprint.Spool.Tail.{
  RejectedLine, Cursor, tail, start, newlines, rebase, count_lines_before,
}
use agentic_footprint.Spool.Count.{count_lines_before_lem}
use agentic_footprint.Spool.Frames.{frame, joined, read_lines-eq-foldl}
use agentic_footprint.Spool.Lines.{
  events_in, opaque_in, rejects_in, rejects_in-rebase, read_all-after_lines,
}

-- Where a read from an offset starts, and the complete lines that it finds.
abbrev pub start_of : List ℕ → ℕ → ℕ
start_of file from = if ltb (length file) from then 0 else from

abbrev pub lines_from : List ℕ → ℕ → List (List ℕ)
lines_from file from = (frame (drop (start_of file from) file)).0

module _ {V F : Type 0} (decode : List ℕ → String)
    (parse : String → Result (ParsedLine V F) RejectReason) where
  rejected_lem :
      (file : List ℕ) (from : ℕ) (rejected : List RejectedLine)
      → rejected ≡ rejects_in decode parse from 1 (frame (drop from file)).0
      → (if not (is_empty rejected) && ltb 0 from
          then map (rebase (count_lines_before file from)) rejected
          else rejected)
        ≡ rejects_in decode parse from (1 + newlines (take from file)) (frame (drop from file)).0
  rejected_lem file from [] h =
      let n = newlines (take from file) in
      ap (map (rebase n)) h ∙ rejects_in-rebase decode parse n from 1 (frame (drop from file)).0
  rejected_lem file from (r ∷ rs) h =
      let n = newlines (take from file) in
      let ls = (frame (drop from file)).0 in
      elim (Bool-cases (ltb 0 from)) [
        | inl e ↦ rw e (
            ap (λ k. map (rebase k) (r ∷ rs)) (count_lines_before_lem file from)
            ∙ ap (map (rebase n)) h
            ∙ rejects_in-rebase decode parse n from 1 ls)
        | inr e ↦
            (let at_start : from ≡ 0 = ground arith in
              let none_before : 1 ≡ 1 + newlines (take from file) = rw at_start (omega arith) in
              rw e (h ∙ ap (λ x. rejects_in decode parse from x ls) none_before))
      ]

  -- A read from `from` starts there, or at the beginning when the file has become shorter than that. It returns the
  -- events and the opaque events of the complete lines that follow, in order, and a rejected line for each other that
  -- is not empty, with its offset and its line number in the file. The new offset is just behind the last of them.
  pub tail_lem :
      (file : List ℕ) (from : ℕ)
      → let r = tail decode parse file from in
        let at = start_of file from in
        let ls = lines_from file from in
        (r.events ≡ events_in decode parse ls)
        × (r.opaque_events ≡ opaque_in decode parse ls)
        × (r.rejected ≡ rejects_in decode parse at (1 + newlines (take at file)) ls)
        × (r.new_offset ≡ at + length (joined ls))
        × (r.complete_lines ≡ length ls)
        × (r.truncated ≡ ltb (length file) from)
  tail_lem file from =
      let at = start_of file from in
      let buf = drop at file in
      let ls = (frame buf).0 in
      let c_eq =
        read_lines-eq-foldl decode parse at (suc (length buf)) buf start (omega arith)
        ∙ read_all-after_lines decode parse at ls start refl in
      let here : at + 0 ≡ at = omega arith in
      unfold tail in
      (
        ap (λ (c : Cursor V F). c.events) c_eq,
        ap (λ (c : Cursor V F). c.opaque_events) c_eq,
        rejected_lem file at _ (
            ap (λ (c : Cursor V F). c.rejected) c_eq
            ∙ ap (λ x. rejects_in decode parse x 1 ls) here),
        ap (λ (c : Cursor V F). at + c.consumed) c_eq ∙ omega arith,
        ap (λ (c : Cursor V F). c.lines_in_buf) c_eq ∙ omega arith,
        refl,
      )

  -- The same, from an offset within the file.
  pub tail-within :
      (file : List ℕ) (from : ℕ)
      → from ≤ length file
      → let r = tail decode parse file from in
        let ls = (frame (drop from file)).0 in
        (r.events ≡ events_in decode parse ls)
        × (r.opaque_events ≡ opaque_in decode parse ls)
        × (r.rejected ≡ rejects_in decode parse from (1 + newlines (take from file)) ls)
        × (r.new_offset ≡ from + length (joined ls))
  tail-within file from h =
      let fits : ltb (length file) from ≡ false = ground arith in
      let at : start_of file from ≡ from = rw fits refl in
      let (events, opaque_events, rejected, new_offset, _, _) = tail_lem file from in
      (
        events ∙ ap (λ s. events_in decode parse (frame (drop s file)).0) at,
        opaque_events ∙ ap (λ s. opaque_in decode parse (frame (drop s file)).0) at,
        rejected
            ∙ ap
                (λ s.
                  rejects_in decode parse s (1 + newlines (take s file)) (frame (drop s file)).0)
                at,
        new_offset ∙ ap (λ s. s + length (joined (frame (drop s file)).0)) at,
      )
