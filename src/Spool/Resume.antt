-- ===== src/Spool/Resume.antt =====
-- A file that is read in two goes, while it grows.
use mathlib.Core.List.{append_assoc}
use agentic_footprint.Prelude.{
  ℕ, ◌+◌, ◌≤◌, String, ◌≡◌, refl, sym, ap, ◌∙◌, false, List, [], ◌∷◌, ◌++◌, length, take, drop,
  arith, inl, inr, Bool-cases, length-append,
}
use agentic_footprint.Events.Validate.{RejectReason, Result}
use agentic_footprint.Events.Parse.{ParsedLine}
use agentic_footprint.Spool.Tail.{tail, newlines, is_newline}
use agentic_footprint.Spool.Frames.{
  frame, frame-newline, frame-byte, put, joined, frame-append, joined-frame, length-joined-append,
}
use agentic_footprint.Spool.Count.{
  drop-+, take-+, drop-append, take-append, drop-length, take-length, newlines-append, length-drop,
}
use agentic_footprint.Spool.Lines.{rejects_in-append, events_in-append, opaque_in-append}
use agentic_footprint.Spool.Reading.{tail-within}

newlines-put :
    (b : ℕ) (X : List (List ℕ) × List ℕ)
    → is_newline b ≡ false
    → newlines (joined (put b X).0) ≡ newlines (joined X.0)
newlines-put b ([], left) e = refl
newlines-put b (l ∷ ls, left) e = rw e (omega arith)

length-put : (b : ℕ) (X : List (List ℕ) × List ℕ) → length (put b X).0 ≡ length X.0
length-put b ([], left) = refl
length-put b (l ∷ ls, left) = refl

-- A complete line holds one newline, its last byte.
newlines-frame : (bs : List ℕ) → newlines (joined (frame bs).0) ≡ length (frame bs).0
newlines-frame [] = unfold frame in refl
newlines-frame (b ∷ bs) =
    let ih = newlines-frame bs in
    elim (Bool-cases (is_newline b)) [
      | inl e ↦ rw (frame-newline b bs e) (omega (arith, ih))
      | inr e ↦
          rw (frame-byte b bs e) (newlines-put b (frame bs) e ∙ ih ∙ sym (length-put b (frame bs)))
    ]

module _ (content more : List ℕ) (from : ℕ) (h : from ≤ length content) where
  abbrev lines : List (List ℕ)
  lines = (frame (drop from content)).0

  abbrev left : List ℕ
  left = (frame (drop from content)).1

  -- Where the first read stops.
  abbrev stop : ℕ
  stop = from + length (joined lines)

  content_split : joined lines ++ left ≡ drop from content
  content_split = joined-frame (drop from content)

  stop_bound : stop ≤ length content
  stop_bound = omega (
    arith,
    length-drop from content,
    length-append (joined lines) left,
    ap (λ (x : List ℕ). length x) content_split,
    h,
  )

  rest_of : drop stop (content ++ more) ≡ left ++ more
  rest_of =
      drop-+ from (length (joined lines)) (content ++ more)
      ∙ ap (drop (length (joined lines))) (
          drop-append from content more h
          ∙ ap (λ x. x ++ more) (sym content_split)
          ∙ append_assoc (joined lines) left more)
      ∙ drop-length (joined lines) (left ++ more)

  number_of :
      newlines (take stop (content ++ more)) ≡ newlines (take from (content ++ more)) + length lines
  number_of =
      let lines_at : take (length (joined lines)) (drop from (content ++ more)) ≡ joined lines =
        ap (take (length (joined lines))) (
          drop-append from content more h
          ∙ ap (λ x. x ++ more) (sym content_split)
          ∙ append_assoc (joined lines) left more)
        ∙ take-length (joined lines) (left ++ more) in
      ap newlines (
        take-+ from (length (joined lines)) (content ++ more)
        ∙ ap (λ x. take from (content ++ more) ++ x) lines_at)
      ∙ newlines-append (take from (content ++ more)) (joined lines)
      ∙ ap (λ k. newlines (take from (content ++ more)) + k) (newlines-frame (drop from content))

  all_lines : (frame (drop from (content ++ more))).0 ≡ lines ++ (frame (left ++ more)).0
  all_lines =
      ap (λ x. (frame x).0) (drop-append from content more h)
      ∙ ap (λ (x : List (List ℕ) × List ℕ). x.0) (frame-append (drop from content) more)

-- Reading a file up to its last complete line, and then again from there once it has grown, gives what one read of the
-- grown file gives: no event is lost, repeated or reordered, a line that was written in part is read when it is
-- complete, and the rejected lines keep their offsets and line numbers. The first offset lies within the file.
pub tail-resume :
    {V F : Type 0} (decode : List ℕ → String)
    (parse : String → Result (ParsedLine V F) RejectReason) (content more : List ℕ) (from : ℕ)
    → from ≤ length content
    → let first = tail decode parse content from in
      let second = tail decode parse (content ++ more) first.new_offset in
      let whole = tail decode parse (content ++ more) from in
      (whole.events ≡ first.events ++ second.events)
      × (whole.opaque_events ≡ first.opaque_events ++ second.opaque_events)
      × (whole.rejected ≡ first.rejected ++ second.rejected)
      × (whole.new_offset ≡ second.new_offset)
tail-resume decode parse content more from h =
    let ls = lines content more from h in
    let at = stop content more from h in
    let later = (frame (left content more from h ++ more)).0 in
    let (events1, opaque1, rejected1, offset1) = tail-within decode parse content from h in
    let (events2, opaque2, rejected2, offset2) =
      tail-within decode parse (content ++ more) at
        (omega (arith, stop_bound content more from h, length-append content more)) in
    let (events, opaque_events, rejected, offset) =
      tail-within decode parse (content ++ more) from
        (omega (arith, h, length-append content more)) in
    let all_of = all_lines content more from h in
    let rest = rest_of content more from h in
    let number : 1 + newlines (take from content) + length ls
        ≡ 1 + newlines (take at (content ++ more)) =
      omega (arith, number_of content more from h, ap newlines (take-append from content more h)) in
    (
      rw (offset1, events, events1, events2, all_of, rest) (events_in-append decode parse ls later),
      rw (offset1, opaque_events, opaque1, opaque2, all_of, rest)
          (opaque_in-append decode parse ls later),
      rw
          (
            offset1,
            rejected,
            rejected1,
            rejected2,
            all_of,
            rest,
            ← number,
            take-append from content more h,
          )
          (rejects_in-append decode parse from (1 + newlines (take from content)) ls later),
      rw (offset1, offset, offset2, all_of, rest) (omega (arith, length-joined-append ls later)),
    )
