-- ===== src/Spool/Lines.antt =====
-- What the loop of `tail` gathers from some complete lines.
use mathlib.Core.List.{append-nil, append_assoc}
use agentic_footprint.Prelude.{
  ℕ, suc, ◌+◌, String, ◌≡◌, refl, sym, ap, ◌∙◌, List, [], ◌∷◌, ◌++◌, map, length, arith,
  length-append,
}
use agentic_footprint.Events.{Envelope}
use agentic_footprint.Events.Validate.{RejectReason, Result, ok, err}
use agentic_footprint.Events.Parse.{OpaqueEvent, ParsedLine, known, opaque}
use agentic_footprint.Spool.Tail.{RejectedLine, Cursor, rebase, classify, read_line}
use agentic_footprint.Spool.Frames.{joined, read_all}

abbrev events_of_result : {V F : Type 0} → Result (ParsedLine V F) RejectReason → List (Envelope F)
events_of_result (ok (known e)) = e ∷ []
events_of_result (ok (opaque o)) = []
events_of_result (err reason) = []

abbrev opaque_of_result :
    {V F : Type 0} → Result (ParsedLine V F) RejectReason → List (OpaqueEvent V)
opaque_of_result (ok (known e)) = []
opaque_of_result (ok (opaque o)) = o ∷ []
opaque_of_result (err reason) = []

abbrev rejects_of_result :
    {V F : Type 0} → ℕ → ℕ → String → Result (ParsedLine V F) RejectReason → List RejectedLine
rejects_of_result offset number line (ok p) = []
rejects_of_result offset number line (err reason) =
    record { line = line; reason = reason; byte_offset = offset; line_number = number } ∷ []

module _ {V F : Type 0} (decode : List ℕ → String)
    (parse : String → Result (ParsedLine V F) RejectReason) where
  -- The events of some lines; an empty line has none.
  abbrev pub events_in : List (List ℕ) → List (Envelope F)
  events_in [] = []
  events_in ([] ∷ ls) = events_in ls
  events_in ((b ∷ l) ∷ ls) = events_of_result (parse (decode (b ∷ l))) ++ events_in ls

  abbrev pub opaque_in : List (List ℕ) → List (OpaqueEvent V)
  opaque_in [] = []
  opaque_in ([] ∷ ls) = opaque_in ls
  opaque_in ((b ∷ l) ∷ ls) = opaque_of_result (parse (decode (b ∷ l))) ++ opaque_in ls

  -- The rejected lines, the first of the lines being at the given byte and having the given number.
  abbrev pub rejects_in : ℕ → ℕ → List (List ℕ) → List RejectedLine
  rejects_in offset number [] = []
  rejects_in offset number ([] ∷ ls) = rejects_in (offset + 1) (number + 1) ls
  rejects_in offset number ((b ∷ l) ∷ ls) =
      rejects_of_result offset number (decode (b ∷ l)) (parse (decode (b ∷ l)))
      ++ rejects_in (offset + length (b ∷ l) + 1) (number + 1) ls

  -- The loop's variables after some lines.
  abbrev after_lines : ℕ → Cursor V F → List (List ℕ) → Cursor V F
  after_lines from c ls = record {
    events = c.events ++ events_in ls;
    opaque_events = c.opaque_events ++ opaque_in ls;
    rejected = c.rejected ++ rejects_in (from + c.cursor) (c.lines_in_buf + 1) ls;
    cursor = c.cursor + length (joined ls);
    consumed = c.cursor + length (joined ls);
    lines_in_buf = c.lines_in_buf + length ls;
  }

  read_line-classified :
      (from : ℕ) (b : ℕ) (l : List ℕ) (c : Cursor V F) (r : Result (ParsedLine V F) RejectReason)
      → classify decode parse (from + c.cursor) (c.lines_in_buf + 1) (decode (b ∷ l)) r (record c {
        cursor = c.cursor + length (b ∷ l) + 1;
        consumed = c.cursor + length (b ∷ l) + 1;
        lines_in_buf = c.lines_in_buf + 1;
      })
        ≡ record {
          events = c.events ++ events_of_result r;
          opaque_events = c.opaque_events ++ opaque_of_result r;
          rejected =
              c.rejected
              ++ rejects_of_result (from + c.cursor) (c.lines_in_buf + 1) (decode (b ∷ l)) r;
          cursor = c.cursor + length (b ∷ l) + 1;
          consumed = c.cursor + length (b ∷ l) + 1;
          lines_in_buf = c.lines_in_buf + 1;
        }
  unfolding classify
  read_line-classified from b l c (ok (known e)) =
      rw (append-nil c.opaque_events, append-nil c.rejected) refl
  read_line-classified from b l c (ok (opaque o)) =
      rw (append-nil c.events, append-nil c.rejected) refl
  read_line-classified from b l c (err reason) =
      rw (append-nil c.events, append-nil c.opaque_events) refl

  abbrev after_line : ℕ → List ℕ → Cursor V F → Cursor V F
  after_line from [] c = record c {
    cursor = c.cursor + 1;
    consumed = c.cursor + 1;
    lines_in_buf = c.lines_in_buf + 1;
  }
  after_line from (b ∷ l) c = record {
    events = c.events ++ events_of_result (parse (decode (b ∷ l)));
    opaque_events = c.opaque_events ++ opaque_of_result (parse (decode (b ∷ l)));
    rejected =
        c.rejected
        ++ rejects_of_result (from + c.cursor) (c.lines_in_buf + 1) (decode (b ∷ l))
            (parse (decode (b ∷ l)));
    cursor = c.cursor + length (b ∷ l) + 1;
    consumed = c.cursor + length (b ∷ l) + 1;
    lines_in_buf = c.lines_in_buf + 1;
  }

  read_line_lem :
      (from : ℕ) (l : List ℕ) (c : Cursor V F)
      → read_line decode parse from l c ≡ after_line from l c
  unfolding read_line
  read_line_lem from [] c =
      ap (λ x. record c { cursor = x + 1; consumed = x + 1; lines_in_buf = c.lines_in_buf + 1 })
        (omega arith)
  read_line_lem from (b ∷ l) c = read_line-classified from b l c (parse (decode (b ∷ l)))

  Cursor-eq :
      (c d : Cursor V F)
      → c.events ≡ d.events
      → c.opaque_events ≡ d.opaque_events
      → c.rejected ≡ d.rejected
      → c.cursor ≡ d.cursor
      → c.consumed ≡ d.consumed
      → c.lines_in_buf ≡ d.lines_in_buf
      → c ≡ d
  Cursor-eq c d a b e f g h = λ i. record {
    events = a i;
    opaque_events = b i;
    rejected = e i;
    cursor = f i;
    consumed = g i;
    lines_in_buf = h i;
  }

  pub read_all-after_lines :
      (from : ℕ) (ls : List (List ℕ)) (c : Cursor V F)
      → c.consumed ≡ c.cursor
      → read_all decode parse from c ls ≡ after_lines from c ls
  read_all-after_lines from [] c h =
      Cursor-eq c _ (sym (append-nil _)) (sym (append-nil _)) (sym (append-nil _)) (omega arith)
        (omega (arith, h)) (omega arith)
  read_all-after_lines from ([] ∷ ls) c h =
      let at : from + (c.cursor + 1) ≡ from + c.cursor + 1 = omega arith in
      ap (λ d. read_all decode parse from d ls) (read_line_lem from [] c)
      ∙ read_all-after_lines from ls (after_line from [] c) refl
      ∙ Cursor-eq (after_lines from (after_line from [] c) ls) (after_lines from c ([] ∷ ls)) refl
          refl (ap (λ x. c.rejected ++ rejects_in x (c.lines_in_buf + 1 + 1) ls) at) (omega arith)
          (omega arith) (omega arith)
  read_all-after_lines from ((b ∷ l) ∷ ls) c h =
      let at : from + (c.cursor + length (b ∷ l) + 1) ≡ from + c.cursor + length (b ∷ l) + 1 =
        omega arith in
      let r = parse (decode (b ∷ l)) in
      let first = rejects_of_result (from + c.cursor) (c.lines_in_buf + 1) (decode (b ∷ l)) r in
      let more : ℕ → List RejectedLine = λ x. rejects_in x (c.lines_in_buf + 1 + 1) ls in
      ap (λ d. read_all decode parse from d ls) (read_line_lem from (b ∷ l) c)
      ∙ read_all-after_lines from ls (after_line from (b ∷ l) c) refl
      ∙ Cursor-eq (after_lines from (after_line from (b ∷ l) c) ls)
          (after_lines from c ((b ∷ l) ∷ ls))
          (append_assoc c.events (events_of_result r) (events_in ls))
          (append_assoc c.opaque_events (opaque_of_result r) (opaque_in ls))
          (append_assoc c.rejected first (more (from + (c.cursor + length (b ∷ l) + 1)))
            ∙ ap (λ x. c.rejected ++ (first ++ more x)) at)
          (omega (arith, length-append l (b'\n' ∷ joined ls)))
          (omega (arith, length-append l (b'\n' ∷ joined ls))) (omega arith)

  rejects_of_result-rebase :
      (n offset number : ℕ) (line : String) (r : Result (ParsedLine V F) RejectReason)
      (rest : List RejectedLine)
      → map (rebase n) (rejects_of_result offset number line r ++ rest)
        ≡ rejects_of_result offset (number + n) line r ++ map (rebase n) rest
  rejects_of_result-rebase n offset number line (ok p) rest = refl
  rejects_of_result-rebase n offset number line (err reason) rest = refl

  -- Line numbers counted from the start of the read, moved by the lines before it.
  pub rejects_in-rebase :
      (n offset number : ℕ) (ls : List (List ℕ))
      → map (rebase n) (rejects_in offset number ls) ≡ rejects_in offset (number + n) ls
  rejects_in-rebase n offset number [] = refl
  rejects_in-rebase n offset number ([] ∷ ls) =
      let e : number + 1 + n ≡ number + n + 1 = omega arith in
      rejects_in-rebase n (offset + 1) (number + 1) ls ∙ ap (λ x. rejects_in (offset + 1) x ls) e
  rejects_in-rebase n offset number ((b ∷ l) ∷ ls) =
      let e : number + 1 + n ≡ number + n + 1 = omega arith in
      let o = offset + length (b ∷ l) + 1 in
      let first : List RejectedLine → List RejectedLine = λ rest.
        rejects_of_result offset (number + n) (decode (b ∷ l)) (parse (decode (b ∷ l))) ++ rest in
      rejects_of_result-rebase n offset number (decode (b ∷ l)) (parse (decode (b ∷ l)))
        (rejects_in o (number + 1) ls)
      ∙ ap first (rejects_in-rebase n o (number + 1) ls ∙ ap (λ x. rejects_in o x ls) e)

  pub rejects_in-append :
      (offset number : ℕ) (xs ys : List (List ℕ))
      → rejects_in offset number (xs ++ ys)
        ≡ rejects_in offset number xs
          ++ rejects_in (offset + length (joined xs)) (number + length xs) ys
  rejects_in-append offset number [] ys =
      let e : offset ≡ offset + 0 = omega arith in
      let g : number ≡ number + 0 = omega arith in
      ap (λ x. rejects_in x number ys) e ∙ ap (λ x. rejects_in (offset + 0) x ys) g
  rejects_in-append offset number ([] ∷ xs) ys =
      let e : offset + 1 + length (joined xs) ≡ offset + suc (length (joined xs)) = omega arith in
      let g : number + 1 + length xs ≡ number + suc (length xs) = omega arith in
      let more : ℕ → ℕ → List RejectedLine =
        λ x y. rejects_in (offset + 1) (number + 1) xs ++ rejects_in x y ys in
      rejects_in-append (offset + 1) (number + 1) xs ys
      ∙ ap (λ x. more x (number + 1 + length xs)) e
      ∙ ap (λ y. more (offset + suc (length (joined xs))) y) g
  rejects_in-append offset number ((b ∷ l) ∷ xs) ys =
      let o = offset + length (b ∷ l) + 1 in
      let first = rejects_of_result offset number (decode (b ∷ l)) (parse (decode (b ∷ l))) in
      let e : o + length (joined xs) ≡ offset + length (joined ((b ∷ l) ∷ xs)) =
        omega (arith, length-append l (b'\n' ∷ joined xs)) in
      let g : number + 1 + length xs ≡ number + suc (length xs) = omega arith in
      let more : ℕ → ℕ → List RejectedLine =
        λ x y. first ++ (rejects_in o (number + 1) xs ++ rejects_in x y ys) in
      ap (λ r. first ++ r) (rejects_in-append o (number + 1) xs ys)
      ∙ ap (λ x. more x (number + 1 + length xs)) e
      ∙ ap (λ y. more (offset + length (joined ((b ∷ l) ∷ xs))) y) g
      ∙ sym (
          append_assoc first (rejects_in o (number + 1) xs)
            (rejects_in (offset + length (joined ((b ∷ l) ∷ xs))) (number + suc (length xs)) ys))

  pub events_in-append :
      (xs ys : List (List ℕ)) → events_in (xs ++ ys) ≡ events_in xs ++ events_in ys
  events_in-append [] ys = refl
  events_in-append ([] ∷ xs) ys = events_in-append xs ys
  events_in-append ((b ∷ l) ∷ xs) ys =
      ap (λ r. events_of_result (parse (decode (b ∷ l))) ++ r) (events_in-append xs ys)
      ∙ sym (append_assoc (events_of_result (parse (decode (b ∷ l)))) (events_in xs) (events_in ys))

  pub opaque_in-append :
      (xs ys : List (List ℕ)) → opaque_in (xs ++ ys) ≡ opaque_in xs ++ opaque_in ys
  opaque_in-append [] ys = refl
  opaque_in-append ([] ∷ xs) ys = opaque_in-append xs ys
  opaque_in-append ((b ∷ l) ∷ xs) ys =
      ap (λ r. opaque_of_result (parse (decode (b ∷ l))) ++ r) (opaque_in-append xs ys)
      ∙ sym (append_assoc (opaque_of_result (parse (decode (b ∷ l)))) (opaque_in xs) (opaque_in ys))
