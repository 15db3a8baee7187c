-- ===== src/Spool/Tail.antt =====
-- crates/af-spool/src/tail.rs: reading the complete lines that were appended since an offset.
use agentic_footprint.Prelude.{
  ℕ, zero, suc, ◌+◌, ◌-◌, min, String, Bool, ◌&&◌, not, Option, none, some, List, [], ◌∷◌, ◌++◌,
  map, length, take, drop, is_empty, ltb, ◌==◌, if◌then◌else◌,
}
use agentic_footprint.Events.{Envelope}
use agentic_footprint.Events.Validate.{RejectReason, Result, ok, err}
use agentic_footprint.Events.Parse.{OpaqueEvent, ParsedLine, known, opaque}

pub record RejectedLine : Type 0 where
  pub line : String
  pub reason : RejectReason
  pub byte_offset : ℕ
  pub line_number : ℕ

pub record TailResult (V F : Type 0) : Type 0 where
  pub events : List (Envelope F)
  pub opaque_events : List (OpaqueEvent V)
  pub new_offset : ℕ
  pub rejected : List RejectedLine
  pub truncated : Bool
  pub bytes_read : ℕ
  pub complete_lines : ℕ
  pub partial_line : Bool

-- The bytes before the first newline, and those after it.
unfoldable pub take_line : List ℕ → Option (List ℕ × List ℕ)
take_line [] = none
take_line (b ∷ bs) =
    let rest = take_line bs in
    if b == b'\n'
    then some ([], bs)
    else elim rest [ none ↦ none | some (line, after) ↦ some (b ∷ line, after) ]

abbrev pub is_newline : ℕ → Bool
is_newline b = b == b'\n'

abbrev pub newlines : List ℕ → ℕ
newlines [] = 0
newlines (b ∷ bs) = (if is_newline b then 1 else 0) + newlines bs

-- `count_lines_before`: the prefix of `upto` bytes is read in chunks.
abbrev pub chunk_len : ℕ
chunk_len = 65_536

unfoldable pub count_chunks : ℕ → List ℕ → ℕ → ℕ → ℕ
count_chunks zero bytes remaining lines = lines
count_chunks (suc fuel) bytes remaining lines =
    let chunk = take (min remaining chunk_len) bytes in
    let rest =
      count_chunks fuel (drop (min remaining chunk_len) bytes) (remaining - length chunk)
        (lines + newlines chunk) in
    if ltb 0 remaining && not (is_empty chunk) then rest else lines

unfoldable pub count_lines_before : List ℕ → ℕ → ℕ
count_lines_before bytes upto = count_chunks (suc upto) bytes upto 0

-- The variables of the loop.
pub record Cursor (V F : Type 0) : Type 0 where
  pub events : List (Envelope F)
  pub opaque_events : List (OpaqueEvent V)
  pub rejected : List RejectedLine
  pub cursor : ℕ
  pub consumed : ℕ
  pub lines_in_buf : ℕ

abbrev pub start : {V F : Type 0} → Cursor V F
start = record {
  events = [];
  opaque_events = [];
  rejected = [];
  cursor = 0;
  consumed = 0;
  lines_in_buf = 0;
}

abbrev pub rebase : ℕ → RejectedLine → RejectedLine
rebase preceding r = record r { line_number = r.line_number + preceding }

-- `decode` is `String::from_utf8_lossy`, and `parse` the events' `parse_line_preserving_unknown`.
module _ {V F : Type 0} (decode : List ℕ → String)
    (parse : String → Result (ParsedLine V F) RejectReason) where
  unfoldable pub classify :
      ℕ → ℕ → String → Result (ParsedLine V F) RejectReason → Cursor V F → Cursor V F
  classify offset number line (ok (known e)) c = record c { events = c.events ++ e ∷ [] }
  classify offset number line (ok (opaque o)) c = record c {
    opaque_events = c.opaque_events ++ o ∷ [];
  }
  classify offset number line (err reason) c = record c {
    rejected =
        c.rejected
        ++ record { line = line; reason = reason; byte_offset = offset; line_number = number } ∷ [];
  }

  -- One round, for the line that it found.
  unfoldable pub read_line : ℕ → List ℕ → Cursor V F → Cursor V F
  read_line start_offset line_bytes c =
      let moved = record c {
        cursor = c.cursor + length line_bytes + 1;
        consumed = c.cursor + length line_bytes + 1;
        lines_in_buf = c.lines_in_buf + 1;
      } in
      if is_empty line_bytes
      then moved
      else (let line = decode line_bytes in
          classify (start_offset + c.cursor) (c.lines_in_buf + 1) line (parse line) moved)

  -- `while let Some(pos) = …`, on the bytes from the cursor on.
  unfoldable pub read_lines : ℕ → ℕ → List ℕ → Cursor V F → Cursor V F
  read_lines zero start_offset bytes c = c
  read_lines (suc fuel) start_offset bytes c = elim (take_line bytes) [
    | none ↦ c
    | some (line, after) ↦ read_lines fuel start_offset after (read_line start_offset line c)
  ]

  unfoldable pub tail : List ℕ → ℕ → TailResult V F
  tail file from_offset =
      let truncated = ltb (length file) from_offset in
      let start_offset = if truncated then 0 else from_offset in
      let buf = drop start_offset file in
      let c = read_lines (suc (length buf)) start_offset buf start in
      record {
        events = c.events;
        opaque_events = c.opaque_events;
        new_offset = start_offset + c.consumed;
        rejected =
            if not (is_empty c.rejected) && ltb 0 start_offset
            then map (rebase (count_lines_before file start_offset)) c.rejected
            else c.rejected;
        truncated = truncated;
        bytes_read = length buf;
        complete_lines = c.lines_in_buf;
        partial_line = ltb c.consumed (length buf);
      }
