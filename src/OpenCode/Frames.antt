-- ===== src/OpenCode/Frames.antt =====
-- The stream's framing, described line by line and then as a whole.
use Prim.Native.Char.{code}
use agentic_footprint.Prelude.{
  ℕ, String, ◌≡◌, refl, sym, ap, ◌∙◌, inl, inr, true, Option, none, some, List, [], ◌∷◌, ◌++◌, map,
  filter_map, str_eq, if◌then◌else◌, Bool-cases, unwrap_or, ◌==◌, ==_iff, false≢true,
}
use agentic_footprint.Prelude.Text.{join, strip_prefix, starts_with, trim_end_matches}
use agentic_footprint.Json.{Json}
use agentic_footprint.Events.Validate.{Result, ok, err}
use agentic_footprint.OpenCode.{SourceEvent}
use agentic_footprint.OpenCode.Normalize.{Library}
use agentic_footprint.OpenCode.Stream.{
  Files, Held, is_line_end, push_data, and_on, process_parsed, process_frame, flush, read_line,
  collect_lines, collect_reader,
}
use agentic_footprint.OpenCode.Restart.{process_all}

abbrev push_line : String → List (List String) → List (List String)
push_line line [] = (line ∷ []) ∷ []
push_line line (b ∷ bs) = (line ∷ b) ∷ bs

-- The lines between the blank lines.
abbrev pub blocks : List String → List (List String)
blocks [] = [] ∷ []
blocks (line ∷ lines) =
    let rest = blocks lines in if str_eq line "" then [] ∷ rest else push_line line rest

abbrev pub data_field : String → Option String
data_field line = elim (strip_prefix "data:" line) [
  | none ↦ none
  | some value ↦ some (unwrap_or (strip_prefix " " value) value)
]

abbrev pub trimmed : String → String
trimmed raw = trim_end_matches is_line_end raw

module _ {V F D : Type 0} (files : Files V F D) where
  abbrev event_of : List String → List (SourceEvent V) → List (SourceEvent V)
  event_of [] rest = rest
  event_of (x ∷ d) rest = elim (files.parse_event (join "\n" (x ∷ d))) [
    | err _ ↦ rest
    | ok e ↦ e ∷ rest
  ]

  abbrev events_of : List (List String) → List (SourceEvent V)
  events_of [] = []
  events_of (b ∷ bs) = event_of (filter_map data_field b) (events_of bs)

  -- The events of a stream: each block of lines has the lines of its data joined and parsed; what
  -- has no data or does not parse is left out.
  abbrev pub stream_events : List String → List (SourceEvent V)
  stream_events raws = events_of (blocks (map trimmed raws))

  -- The fields `d` stand before the first block.
  abbrev events_behind : List String → List (List String) → List (SourceEvent V)
  events_behind d [] = event_of d []
  events_behind d (b ∷ bs) = event_of (d ++ filter_map data_field b) (events_of bs)

append_nil {ℓ} : {A : Type ℓ} (xs : List A) → xs ++ [] ≡ xs
append_nil [] = refl
append_nil (x ∷ xs) = ap (λ ys. x ∷ ys) (append_nil xs)

append_one {ℓ} :
    {A : Type ℓ} (xs : List A) (x : A) (ys : List A) → (xs ++ x ∷ []) ++ ys ≡ xs ++ x ∷ ys
append_one [] x ys = refl
append_one (z ∷ xs) x ys = ap (λ w. z ∷ w) (append_one xs x ys)

not_comment : (line : String) → starts_with ":" line ≡ true → strip_prefix "data:" line ≡ none
not_comment String.[] h = refl
not_comment (String.◌∷◌ c s) h = elim (Bool-cases (100 == code c)) [
  | inl e ↦
      (let p : 100 ≡ code c = (==_iff 100 (code c)).0 e in absurd (false≢true (rw (sym p) at h)))
  | inr e ↦ rw e refl
]

push_data-comment :
    (line : String) (d : List String) → starts_with ":" line ≡ true → push_data line d ≡ d
unfolding push_data
push_data-comment line d h =
    ap
      (λ o. elim o as (λ _. List String) [
        | none ↦ d
        | some v ↦ d ++ unwrap_or (strip_prefix " " v) v ∷ []
      ])
      (not_comment line h)

fields-by :
    (o : Option String) (d rest : List String)
    → d
        ++ elim (elim o as (λ _. Option String) [
          | none ↦ none
          | some v ↦ some (unwrap_or (strip_prefix " " v) v)
        ])
            as (λ _. List String) [ none ↦ rest | some x ↦ x ∷ rest ]
      ≡ elim o as (λ _. List String) [
        | none ↦ d
        | some v ↦ d ++ unwrap_or (strip_prefix " " v) v ∷ []
      ]
        ++ rest
fields-by none d rest = refl
fields-by (some v) d rest = sym (append_one d (unwrap_or (strip_prefix " " v) v) rest)

push_data-fields :
    (line : String) (d b : List String)
    → d ++ filter_map data_field (line ∷ b) ≡ push_data line d ++ filter_map data_field b
unfolding push_data
push_data-fields line d b = fields-by (strip_prefix "data:" line) d (filter_map data_field b)

module _ {V F T D : Type 0} (j : Json V F) (l : Library T) (files : Files V F D)
    (session_id : String) (cursor : Option String) where
  abbrev run : List (SourceEvent V) → ℕ → Held V D → Result (Unit {0}) String × (ℕ × Held V D)
  run = process_all j l files session_id cursor

  events_behind-push_line :
      (line : String) (d : List String) (bs : List (List String))
      → events_behind files d (push_line line bs) ≡ events_behind files (push_data line d) bs
  events_behind-push_line line d [] =
      ap (λ f. event_of files f []) (push_data-fields line d [] ∙ append_nil (push_data line d))
  events_behind-push_line line d (b ∷ bs) =
      ap (λ f. event_of files f (events_of files bs)) (push_data-fields line d b)

  events_behind-none : (bs : List (List String)) → events_behind files [] bs ≡ events_of files bs
  events_behind-none [] = refl
  events_behind-none (b ∷ bs) = refl

  comment-or :
      (line : String) (d : List String)
      (next : List String → ℕ → Held V D → Result (Unit {0}) String × (ℕ × Held V D)) (n : ℕ)
      (h : Held V D)
      → (if starts_with ":" line then next d n h else next (push_data line d) n h)
        ≡ next (push_data line d) n h
  comment-or line d next n h = elim (Bool-cases (starts_with ":" line)) [
    | inl e ↦ rw e (ap (λ f. next f n h) (sym (push_data-comment line d e)))
    | inr e ↦ rw e refl
  ]

  flush-parsed :
      (rest : List (SourceEvent V)) (n : ℕ) (h : Held V D) (r : Result (SourceEvent V) String)
      → and_on (run rest) n (process_parsed j l files session_id cursor r n h)
        ≡ run (elim r [ err _ ↦ rest | ok e ↦ e ∷ rest ]) n h
  unfolding process_parsed process_all
  flush-parsed rest n h (err e) = refl
  flush-parsed rest n h (ok e) = refl

  flush-run :
      (d : List String) (rest : List (SourceEvent V)) (n : ℕ) (h : Held V D)
      → flush j l files session_id cursor (run rest) d n h ≡ run (event_of files d rest) n h
  unfolding flush process_frame
  flush-run [] rest n h = refl
  flush-run (x ∷ d) rest n h = flush-parsed rest n h (files.parse_event (join "\n" (x ∷ d)))

  collect_lines-run :
      (raws : List String) (d : List String) (n : ℕ) (h : Held V D)
      → collect_lines j l files session_id cursor (map ok raws) d n h
        ≡ run (events_behind files d (blocks (map trimmed raws))) n h
  unfolding collect_lines process_all read_line
  collect_lines-run [] d n h =
      flush-run d [] n h ∙ ap (λ f. run (event_of files f []) n h) (sym (append_nil d))
  collect_lines-run (raw ∷ raws) d n h =
      let line = trimmed raw in
      let bs = blocks (map trimmed raws) in
      let next : (f : List String) (m : ℕ) (k : Held V D)
          → Result (Unit {0}) String × (ℕ × Held V D) =
        collect_lines j l files session_id cursor (map ok raws) in
      let ih : (f : List String) (m : ℕ) (k : Held V D)
          → next f m k ≡ run (events_behind files f bs) m k =
        λ f m k. collect_lines-run raws f m k in
      elim (Bool-cases (str_eq line "")) [
        | inl e ↦ rw e (
            ap (λ g. flush j l files session_id cursor g d n h) (λ i m k. ih [] m k i)
            ∙ flush-run d (events_behind files [] bs) n h
            ∙ ap (λ es. run (event_of files d es) n h) (events_behind-none bs)
            ∙ ap (λ f. run (event_of files f (events_of files bs)) n h) (sym (append_nil d)))
        | inr e ↦ rw e (
            comment-or line d next n h
            ∙ ih (push_data line d) n h
            ∙ ap (λ f. run f n h) (sym (events_behind-push_line line d bs)))
      ]

  -- Reading the lines of a response that no error ends processes the events of
  -- the stream in their order: the data of each block of lines between blank ones, joined and
  -- parsed.
  pub collect_reader_lem :
      (raws : List String) (n : ℕ) (h : Held V D)
      → collect_reader j l files session_id cursor (map ok raws) n h
        ≡ process_all j l files session_id cursor (stream_events files raws) n h
  unfolding collect_reader
  collect_reader_lem raws n h =
      collect_lines-run raws [] n h
      ∙ ap (λ es. run es n h) (events_behind-none (blocks (map trimmed raws)))
