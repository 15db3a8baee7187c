-- ===== src/Events/Parse/Opaque.antt =====
-- crates/af-events/src/lib.rs: the events of a type that the program does not know.
use Prim.Native.String.{len}
use agentic_footprint.Prelude.{
  ℕ, ◌≤◌, String, str_append, ◌≡◌, refl, sym, ap, ◌∙◌, Bool, true, false, Option, none, some, ltb,
  str_eq, is_some, if◌then◌else◌, arith,
}
use agentic_footprint.Json.{Json, get_str}
use agentic_footprint.Events.Validate.{
  RejectReason, json, unknown_version, Result, ok, err, ◌>>=◌, map_err, check_version,
  check_schema_version, schema, is_supported_version,
}
use agentic_footprint.Events.Validate.Version.{IsSupported, is_supported_version-IsSupported}
use agentic_footprint.Events.Parse.{
  ParsedLine, OpaqueEvent, known, opaque, Decoder, ok_or, require, non_empty, no_error,
  required_string, parse_known, parse_opaque, parse_collector, parse_value, is_known, is_known_tag,
  parse_line_preserving_unknown, only_known, parse_line,
}

bind-ok :
    {T U E : Type 0} (m : Result T E) (f : T → Result U E) (b : U)
    → (m >>= f) ≡ ok b
    → (a : T) × (m ≡ ok a) × (f a ≡ ok b)
bind-ok (ok a) f b h = (a, refl, h)
bind-ok (err e) f b h = absurd (cc)

if-ok :
    (b : Bool) (e : RejectReason)
    → ◌≡◌ {A = Result (Unit {0}) RejectReason} (if b then ok tt else err e) (ok tt)
    → b ≡ true
if-ok true e h = refl
if-ok false e h = absurd (cc)

require-ok : (b : Bool) (e : RejectReason) (u : Unit {0}) → require b e ≡ ok u → b ≡ true
require-ok true e u h = refl
require-ok false e u h = absurd (cc)

map_err-ok : {T E G : Type 0} (r : Result T E) (f : E → G) (a : T) → map_err f r ≡ ok a → r ≡ ok a
map_err-ok (ok b) f a h = cc
map_err-ok (err e) f a h = absurd (cc)

no_error-ok :
    (o : Option String) (f : String → RejectReason) (u : Unit {0}) → no_error o f ≡ ok u → o ≡ none
no_error-ok none f u h = refl
no_error-ok (some e) f u h = absurd (cc)

non_empty-some :
    (o : Option String) (s : String) → non_empty o ≡ some s → (o ≡ some s) × (str_eq s "" ≡ false)
non_empty-some none s h = absurd (cc)
non_empty-some (some t) s h = if_not (str_eq t "") refl h
  where
    if_not :
        (b : Bool)
        → str_eq t "" ≡ b
        → (if b then none else some t) ≡ some s
        → (some t ≡ some s) × (str_eq s "" ≡ false)
    if_not true e k = absurd (cc)
    if_not false e k = (let same : t ≡ s = cc in (k, rw (← same) e))

ok_or-ok : {T E : Type 0} (o : Option T) (e : E) (a : T) → ok_or o e ≡ ok a → o ≡ some a
ok_or-ok none e a h = absurd (cc)
ok_or-ok (some b) e a h = cc

long_enough : (n : ℕ) → (if ltb n 16 then false else true) ≡ true → 16 ≤ n
long_enough n h = ground arith

module _ {V F : Type 0} (j : Json V F) (d : Decoder V F) where
  -- A member of an object that is a text and not empty.
  abbrev pub Names : V → String → String → Type 0
  Names value key s = (get_str j value key ≡ some s) × (str_eq s "" ≡ false)

  abbrev pub IsOpaque : V → OpaqueEvent V → Type 0
  IsOpaque value o =
      (o.json ≡ value)
      × Names value "schema_version" o.schema_version
      × Names value "event_id" o.event_id
      × (16 ≤ len o.event_id)
      × Names value "ts" o.ts
      × (d.ts_error o.ts ≡ none)
      × Names value "session_id" o.session_id
      × Names value "type" o.type_tag
      × (is_some (j.get value "payload") ≡ true)

  required_string-Names :
      (value : V) (key s : String) → required_string j d value key ≡ ok s → Names value key s
  unfolding required_string
  required_string-Names value key s h =
      non_empty-some (get_str j value key) s (ok_or-ok (non_empty (get_str j value key)) _ s h)

  IsOpaque-ok :
      (value : V) (x o : OpaqueEvent V)
      → ◌≡◌ {A = Result (OpaqueEvent V) RejectReason} (ok x) (ok o)
      → IsOpaque value x
      → IsOpaque value o
  IsOpaque-ok value x o h v = (let same : x ≡ o = cc in rw (← same) v)

  parse_opaque-IsOpaque :
      (value : V) (o : OpaqueEvent V) → parse_opaque j d value ≡ ok o → IsOpaque value o
  unfolding parse_opaque
  parse_opaque-IsOpaque value o h =
      let names = required_string-Names value in
      let (version, h1, k1) = bind-ok (required_string j d value "schema_version") _ o h in
      let (event_id, h2, k2) = bind-ok (required_string j d value "event_id") _ o k1 in
      let (_, h3, k3) =
        bind-ok (require (if ltb (len event_id) 16 then false else true) _) _ o k2 in
      let (ts, h4, k4) = bind-ok (required_string j d value "ts") _ o k3 in
      let (_, h5, k5) = bind-ok (no_error (d.ts_error ts) _) _ o k4 in
      let (_, _, k6) = bind-ok (parse_collector j d value) _ o k5 in
      let (session_id, h7, k7) = bind-ok (required_string j d value "session_id") _ o k6 in
      let (type_tag, h8, k8) = bind-ok (required_string j d value "type") _ o k7 in
      let (_, h9, k9) = bind-ok (require (is_some (j.get value "payload")) _) _ o k8 in
      IsOpaque-ok value _ o k9 (
        refl,
        names "schema_version" version h1,
        names "event_id" event_id h2,
        long_enough (len event_id) (require-ok _ _ _ h3),
        names "ts" ts h4,
        no_error-ok (d.ts_error ts) _ _ h5,
        names "session_id" session_id h7,
        names "type" type_tag h8,
        require-ok _ _ _ h9,
      )

  IsOpaque-same :
      (value : V) (x o : OpaqueEvent V)
      → ◌≡◌ {A = Result (ParsedLine V F) RejectReason} (ok (opaque x)) (ok (opaque o))
      → parse_opaque j d value ≡ ok x
      → IsOpaque value o
  IsOpaque-same value x o h k =
      let same : x ≡ o = cc in parse_opaque-IsOpaque value o (rw (← same) k)

  unknown_type :
      (value : V) (b : Bool) (o : OpaqueEvent V)
      → (if b
          then (parse_known j d value >>= λ e. ok (known e))
          else (parse_opaque j d value >>= λ x. ok (opaque x)))
        ≡ ok (opaque o)
      → (b ≡ false) × IsOpaque value o
  unknown_type value true o h =
      let (e, _, k) = bind-ok (parse_known j d value) _ (opaque o) h in absurd (cc)
  unknown_type value false o h =
      let (x, p, k) = bind-ok (parse_opaque j d value) _ (opaque o) h in
      (refl, IsOpaque-same value x o k p)

  parse_value-opaque :
      (value : V) (o : OpaqueEvent V)
      → parse_value j d value ≡ ok (opaque o)
      → (check_schema_version j value ≡ ok tt)
        × (is_known (get_str j value "type") ≡ false)
        × IsOpaque value o
  unfolding parse_value
  parse_value-opaque value o h =
      let (_, p, k) = bind-ok (check_schema_version j value) _ (opaque o) h in
      let (unknown, v) = unknown_type value (is_known (get_str j value "type")) o k in
      (p, unknown, v)

  supported :
      (value : V) (version : String)
      → get_str j value "schema_version" ≡ some version
      → check_schema_version j value ≡ ok tt
      → IsSupported version
  unfolding check_schema_version
  supported value version e h = (is_supported_version-IsSupported version).0 (
      if-ok (is_supported_version version) (unknown_version version) (sym (ap check_version e) ∙ h))

  -- A line that is read as an event of an unknown type is a JSON value with a supported version, a type
  -- that is none of the known ones, the required texts of the envelope, an event id of 16 bytes at
  -- least, a date that parses and a payload, all as the event has them; and `parse_line` rejects it for
  -- its type.
  pub parse_line_preserving_unknown-IsOpaque :
      (debug_text : String → String) (line : String) (o : OpaqueEvent V)
      → parse_line_preserving_unknown j d line ≡ ok (opaque o)
      → (value : V) × (d.from_str line ≡ ok value)
        × IsOpaque value o
        × IsSupported o.schema_version
        × (is_known_tag o.type_tag ≡ false)
        × (parse_line j d debug_text line
            ≡ err (schema (str_append "/type: unknown event type " (debug_text o.type_tag))))
  unfolding parse_line_preserving_unknown parse_line only_known
  parse_line_preserving_unknown-IsOpaque debug_text line o h =
      let (value, p, k) = bind-ok (map_err json (d.from_str line)) _ (opaque o) h in
      let (checked, unknown, v) = parse_value-opaque value o k in
      let (_, version, _, _, _, _, _, tag, _) = v in
      (
        value,
        map_err-ok (d.from_str line) json value p,
        v,
        supported value o.schema_version version.0 checked,
        sym (ap is_known tag.0) ∙ unknown,
        rw h refl,
      )
