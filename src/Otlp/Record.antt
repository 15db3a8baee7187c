-- ===== src/Otlp/Record.antt =====
-- crates/af-otlp/src/normalize/record.rs: the tree of an OTLP export as flat records.
use Prim.Native.Char.{Char, code}
use agentic_footprint.Prelude.{
  ℕ, ◌+◌, ◌-◌, ◌*◌, ◌^◌, String, Bool, ◌&&◌, Option, none, some, List, [], ◌∷◌, ◌++◌, map, leb, ltb,
  if◌then◌else◌, and_then, filter_map, unwrap_or,
}
use agentic_footprint.Prelude.Int.{ℤ, pos, ◌-ℤ◌}
use agentic_footprint.Prelude.Keyed.{string_key, lookup, alter}
use agentic_footprint.Prelude.Text.{strip_prefix}
use agentic_footprint.Json.{Json, get_str}

pub record LogRecord (V : Type 0) : Type 0 where
  pub body : Option String
  pub time_unix_nano : Option ℤ
  pub attributes : List (String × V)
  pub scope_name : Option String

abbrev pub is_digit : Char → Bool
is_digit c = leb b'0' (code c) && leb (code c) b'9'

-- The number that decimal digits write, behind `n`.
abbrev pub digits : ℕ → String → Option ℕ
digits n String.[] = some n
digits n (String.◌∷◌ c s) = if is_digit c then digits (n * 10 + (code c - b'0')) s else none

abbrev pub unsigned : String → Option ℕ
unsigned String.[] = none
unsigned (String.◌∷◌ c s) = digits 0 (String.◌∷◌ c s)

abbrev pub below : ℕ → Option ℕ → Option ℕ
below limit none = none
below limit (some n) = if ltb n limit then some n else none

-- `str::parse::<u64>`.
unfoldable pub parse_u64 : String → Option ℕ
parse_u64 s = below (2 ^ 64) (unsigned (unwrap_or (strip_prefix "+" s) s))

abbrev negated : Option ℕ → Option ℤ
negated none = none
negated (some n) = some (pos 0 -ℤ pos n)

abbrev non_negative : Option ℕ → Option ℤ
non_negative none = none
non_negative (some n) = some (pos n)

-- `str::parse::<i128>`.
unfoldable pub parse_i128 : String → Option ℤ
parse_i128 s = elim (strip_prefix "-" s) [
  | some rest ↦ negated (below (2 ^ 127 + 1) (unsigned rest))
  | none ↦ non_negative (below (2 ^ 127) (unsigned (unwrap_or (strip_prefix "+" s) s)))
]

-- `Option::or_else`.
abbrev pub or_else : {A : Type 0} → Option A → Option A → Option A
or_else none b = b
or_else (some a) b = some a

-- `HashMap::extend`: the later entry of a key stays.
unfoldable pub extend : {V : Type 0} → List (String × V) → List (String × V) → List (String × V)
extend m [] = m
extend m ((k, v) ∷ more) = extend (alter k v (λ _. v) m) more

abbrev pub concat_map : {A B : Type 0} → (B → List A) → List B → List A
concat_map f [] = []
concat_map f (x ∷ xs) = f x ++ concat_map f xs

-- `whole` reads an `f64` that is finite, not negative and without a fraction as a `u64`.
module _ {V F : Type 0} (j : Json V F) (whole : F → Option ℕ) where
  open j use {get, as_str, as_f64, as_u64, as_i64, as_array, as_bool}

  abbrev pub attr_string : V → Option String
  attr_string value = get_str j value "stringValue"

  -- `intValue`, then `stringValue`, then `doubleValue`: the first that is there decides.
  unfoldable pub attr_u64 : V → Option ℕ
  unfolding parse_u64
  attr_u64 value = elim (get value "intValue") [
    | some int_value ↦ or_else (as_u64 int_value) (and_then (as_str int_value) parse_u64)
    | none ↦ elim (get_str j value "stringValue") [
      | some string_value ↦ parse_u64 string_value
      | none ↦ and_then (and_then (get value "doubleValue") as_f64) whole
    ]
  ]

  -- `LogRecord::string`, `LogRecord::u64` and `LogRecord::bool`.
  abbrev pub string_of : LogRecord V → String → Option String
  string_of record_ key = and_then (lookup key record_.attributes) attr_string

  unfoldable pub u64_of : LogRecord V → String → Option ℕ
  unfolding attr_u64
  u64_of record_ key = and_then (lookup key record_.attributes) attr_u64

  abbrev pub bool_of : LogRecord V → String → Option Bool
  bool_of record_ key =
      and_then (and_then (lookup key record_.attributes) (λ v. get v "boolValue")) as_bool

  unfoldable pub record_time_unix_nano : V → Option ℤ
  unfolding parse_i128
  record_time_unix_nano value = elim (as_str value) [
    | some s ↦ parse_i128 s
    | none ↦ or_else (as_i64 value) (and_then (as_u64 value) (λ n. some (pos n)))
  ]

  abbrev pub array_at : V → String → Option (List V)
  array_at value key = and_then (get value key) as_array

  -- `value.pointer("/a/b")`.
  abbrev pub pointer : V → String → String → Option V
  pointer value a b = and_then (get value a) (λ v. get v b)

  abbrev attribute_entry : V → Option (String × V)
  attribute_entry attribute =
      and_then (get_str j attribute "key")
        (λ k. and_then (get attribute "value") (λ v. some (k, v)))

  unfoldable pub attribute_map : List V → List (String × V)
  unfolding extend
  attribute_map values = extend [] (filter_map attribute_entry values)

  unfoldable pub attributes_at : Option V → List (String × V)
  unfolding attribute_map
  attributes_at value = attribute_map (unwrap_or (and_then value as_array) [])

  unfoldable pub decode_record : List (String × V) → Option String → V → LogRecord V
  unfolding attributes_at extend record_time_unix_nano
  decode_record attributes scope_name value = record {
    body = and_then (pointer value "body" "stringValue") as_str;
    time_unix_nano = and_then (get value "timeUnixNano") record_time_unix_nano;
    attributes = extend attributes (attributes_at (get value "attributes"));
    scope_name = scope_name;
  }

  unfoldable pub decode_scope : List (String × V) → V → List (LogRecord V)
  unfolding attributes_at extend decode_record
  decode_scope resource_attrs scope_log =
      map
        (decode_record
          (extend resource_attrs (attributes_at (pointer scope_log "scope" "attributes")))
          (and_then (pointer scope_log "scope" "name") as_str))
        (unwrap_or (array_at scope_log "logRecords") [])

  unfoldable pub decode_logs : V → List (LogRecord V)
  unfolding attributes_at decode_scope
  decode_logs value =
      concat_map
        (λ resource_log.
          concat_map (decode_scope (attributes_at (pointer resource_log "resource" "attributes")))
            (unwrap_or (array_at resource_log "scopeLogs") []))
        (unwrap_or (array_at value "resourceLogs") [])
