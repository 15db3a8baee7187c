-- ===== src/Events/Validate.antt =====
-- crates/af-events/src/validate.rs: why a line is rejected, and the version test.
pub mod Version
use Prim.Native.Char.{code}
use agentic_footprint.Prelude.{
  String, str_append, Bool, true, false, ◌&&◌, not, Option, none, some, List, [], ◌∷◌, leb, ◌==◌,
  str_eq, if◌then◌else◌,
}
use agentic_footprint.Json.{Json, get_str}

pub data RejectReason : Type 0 where
  json : String → RejectReason
  schema : String → RejectReason
  unknown_version : String → RejectReason

-- `Result<T, E>`.
pub data Result (T E : Type 0) : Type 0 where
  ok : T → Result T E
  err : E → Result T E

infixl 5 ◌>>=◌ ◌>>◌
abbrev pub ◌>>=◌ : {T U E : Type 0} → Result T E → (T → Result U E) → Result U E
ok a >>= f = f a
err e >>= f = err e

abbrev pub ◌>>◌ : {U E : Type 0} → Result (Unit {0}) E → Result U E → Result U E
m >> k = m >>= λ _. k

abbrev pub map_err : {T E G : Type 0} → (E → G) → Result T E → Result T G
map_err f (ok a) = ok a
map_err f (err e) = err (f e)

-- `str::split` at a dot: the part before the first dot, and the other parts.
abbrev pub push_char : String → List String → List String
push_char c [] = c ∷ []
push_char c (p ∷ ps) = str_append c p ∷ ps

unfoldable pub split_dots : String → List String
split_dots String.[] = "" ∷ []
split_dots (String.◌∷◌ c s) =
    let rest = split_dots s in
    if code c == b'.' then "" ∷ rest else push_char (String.◌∷◌ c "") rest

unfoldable pub all_digits : String → Bool
all_digits String.[] = true
all_digits (String.◌∷◌ c s) = leb b'0' (code c) && leb (code c) b'9' && all_digits s

abbrev pub is_version : List String → Bool
is_version (major ∷ minor ∷ patch ∷ []) =
    str_eq major "0" && str_eq minor "1" && (not (str_eq patch "") && all_digits patch)
is_version _ = false

unfoldable pub is_supported_version : String → Bool
unfolding split_dots all_digits
is_supported_version version = is_version (split_dots version)

abbrev pub check_version : Option String → Result (Unit {0}) RejectReason
check_version none = ok tt
check_version (some version) =
    if is_supported_version version then ok tt else err (unknown_version version)

-- The validator's first violation, as its instance path and its text; `none` is a valid value.
abbrev pub located : Option (String × String) → Result (Unit {0}) RejectReason
located none = ok tt
located (some (path, error)) =
    err (schema (str_append (if str_eq path "" then "/" else path) (str_append ": " error)))

module _ {V F : Type 0} (j : Json V F) where
  unfoldable pub check_schema_version : V → Result (Unit {0}) RejectReason
  check_schema_version value = check_version (get_str j value "schema_version")
