-- ===== src/Otlp/Authority.antt =====
-- crates/af-otlp/src/server.rs: `is_loopback_authority`, the test on the `Host` of a request.
use Prim.Native.Char.{code}
use agentic_footprint.Prelude.{
  ℕ, ◌+◌, String, Bool, true, false, ◌&&◌, Option, none, some, List, [], ◌∷◌, length, all, leb, ltb,
  ◌==◌, str_eq, if◌then◌else◌, ◌≡◌, refl,
}
use agentic_footprint.Prelude.Text.{strip_prefix}
use agentic_footprint.Events.Validate.{split_dots, all_digits}
use agentic_footprint.Otlp.Record.{unsigned, or_else}

-- `str::split_once` and `str::rsplit_once` at a character.
abbrev pub split_once_at : ℕ → String → Option (String × String)
split_once_at x String.[] = none
split_once_at x (String.◌∷◌ c s) =
    let rest = split_once_at x s in
    if code c == x
    then some ("", s)
    else elim rest [ none ↦ none | some (l, r) ↦ some (String.◌∷◌ c l, r) ]

abbrev pub rsplit_once_at : ℕ → String → Option (String × String)
rsplit_once_at x String.[] = none
rsplit_once_at x (String.◌∷◌ c s) =
    let rest = rsplit_once_at x s in
    elim rest [
      | some (l, r) ↦ some (String.◌∷◌ c l, r)
      | none ↦ if code c == x then some ("", s) else none
    ]

-- `str::matches(x).count()`.
abbrev pub count_matches : ℕ → String → ℕ
count_matches x String.[] = 0
count_matches x (String.◌∷◌ c s) = (if code c == x then 1 else 0) + count_matches x s

abbrev bracketed : String → Option (String × String) → String × Option String
bracketed authority none = (authority, none)
bracketed authority (some (host, tail)) =
    if str_eq tail "" then (host, none) else (host, or_else (strip_prefix ":" tail) (some tail))

abbrev plain : String → String × Option String
plain authority =
    if ltb 1 (count_matches b':' authority)
    then (authority, none)
    else elim (rsplit_once_at b':' authority) [
      | some (host, port) ↦ (host, some port)
      | none ↦ (authority, none)
    ]

unfoldable pub split_authority : String → String × Option String
split_authority authority = elim (strip_prefix "[" authority) [
  | some rest ↦ bracketed authority (split_once_at b']' rest)
  | none ↦ plain authority
]

unfoldable port_is_digits : Option String → Bool
unfolding all_digits
port_is_digits none = true
port_is_digits (some port) = if str_eq port "" then false else all_digits port

-- `part.parse::<u16>().is_ok_and(|n| n <= 255)`.
abbrev fits_u8 : Option ℕ → Bool
fits_u8 none = false
fits_u8 (some n) = if ltb n 65536 then leb n 255 else false

unfoldable is_octet : String → Bool
unfolding all_digits
is_octet part = if str_eq part "" then false else all_digits part && fits_u8 (unsigned part)

unfoldable is_loopback_octets : List String → Bool
unfolding is_octet
is_loopback_octets [] = false
is_loopback_octets (first ∷ rest) =
    if str_eq first "127" then (length rest == 3) && all is_octet rest else false

unfoldable is_loopback_host : String → Bool
unfolding is_loopback_octets split_dots
is_loopback_host host =
    if str_eq host "localhost"
    then true
    else if str_eq host "::1"
    then true
    else is_loopback_octets (split_dots host)

unfoldable pub is_loopback_authority : String → Bool
unfolding split_authority port_is_digits is_loopback_host
is_loopback_authority authority =
    let parts = split_authority authority in
    if port_is_digits parts.1 then is_loopback_host parts.0 else false

accepts : (is_loopback_authority "127.0.0.1:4318" && is_loopback_authority "[::1]:80") ≡ true
unfolding is_loopback_authority split_authority port_is_digits is_loopback_host is_loopback_octets
    split_dots is_octet all_digits
accepts = refl

refuses : is_loopback_authority "127.0.0.1.evil.com" ≡ false
unfolding is_loopback_authority split_authority port_is_digits is_loopback_host is_loopback_octets
    split_dots is_octet all_digits
refuses = refl
