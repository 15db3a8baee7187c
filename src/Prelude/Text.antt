-- ===== src/Prelude/Text.antt =====
-- The functions of `str` that the program uses, on the characters of a native string.
pub mod Laws
use Prim.Native.Char.{Char, code}
use Prim.Native.Nat.{ℕ, zero, suc, ◌-◌}
use Prim.Native.String.{String, char_at, ◌++◌ as str_append}
use mathlib.Core.Bool.{Bool, false, ◌&&◌, ◌||◌}
use mathlib.Core.Option.{Option, none, some}
use mathlib.Core.List.{List, [], ◌∷◌}
use text.Mathlib.Text.{◌==◌ as str_eq}
use agentic_footprint.Prelude.Tests.{if◌then◌else◌, is_some, leb, ◌==◌}

abbrev pub strip_prefix : String → String → Option String
strip_prefix String.[] s = some s
strip_prefix (String.◌∷◌ c p) String.[] = none
strip_prefix (String.◌∷◌ c p) (String.◌∷◌ d s) = if code c == code d then strip_prefix p s else none

abbrev pub starts_with : String → String → Bool
starts_with p s = is_some (strip_prefix p s)

abbrev pub contains_str : String → String → Bool
contains_str p String.[] = starts_with p ""
contains_str p (String.◌∷◌ c s) = starts_with p (String.◌∷◌ c s) || contains_str p s

abbrev cons_unless : Bool → Char → String → String
cons_unless drop c String.[] = if drop then "" else String.◌∷◌ c ""
cons_unless drop c (String.◌∷◌ d s) = String.◌∷◌ c (String.◌∷◌ d s)

-- `str::trim_end_matches` of a set of characters.
abbrev pub trim_end_matches : (Char → Bool) → String → String
trim_end_matches p String.[] = ""
trim_end_matches p (String.◌∷◌ c s) = cons_unless (p c) c (trim_end_matches p s)

abbrev pub lower_char : Char → Char
lower_char c =
    if leb b'A' (code c) && leb (code c) b'Z'
    then char_at "abcdefghijklmnopqrstuvwxyz" (code c - b'A')
    else c

abbrev pub to_ascii_lowercase : String → String
to_ascii_lowercase String.[] = ""
to_ascii_lowercase (String.◌∷◌ c s) = String.◌∷◌ (lower_char c) (to_ascii_lowercase s)

-- `str::get(..n)` for a text of ASCII characters.
abbrev pub take_chars : ℕ → String → String
take_chars zero s = ""
take_chars (suc n) String.[] = ""
take_chars (suc n) (String.◌∷◌ c s) = String.◌∷◌ c (take_chars n s)

-- `[String]::join`.
abbrev pub join : String → List String → String
join sep [] = ""
join sep (x ∷ []) = x
join sep (x ∷ y ∷ xs) = str_append x (str_append sep (join sep (y ∷ xs)))

-- `match` on a text by its literals: one of them is the text.
abbrev pub one_of : String → List String → Bool
one_of s [] = false
one_of s (x ∷ xs) = str_eq s x || one_of s xs
