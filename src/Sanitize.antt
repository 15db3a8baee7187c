-- ===== src/Sanitize.antt =====
-- crates/af-otlp/src/sanitize.rs: an untrusted id becomes one path component.
pub mod Laws
use Prim.Native.Char.{Char, code}
use agentic_footprint.Prelude.{String, Bool, true, false, ◌&&◌, ◌||◌, leb, ◌==◌, if◌then◌else◌}

abbrev pub is_ascii_alphanumeric : Char → Bool
is_ascii_alphanumeric c =
    leb b'0' (code c) && leb (code c) b'9'
    || (leb b'A' (code c) && leb (code c) b'Z' || leb b'a' (code c) && leb (code c) b'z')

abbrev pub is_kept : Char → Bool
is_kept c = is_ascii_alphanumeric c || (code c == b'.' || (code c == b'_' || code c == b'-'))

unfoldable pub strip : String → String
strip String.[] = ""
strip (String.◌∷◌ c s) = if is_kept c then String.◌∷◌ c (strip s) else strip s

unfoldable pub guard : String → String
guard String.[] = "x"
guard (String.◌∷◌ c s) = if code c == b'.' then String.◌∷◌ "x" (String.◌∷◌ c s) else String.◌∷◌ c s

unfoldable pub sanitize_id : String → String
unfolding strip guard
sanitize_id raw = guard (strip raw)
