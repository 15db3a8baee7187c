-- ===== src/OpenCode/Paths.antt =====
-- crates/af-cli/src/cmd/opencode.rs: how a session id becomes part of a path or of a URL.
use Prim.Native.Char.{code}
use agentic_footprint.Prelude.{
  ℕ, ◌+◌, ◌-◌, ◌/◌, ◌%◌, String, str_append, Bool, true, ◌&&◌, ◌||◌, not, List, [], ◌∷◌, ◌==◌, leb,
  ltb, str_eq, if◌then◌else◌,
}
use agentic_footprint.Sanitize.{is_ascii_alphanumeric}
use agentic_footprint.Spool.Name.{spool_file_name}
use agentic_footprint.OpenCode.Normalize.{Library, digest_prefix}
use agentic_footprint.OpenCode.Stream.{canonical_server}

-- The characters of a text whose bytes are all letters, digits, dashes and underscores.
unfoldable pub all_safe : String → Bool
all_safe String.[] = true
all_safe (String.◌∷◌ c s) =
    (is_ascii_alphanumeric c || (code c == b'-' || code c == b'_')) && all_safe s

module _ {T : Type 0} (l : Library T) where
  unfoldable pub safe_component : String → String
  unfolding all_safe digest_prefix
  safe_component value =
      if not (str_eq value "") && all_safe value then value else digest_prefix l value 32

  unfoldable pub spool_name : String → String
  unfolding safe_component spool_file_name
  spool_name session_id = spool_file_name "opencode" (safe_component session_id)

  unfoldable pub cursor_name : String → String → String
  unfolding safe_component canonical_server digest_prefix
  cursor_name server session_id =
      str_append (digest_prefix l (canonical_server server) 24)
        (str_append "." (str_append (safe_component session_id) ".json"))

-- A digit of `{:02X}`, as the byte of its character.
abbrev pub hex_digit : ℕ → ℕ
hex_digit n = if ltb n 10 then b'0' + n else b'A' + n - 10

abbrev pub is_unreserved : ℕ → Bool
is_unreserved b =
    leb b'0' b && leb b b'9'
    || (leb b'A' b && leb b b'Z' || leb b'a' b && leb b b'z')
    || (b == b'-' || (b == b'_' || (b == b'.' || b == b'~')))

-- From the bytes of a text to the bytes of its encoding.
unfoldable pub percent_encode_path : List ℕ → List ℕ
percent_encode_path [] = []
percent_encode_path (b ∷ bs) =
    let rest = percent_encode_path bs in
    if is_unreserved b then b ∷ rest else b'%' ∷ hex_digit (b / 16) ∷ hex_digit (b % 16) ∷ rest
