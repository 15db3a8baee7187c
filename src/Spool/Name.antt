-- ===== src/Spool/Name.antt =====
-- crates/af-spool/src/lib.rs: the grammar of spool file names.
pub mod Laws
use Prim.Native.Char.{code}
use agentic_footprint.Prelude.{
  String, str_append, Bool, true, false, ◌||◌, Option, none, some, ◌==◌, str_eq, if◌then◌else◌,
}

-- `path` is carried along unread.
pub record SpoolFile (P : Type 0) : Type 0 where
  pub collector : String
  pub session_id : String
  pub path : P

abbrev pub suffix : String
suffix = ".jsonl"

unfoldable pub spool_file_name : String → String → String
spool_file_name collector session_id =
    str_append collector (str_append "." (str_append session_id suffix))

-- `str::strip_suffix`.
unfoldable pub strip_suffix : String → Option String
strip_suffix String.[] = none
strip_suffix (String.◌∷◌ c s) =
    let rest = strip_suffix s in
    if str_eq (String.◌∷◌ c s) suffix
    then some ""
    else elim rest [ none ↦ none | some r ↦ some (String.◌∷◌ c r) ]

-- `str::split_once` at a dot.
unfoldable pub split_once : String → Option (String × String)
split_once String.[] = none
split_once (String.◌∷◌ c s) =
    let rest = split_once s in
    if code c == b'.'
    then some ("", s)
    else elim rest [ none ↦ none | some (l, r) ↦ some (String.◌∷◌ c l, r) ]

module _ {P : Type 0} where
  unfoldable pub from_parts : P → Option (String × String) → Option (SpoolFile P)
  from_parts path none = none
  from_parts path (some (collector, session_id)) =
      if str_eq collector "" || str_eq session_id ""
      then none
      else some (record { collector = collector; session_id = session_id; path = path })

  unfoldable pub from_rest : P → Option String → Option (SpoolFile P)
  from_rest path none = none
  from_rest path (some rest) = from_parts path (split_once rest)

  unfoldable pub parse_spool_filename : String → P → Option (SpoolFile P)
  parse_spool_filename file_name path = from_rest path (strip_suffix file_name)
