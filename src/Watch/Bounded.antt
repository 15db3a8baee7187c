-- ===== src/Watch/Bounded.antt =====
-- crates/af-cli/src/cmd/watch.rs: `BoundedSet`, which tells ids that were announced lately.
pub mod Window
use agentic_footprint.Prelude.{
  ℕ, String, Bool, true, false, not, List, [], ◌∷◌, ◌++◌, max, length, ltb, if◌then◌else◌, filter,
  str_eq,
}
use agentic_footprint.Prelude.Keyed.{string_key, contains, set_insert}

-- `order` has the oldest id first.
pub record BoundedSet : Type 0 where
  pub seen : List String
  pub order : List String
  pub capacity : ℕ

-- `BoundedSet::new`.
abbrev pub new : ℕ → BoundedSet
new capacity = record { seen = []; order = []; capacity = max capacity 1 }

-- `BTreeSet::remove`.
abbrev pub set_remove : String → List String → List String
set_remove x xs = filter (λ y. not (str_eq y x)) xs

-- The loop that pops the oldest id while there are more than the capacity.
unfoldable pub evict : ℕ → List String → List String → List String × List String
evict capacity [] seen = ([], seen)
evict capacity (oldest ∷ order) seen =
    let rest = evict capacity order (set_remove oldest seen) in
    if ltb capacity (length (oldest ∷ order)) then rest else (oldest ∷ order, seen)

unfoldable pub insert : String → BoundedSet → Bool × BoundedSet
unfolding evict
insert key s =
    let kept = evict s.capacity (s.order ++ key ∷ []) (set_insert key s.seen) in
    if contains s.seen key
    then (false, s)
    else (true, record { seen = kept.1; order = kept.0; capacity = s.capacity })

-- The answers to a sequence of calls.
unfoldable pub insert_all : List String → BoundedSet → List Bool
unfolding insert
insert_all [] s = []
insert_all (key ∷ keys) s = (insert key s).0 ∷ insert_all keys (insert key s).1
