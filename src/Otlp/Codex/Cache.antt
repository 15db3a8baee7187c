-- ===== src/Otlp/Codex/Cache.antt =====
-- crates/af-otlp/src/normalize/codex.rs: `ProviderCache`.
use agentic_footprint.Prelude.{
  ℕ, String, Option, List, [], ◌∷◌, ◌++◌, length, if◌then◌else◌, is_some, ltb,
}
use agentic_footprint.Prelude.Keyed.{string_key, lookup, alter, remove}

-- `insertion_order` has the oldest conversation first.
pub record ProviderCache : Type 0 where
  pub by_conversation : List (String × String)
  pub insertion_order : List String

abbrev pub no_providers : ProviderCache
no_providers = record { by_conversation = []; insertion_order = [] }

abbrev pub provider_cache_cap : ℕ
provider_cache_cap = 512

abbrev pub evict_oldest : List String → List (String × String) → ProviderCache
evict_oldest [] m = record { by_conversation = m; insertion_order = [] }
evict_oldest (evicted ∷ order) m = record {
  by_conversation = remove evicted m;
  insertion_order = order;
}

unfoldable pub insert : String → String → ProviderCache → ProviderCache
insert conversation provider c =
    let m = alter conversation provider (λ _. provider) c.by_conversation in
    let order = c.insertion_order ++ conversation ∷ [] in
    if is_some (lookup conversation c.by_conversation)
    then record c { by_conversation = m }
    else if ltb provider_cache_cap (length order)
    then evict_oldest order m
    else record { by_conversation = m; insertion_order = order }

unfoldable pub get : String → ProviderCache → Option String
get conversation c = lookup conversation c.by_conversation
