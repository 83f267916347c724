-- ===== src/Core/ContainerKeyCache.antt =====
-- endpoint/core/src/ContainerKeyCache.cpp: the newest known keys of every container. Each operation is
-- one step under the cache's lock. Versions are natural numbers.
pub mod Laws
use privmx_endpoint.Common.{
  ltb, ◌==◌, if◌then◌else◌, length, Bytes, bytes_eq, ℕ, Bool, true, false, not, ◌&&◌, Option, none,
  some, List, [], ◌∷◌,
}
use privmx_endpoint.Utils.Key.{bytes_key}
use privmx_endpoint.Utils.ThreadSaveMap.{Map}
use privmx_endpoint.Utils.ThreadSaveMap

pub record KeyEntry : Type 0 where
  pub key_id : Bytes
  pub key_data : Bytes

pub record CachedModuleKeys : Type 0 where
  pub keys : List KeyEntry
  pub current_key_id : Bytes
  pub module_schema_version : ℕ
  pub module_resource_id : Bytes
  pub context_id : Bytes
  pub module_version : ℕ

abbrev pub Cache : Type 0
Cache = Map Bytes CachedModuleKeys

unfoldable pub get_cached_module_keys : Cache → Bytes → Option CachedModuleKeys
get_cached_module_keys s module_id = ThreadSaveMap.get module_id s

-- `std::set::erase`.
unfoldable pub erase_id : Bytes → List Bytes → List Bytes
erase_id id [] = []
erase_id id (x ∷ xs) = let rest = erase_id id xs in if bytes_eq id x then rest else x ∷ rest

unfoldable pub contains_id : Bytes → List Bytes → Bool
contains_id id [] = false
contains_id id (x ∷ xs) = if bytes_eq id x then true else contains_id id xs

-- The loop over the cached keys: the identifiers that no key has.
unfoldable pub missing_ids : List KeyEntry → List Bytes → List Bytes
missing_ids [] ids = ids
missing_ids (key ∷ keys) ids =
    missing_ids keys (if contains_id key.key_id ids then erase_id key.key_id ids else ids)

-- `<` between a number and an optional one: a missing one is the smallest.
unfoldable pub less_than_optional : ℕ → Option ℕ → Bool
less_than_optional n none = false
less_than_optional n (some m) = ltb n m

unfoldable pub has_required_ids : Option (List Bytes) → CachedModuleKeys → Bool
has_required_ids none k = true
has_required_ids (some ids) k = length (missing_ids k.keys ids) == 0

-- The schema's version is looked at only where key identifiers are required.
unfoldable pub is_too_old : Option (List Bytes) → Option ℕ → CachedModuleKeys → Bool
is_too_old none minimum k = false
is_too_old (some ids) minimum k = less_than_optional k.module_schema_version minimum

unfoldable pub get_keys : Cache → Bytes → Option (List Bytes) → Option ℕ → Option CachedModuleKeys
get_keys s module_id required_key_ids minimum = elim (get_cached_module_keys s module_id) [
  | none ↦ none
  | some k ↦
      if not (has_required_ids required_key_ids k)
      then none
      else if is_too_old required_key_ids minimum k
      then none
      else some k
]

unfoldable pub set : Cache → Bytes → CachedModuleKeys → Bool → Cache
set s module_id new_keys force = elim (get_cached_module_keys s module_id) [
  | none ↦ ThreadSaveMap.set module_id new_keys s
  | some old ↦
      if ltb new_keys.module_version old.module_version && not force
      then s
      else ThreadSaveMap.set module_id new_keys s
]

unfoldable pub clear : Cache → Option Bytes → Cache
clear s none = []
clear s (some module_id) = ThreadSaveMap.erase module_id s
