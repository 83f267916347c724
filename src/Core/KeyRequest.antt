-- ===== src/Core/KeyRequest.antt =====
-- endpoint/core/src/KeyProvider.cpp, class KeyDecryptionAndVerificationRequest: the keys that are to be
-- decrypted, by container. A set of identifiers is a list in the set's order.
pub mod Laws
use privmx_endpoint.Common.{
  if◌then◌else◌, Result, ok, err, Bytes, bytes_eq, Bool, true, false, Option, none, some, List, [],
  ◌∷◌, ◌++◌, map, key_provider_request_completed,
}
use privmx_endpoint.Utils.Key.{bytes_key}
use privmx_endpoint.Utils.ThreadSaveMap.{Map, get, set}
use privmx_endpoint.Core.ContainerKeyCache.{contains_id, erase_id}
use privmx_endpoint.Core.KeyProvider.{EncKeyLocation, KeyEntry, other}
use privmx_endpoint.Core.KeyProvider.Users.{location_key}

pub record KeyRequest (J : Type 0) : Type 0 where
  pub request_data : Map EncKeyLocation (Map Bytes (KeyEntry J))
  pub completed : Bool

module _ {J : Type 0} where
  -- An entry whose data is empty.
  abbrev pub no_entry : Bytes → KeyEntry J
  no_entry id = record { key_id = id; data' = other }

  unfoldable pub entry_with : Bytes → List (KeyEntry J) → KeyEntry J
  entry_with id [] = no_entry id
  entry_with id (k ∷ ks) = if bytes_eq k.key_id id then k else entry_with id ks

  -- `insert_or_assign` of one entry after another.
  unfoldable pub assign_all : List (KeyEntry J) → Map Bytes (KeyEntry J) → Map Bytes (KeyEntry J)
  assign_all [] m = m
  assign_all (k ∷ ks) m = assign_all ks (set k.key_id k m)

  -- The container's keys, where it has been found.
  unfoldable pub assign_found :
      List (KeyEntry J)
      → EncKeyLocation
      → KeyRequest J
      → Option (Map Bytes (KeyEntry J))
      → KeyRequest J
  assign_found ks location r (some found) = record r {
    request_data = set location (assign_all ks found) r.request_data;
  }
  assign_found ks location r none = record r {
    request_data = set location (assign_all ks []) r.request_data;
  }

  unfoldable pub assign_at : List (KeyEntry J) → EncKeyLocation → KeyRequest J → KeyRequest J
  assign_at ks location r = assign_found ks location r (get location r.request_data)

  unfoldable pub add_one :
      List (KeyEntry J) → Bytes → EncKeyLocation → KeyRequest J → KeyRequest J × Result (Unit {0})
  add_one keys id location r =
      if r.completed
      then (r, err key_provider_request_completed)
      else (assign_at (entry_with id keys ∷ []) location r, ok tt)

  -- The first entry for each identifier, and the identifiers that are left.
  unfoldable pub take_entries : List (KeyEntry J) → List Bytes → List (KeyEntry J) × List Bytes
  take_entries [] ids = ([], ids)
  take_entries (k ∷ ks) ids = elim (contains_id k.key_id ids) [
    | true ↦ let (taken, left) = take_entries ks (erase_id k.key_id ids) in (k ∷ taken, left)
    | false ↦ take_entries ks ids
  ]

  unfoldable pub wanted_entries : List (KeyEntry J) → List Bytes → List (KeyEntry J)
  wanted_entries keys ids = let (taken, left) = take_entries keys ids in taken ++ map no_entry left

  unfoldable pub add_many :
      List (KeyEntry J)
      → List Bytes
      → EncKeyLocation
      → KeyRequest J
      → KeyRequest J × Result (Unit {0})
  add_many keys ids location r =
      if r.completed
      then (r, err key_provider_request_completed)
      else (assign_at (wanted_entries keys ids) location r, ok tt)

  unfoldable pub add_all :
      List (KeyEntry J) → EncKeyLocation → KeyRequest J → KeyRequest J × Result (Unit {0})
  add_all keys location r =
      if r.completed
      then (r, err key_provider_request_completed)
      else (assign_at keys location r, ok tt)

  unfoldable pub mark_as_completed : KeyRequest J → KeyRequest J
  mark_as_completed r = record r { completed = true }
