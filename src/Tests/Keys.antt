-- ===== src/Tests/Keys.antt =====
-- Keys of one container: a good one, and one that names another container; requests for keys.
use privmx_endpoint.Common.{
  if◌then◌else◌, ok, Bytes, bytes_eq, ◌≡◌, refl, Bool, true, false, none, some, List, [], ◌∷◌, map,
  encryption_key_container_validation,
}
use privmx_endpoint.Utils.Key.{bytes_key}
use privmx_endpoint.Utils.ThreadSaveMap.{Map, get}
use privmx_endpoint.Core.KeyProvider.{
  DecryptedEncKey, EncKeyLocation, KeyEntry, object, location_eq, VerificationRequest, Services,
}
use privmx_endpoint.Core.KeyProvider.Checks.{
  needs_verifier, request_of, verify_data, verify_one, verify_for_duplication, mark_duplicates,
  mark_one, first_with, requests, requests_at, apply_answers, set_status_at,
}
use privmx_endpoint.Core.KeyProvider.Decryption.{
  get_keys_and_verify, decrypt_locations, decrypt_and_verify_keys, decrypt_all, decrypt_one,
  decrypt_object, verify_user_data, verify,
}
use privmx_endpoint.Core.KeyProvider.Verified.{IsVerified}
use privmx_endpoint.Core.KeyProvider.Users.{location_key}
use privmx_endpoint.Core.KeyRequest.{KeyRequest, add_many, add_one, entry_with}
use privmx_endpoint.Core.ContainerKeyCache.{contains_id}
use privmx_endpoint.Core.KeyRequest.Laws.{add_many-add_one, requested}
use privmx_endpoint.Core.KeyProvider.Whole.{get_keys_and_verify-IsVerified}

abbrev location : EncKeyLocation
location = record { context_id = 1 ∷ []; resource_id = 2 ∷ [] }

abbrev good_key : DecryptedEncKey
good_key = record {
  id = 10 ∷ [];
  key = 7 ∷ [];
  data_structure_version = 2;
  status_code = none;
  dio = record {
    creator_user_id = 5 ∷ [];
    creator_pub_key = 6 ∷ [];
    context_id = 1 ∷ [];
    resource_id = 2 ∷ [];
    timestamp = 1000;
    random_id = 8 ∷ [];
    container_id = none;
    container_resource_id = none;
    bridge_identity = none;
  };
  key_secret = [];
  secret_hash = [];
}

abbrev misplaced_key : DecryptedEncKey
misplaced_key = record good_key {
  id = 11 ∷ [];
  dio = record good_key.dio { resource_id = 3 ∷ []; random_id = 9 ∷ [] };
}

abbrev trusted : VerificationRequest → Bool
trusted r = bytes_eq r.sender_id (5 ∷ [])

abbrev services : Services DecryptedEncKey DecryptedEncKey
services = record {
  version_of = λ k. ok k.data_structure_version;
  entry_of = λ k. ok k;
  decrypt_v1 = λ t. ok t;
  decrypt_v2 = λ k. k;
  user_verifier = λ rs. ok (map trusted rs);
}

abbrev entries : Map EncKeyLocation (Map Bytes (KeyEntry DecryptedEncKey))
entries =
    (
      location,
      (10 ∷ [], record { key_id = 10 ∷ []; data' = object good_key })
          ∷ (11 ∷ [], record { key_id = 11 ∷ []; data' = object misplaced_key })
          ∷ [],
    )
    ∷ []

abbrev checked_keys : Map Bytes DecryptedEncKey
checked_keys =
    (10 ∷ [], good_key)
    ∷ (11 ∷ [], record misplaced_key { status_code = some encryption_key_container_validation })
    ∷ []

entries_checked : get_keys_and_verify services entries ≡ ok ((location, checked_keys) ∷ [])
unfolding get_keys_and_verify decrypt_locations decrypt_and_verify_keys decrypt_all decrypt_one
    decrypt_object verify_data verify_one verify_for_duplication mark_duplicates mark_one first_with
    verify_user_data verify requests requests_at apply_answers set_status_at bytes_eq
entries_checked = refl

found_location : get location ((location, checked_keys) ∷ []) ≡ some checked_keys
unfolding get bytes_eq
found_location = refl

get_keys_and_verify-IsVerified_example :
    IsVerified location checked_keys
    × ((i : Bytes) (a : DecryptedEncKey)
        → get i checked_keys ≡ some a
        → needs_verifier a ≡ true
        → trusted (request_of a) ≡ true)
get_keys_and_verify-IsVerified_example =
    get_keys_and_verify-IsVerified services trusted (λ rs. refl) entries
      ((location, checked_keys) ∷ []) location checked_keys entries_checked found_location

abbrev elsewhere : EncKeyLocation
elsewhere = record { context_id = 1 ∷ []; resource_id = 3 ∷ [] }

abbrev empty_request : KeyRequest DecryptedEncKey
empty_request = record { request_data = []; completed = false }

abbrev sent_keys : List (KeyEntry DecryptedEncKey)
sent_keys =
    record { key_id = 10 ∷ []; data' = object good_key }
    ∷ record { key_id = 11 ∷ []; data' = object misplaced_key }
    ∷ []

abbrev wanted_ids : List Bytes
wanted_ids = (11 ∷ []) ∷ (12 ∷ []) ∷ []

different_places : location_eq elsewhere location ≡ false
unfolding bytes_eq
different_places = refl

add_many-add_one_example :
    ((add_many sent_keys wanted_ids location empty_request).1 ≡ ok tt)
    × (requested location (11 ∷ []) (add_many sent_keys wanted_ids location empty_request).0
        ≡ requested location (11 ∷ []) (
            if contains_id (11 ∷ []) wanted_ids
            then (add_one sent_keys (11 ∷ []) location empty_request).0
            else empty_request))
    × (requested location (11 ∷ []) (add_one sent_keys (11 ∷ []) location empty_request).0
        ≡ some (entry_with (11 ∷ []) sent_keys))
    × (requested elsewhere (11 ∷ []) (add_many sent_keys wanted_ids location empty_request).0
        ≡ requested elsewhere (11 ∷ []) empty_request)
add_many-add_one_example =
    add_many-add_one sent_keys wanted_ids location elsewhere (11 ∷ []) empty_request refl
      different_places
