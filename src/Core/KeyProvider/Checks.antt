-- ===== src/Core/KeyProvider/Checks.antt =====
-- endpoint/core/src/KeyProvider.cpp, class KeyProvider: the checks of decrypted keys.
use privmx_endpoint.Common.{
  ◌==◌, if◌then◌else◌, Error, Bytes, bytes_eq, ℕ, Bool, true, not, ◌&&◌, ◌||◌, Option, none, some,
  List, [], ◌∷◌, ◌++◌, encryption_key_container_validation, data_integrity_object_duplicated,
  user_verification_failure,
}
use privmx_endpoint.Utils.ThreadSaveMap.{Map}
use privmx_endpoint.Store.Crypto.{Crypto}
use privmx_endpoint.Core.KeyProvider.{
  EncKeyLocation, DecryptedEncKey, VerificationRequest, location_eq, has_failed,
}

unfoldable pub set_status : Bytes → Error → Map Bytes DecryptedEncKey → Map Bytes DecryptedEncKey
set_status id e [] = []
set_status id e ((i, k) ∷ m) =
    if bytes_eq id i then (i, record k { status_code = some e }) ∷ m else (i, k) ∷ set_status id e m

-- A key of version 2 has to name the container that it is of.
unfoldable pub verify_one : EncKeyLocation → DecryptedEncKey → DecryptedEncKey
verify_one location k =
    if not (has_failed k)
      && (k.data_structure_version == 2)
      && (not (bytes_eq k.dio.context_id location.context_id)
          || not (bytes_eq k.dio.resource_id location.resource_id))
    then record k { status_code = some encryption_key_container_validation }
    else k

unfoldable pub verify_data : EncKeyLocation → Map Bytes DecryptedEncKey → Map Bytes DecryptedEncKey
verify_data location [] = []
verify_data location ((i, k) ∷ m) = (i, verify_one location k) ∷ verify_data location m

-- The key that has been seen with this random identifier and timestamp.
unfoldable pub first_with : Bytes → ℕ → List (Bytes × ℕ × Bytes) → Option Bytes
first_with random_id timestamp [] = none
first_with random_id timestamp ((r, t, id) ∷ seen) =
    if bytes_eq random_id r && (timestamp == t)
    then some id
    else first_with random_id timestamp seen

abbrev pub is_checked : DecryptedEncKey → Bool
is_checked k = not (has_failed k) && not (bytes_eq k.dio.creator_pub_key [])

-- One round of the loop: what has been seen, and the keys. Both keys of a pair fail.
unfoldable pub mark_one :
    Bytes
    → DecryptedEncKey
    → List (Bytes × ℕ × Bytes)
    → Map Bytes DecryptedEncKey
    → List (Bytes × ℕ × Bytes) × Map Bytes DecryptedEncKey
mark_one i k seen keys =
    if is_checked k
    then (elim (first_with k.dio.random_id k.dio.timestamp seen) [
      | none ↦ ((k.dio.random_id, k.dio.timestamp, i) ∷ seen, keys)
      | some first ↦ (
        seen,
        set_status first data_integrity_object_duplicated
            (set_status i data_integrity_object_duplicated keys),
      )
    ])
    else (seen, keys)

-- The loop over the keys, whose statuses change behind it only.
unfoldable pub mark_duplicates :
    Map Bytes DecryptedEncKey
    → List (Bytes × ℕ × Bytes)
    → Map Bytes DecryptedEncKey
    → Map Bytes DecryptedEncKey
mark_duplicates [] seen keys = keys
mark_duplicates ((i, k) ∷ rest) seen keys =
    let marked = mark_one i k seen keys in mark_duplicates rest marked.0 marked.1

unfoldable pub verify_for_duplication : Map Bytes DecryptedEncKey → Map Bytes DecryptedEncKey
unfolding mark_duplicates
verify_for_duplication keys = mark_duplicates keys [] keys

abbrev pub request_of : DecryptedEncKey → VerificationRequest
request_of k = record {
  context_id = k.dio.context_id;
  sender_id = k.dio.creator_user_id;
  sender_pub_key = k.dio.creator_pub_key;
  date = k.dio.timestamp;
  bridge_identity = k.dio.bridge_identity;
}

abbrev pub needs_verifier : DecryptedEncKey → Bool
needs_verifier k = not (has_failed k) && (k.data_structure_version == 2)

-- The keys that the verifier is asked about, each with its request.
unfoldable pub requests_at :
    EncKeyLocation
    → Map Bytes DecryptedEncKey
    → List ((EncKeyLocation × Bytes) × VerificationRequest)
requests_at location [] = []
requests_at location ((i, k) ∷ m) =
    let rest = requests_at location m in
    if needs_verifier k then ((location, i), request_of k) ∷ rest else rest

unfoldable pub requests :
    Map EncKeyLocation (Map Bytes DecryptedEncKey)
    → List ((EncKeyLocation × Bytes) × VerificationRequest)
requests [] = []
requests ((location, keys) ∷ rest) = requests_at location keys ++ requests rest

unfoldable pub set_status_at :
    EncKeyLocation
    → Bytes
    → Error
    → Map EncKeyLocation (Map Bytes DecryptedEncKey)
    → Map EncKeyLocation (Map Bytes DecryptedEncKey)
set_status_at location id e [] = []
set_status_at location id e ((l, keys) ∷ rest) =
    if location_eq location l
    then (l, set_status id e keys) ∷ rest
    else (l, keys) ∷ set_status_at location id e rest

-- The loop over the verifier's answers, which are as many as the requests.
unfoldable pub apply_answers :
    List ((EncKeyLocation × Bytes) × VerificationRequest)
    → List Bool
    → Map EncKeyLocation (Map Bytes DecryptedEncKey)
    → Map EncKeyLocation (Map Bytes DecryptedEncKey)
apply_answers [] answers keys = keys
apply_answers (p ∷ asked) [] keys = keys
apply_answers (((location, id), request) ∷ asked) (answer ∷ answers) keys =
    apply_answers asked answers
      (if answer then keys else set_status_at location id user_verification_failure keys)

unfoldable pub verify_keys_secret :
    Crypto → Map Bytes DecryptedEncKey → EncKeyLocation → Bytes → Bool
verify_keys_secret c [] location container_secret = true
verify_keys_secret c ((i, k) ∷ rest) location container_secret =
    let key_secret_hash =
      c.hmac_sha256 container_secret
        (k.key_secret ++ (location.context_id ++ location.resource_id)) in
    not (
      has_failed k
      || ((k.data_structure_version == 2) && not (bytes_eq k.secret_hash key_secret_hash)))
    && verify_keys_secret c rest location container_secret
