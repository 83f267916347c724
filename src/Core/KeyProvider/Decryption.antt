-- ===== src/Core/KeyProvider/Decryption.antt =====
-- endpoint/core/src/KeyProvider.cpp, class KeyProvider: the keys of a request are decrypted, checked, and
-- shown to the verifier of users.
use privmx_endpoint.Common.{
  ltb, ◌==◌, if◌then◌else◌, Result, ok, err, ◌>>=◌, length, Bytes, Bool, none, List, [], ◌∷◌, map,
  unknown_encryption_key_version, user_verification_method_unhandled, malformed_verifier_response,
}
use privmx_endpoint.Utils.ThreadSaveMap.{Map}
use privmx_endpoint.Core.KeyProvider.{
  EncKeyLocation, DecryptedEncKey, object, text, other, KeyEntry, VerificationRequest, Services,
  no_dio, failed,
}
use privmx_endpoint.Core.KeyProvider.Checks.{
  verify_data, verify_for_duplication, requests, apply_answers,
}

module _ {J E : Type 0} (services : Services J E) where
  unfoldable pub decrypt_object : J → Result DecryptedEncKey
  decrypt_object json = elim (services.version_of json) [
    | err e ↦ ok (failed e)
    | ok version ↦
        if version == 2
        then (services.entry_of json >>= λ entry. ok (services.decrypt_v2 entry))
        else ok (failed unknown_encryption_key_version)
  ]

  unfoldable pub decrypt_one : KeyEntry J → Result DecryptedEncKey
  decrypt_one entry = elim entry.data' [
    | object json ↦ decrypt_object json
    | text t ↦ services.decrypt_v1 t >>= λ key. ok (record {
      id = entry.key_id;
      key = key;
      data_structure_version = 1;
      status_code = none;
      dio = no_dio;
      key_secret = [];
      secret_hash = [];
    })
    | other ↦ ok (failed unknown_encryption_key_version)
  ]

  unfoldable pub decrypt_all : Map Bytes (KeyEntry J) → Result (Map Bytes DecryptedEncKey)
  decrypt_all [] = ok []
  decrypt_all ((i, entry) ∷ rest) = do
    k ← decrypt_one entry
    ks ← decrypt_all rest
    ok ((i, k) ∷ ks)

  unfoldable pub decrypt_and_verify_keys :
      Map Bytes (KeyEntry J) → EncKeyLocation → Result (Map Bytes DecryptedEncKey)
  decrypt_and_verify_keys keys location = do
    decrypted ← decrypt_all keys
    let verified = verify_data location decrypted
    ok (if ltb 1 (length verified) then verify_for_duplication verified else verified)

  unfoldable pub decrypt_locations :
      Map EncKeyLocation (Map Bytes (KeyEntry J))
      → Result (Map EncKeyLocation (Map Bytes DecryptedEncKey))
  decrypt_locations [] = ok []
  decrypt_locations ((location, keys) ∷ rest) = do
    decrypted ← decrypt_and_verify_keys keys location
    others ← decrypt_locations rest
    ok ((location, decrypted) ∷ others)

  -- UserVerifier::verify.
  unfoldable pub verify : List VerificationRequest → Result (List Bool)
  verify requests = elim (services.user_verifier requests) [
    | err e ↦ err user_verification_method_unhandled
    | ok answers ↦
        if length answers == length requests then ok answers else err malformed_verifier_response
  ]

  unfoldable pub verify_user_data :
      Map EncKeyLocation (Map Bytes DecryptedEncKey)
      → Result (Map EncKeyLocation (Map Bytes DecryptedEncKey))
  unfolding verify
  verify_user_data keys = do
    let asked = requests keys
    answers ← verify (map (λ p. p.1) asked)
    ok (apply_answers asked answers keys)

  unfoldable pub get_keys_and_verify :
      Map EncKeyLocation (Map Bytes (KeyEntry J))
      → Result (Map EncKeyLocation (Map Bytes DecryptedEncKey))
  get_keys_and_verify request_data = decrypt_locations request_data >>= verify_user_data
