-- ===== src/Core/KeyEncryptor/Roundtrip.antt =====
-- A key that has been encrypted for a user is what the user's private key decrypts.
use privmx_endpoint.Common.{ok, Bytes, bytes_eq, bytes_eq_refl, ◌≡◌, refl, ap, ◌∙◌, false, none, []}
use privmx_endpoint.Common.State.{>>=-ok}
use privmx_endpoint.Utils.Key.{bytes_key}
use privmx_endpoint.Utils.ThreadSaveMap.{get}
use privmx_endpoint.Core.KeyProvider.{DecryptedEncKey}
use privmx_endpoint.Core.Keyring.{Keyring, IsSound}
use privmx_endpoint.Core.Ecies
use privmx_endpoint.Core.Ecies.{encrypt_to_base64, decrypt_from_base64-encrypt_to_base64}
use privmx_endpoint.Core.DioEncryptor.{IsComplete, decode_and_verify-sign_and_encode}
use privmx_endpoint.Core.KeyEncryptor.{
  KeyToEncrypt, EncryptedKeyEntry, checksum_at, assert_data_format, encoded_key, expanded_dio,
  no_key, encrypt, decrypt_object, set_key, open_entry, decrypt,
}

abbrev pub opened_key : KeyToEncrypt → DecryptedEncKey
opened_key e = record {
  id = e.id;
  key = e.key;
  data_structure_version = 2;
  status_code = none;
  dio = e.dio;
  key_secret = e.key_secret;
  secret_hash = e.secret_hash;
}

module _ {S U : Type 0} (k : Keyring S U) (v : IsSound k) where
  encrypt_to_base64_some :
      (u : U) (m : Bytes) (s : S) → bytes_eq (encrypt_to_base64 k u m s) [] ≡ false
  unfolding encrypt_to_base64 Ecies.encrypt bytes_eq
  encrypt_to_base64_some u m s = v.base64_some (Ecies.encrypt k u m s) refl

  sealed_key : KeyToEncrypt → S → S → Bytes
  sealed_key e s t = encrypt_to_base64 k (k.public_key t) (k.key_text (encoded_key k e)) s

  decrypt_object-sealed :
      (e : KeyToEncrypt) (s t : S) (dio : Bytes) (r : DecryptedEncKey)
      → e.dio.creator_pub_key ≡ k.to_base58_der (k.public_key s)
      → bytes_eq e.id [] ≡ false
      → bytes_eq e.key [] ≡ false
      → decrypt_object k
          (record { version = 2; encrypted_key = sealed_key e s t; dio = dio })
          t
          e.dio
          r
        ≡ (r, ok (encoded_key k e))
  unfolding decrypt_object sealed_key
  decrypt_object-sealed e s t dio r own some_id some_key =
      let text = k.key_text (encoded_key k e) in
      rw
        (
          ap k.from_base58_der own ∙ v.base58 (k.public_key s),
          decrypt_from_base64-encrypt_to_base64 k v s t text,
          v.key_of_text-key_text (encoded_key k e),
          some_id,
          v.base64_some e.key some_key,
        )
        refl

  set_key-encoded :
      (e : KeyToEncrypt) (sealed : Bytes) (r : DecryptedEncKey)
      → set_key k (encoded_key k e) (expanded_dio k e sealed).field_checksums r ≡ (
        record r { id = e.id; key = e.key; secret_hash = e.secret_hash; key_secret = e.key_secret },
        ok tt,
      )
  unfolding set_key checksum_at get bytes_eq
  set_key-encoded e sealed r = rw (v.unbase64-base64 e.key, v.unbase64-base64 e.key_secret) refl

  open_entry-sealed :
      (e : KeyToEncrypt) (s t : S) (dio : Bytes)
      → e.dio.creator_pub_key ≡ k.to_base58_der (k.public_key s)
      → bytes_eq e.id [] ≡ false
      → bytes_eq e.key [] ≡ false
      → open_entry k
          (record { version = 2; encrypted_key = sealed_key e s t; dio = dio })
          t
          (expanded_dio k e (sealed_key e s t))
          no_key
        ≡ (opened_key e, ok tt)
  unfolding open_entry checksum_at get bytes_eq
  open_entry-sealed e s t dio own some_id some_key =
      let r : DecryptedEncKey = record no_key { dio = e.dio } in
      let sealed = sealed_key e s t in
      rw (bytes_eq_refl (k.crypto.sha256 sealed)) (
        >>=-ok
          (decrypt_object k (record { version = 2; encrypted_key = sealed; dio = dio }) t e.dio)
          (λ d. set_key k d (expanded_dio k e sealed).field_checksums) r
          (decrypt_object-sealed e s t dio r own some_id some_key)
        ∙ set_key-encoded e sealed r)

  pub decrypt-encrypt :
      (e : KeyToEncrypt) (s t : S)
      → e.dio.creator_pub_key ≡ k.to_base58_der (k.public_key s)
      → IsComplete k e.dio
      → bytes_eq e.id [] ≡ false
      → bytes_eq e.key [] ≡ false
      → (entry : EncryptedKeyEntry) × (encrypt k e (k.public_key t) s ≡ ok entry)
        × (decrypt k entry t ≡ opened_key e)
  unfolding decrypt assert_data_format sealed_key encrypt encrypt_to_base64
  decrypt-encrypt e s t own whole some_id some_key =
      let sealed = sealed_key e s t in
      let (dio, signed, decoded) =
        decode_and_verify-sign_and_encode k v (expanded_dio k e sealed) s own whole in
      (
        record { version = 2; encrypted_key = sealed; dio = dio },
        rw (encrypt, signed) refl,
        rw
            (
              encrypt_to_base64_some (k.public_key t) (k.key_text (encoded_key k e)) s,
              decoded,
              open_entry-sealed e s t dio own some_id some_key,
            )
            refl,
      )
