-- ===== src/Core/KeyEncryptor.antt =====
-- endpoint/core/src/encryptors/EncKey/EncKeyEncryptorV2.cpp: a key for one user, in a signed entry.
pub mod Roundtrip
pub mod Authentic
use privmx_endpoint.Common.{
  ◌==◌, Result, ok, err, guard, out_of_range, Bytes, bytes_eq, ℕ, not, ◌&&◌, ◌||◌, Option, none,
  some, [], ◌∷◌, invalid_data_integrity_object_checksum, malformed_encryption_key,
}
use privmx_endpoint.Common.State.{M, ◌>>=◌, ◌>>◌, modify, lift, pure}
use privmx_endpoint.Utils.Key.{bytes_key}
use privmx_endpoint.Utils.ThreadSaveMap.{Map, get}
use privmx_endpoint.Core.KeyProvider.{EncKeyLocation, DataIntegrityObject, DecryptedEncKey, no_dio}
use privmx_endpoint.Core.Keyring.{Keyring, EncryptionKey, IsSound}
use privmx_endpoint.Core.Ecies.{
  encrypt_to_base64, decrypt_from_base64, decrypt_from_base64-encrypt_to_base64,
}
use privmx_endpoint.Core.DioEncryptor.{ExpandedObject, sign_and_encode, decode_and_verify}

pub record KeyToEncrypt : Type 0 where
  pub id : Bytes
  pub key : Bytes
  pub dio : DataIntegrityObject
  pub location : EncKeyLocation
  pub key_secret : Bytes
  pub secret_hash : Bytes

pub record EncryptedKeyEntry : Type 0 where
  pub version : ℕ
  pub encrypted_key : Bytes
  pub dio : Bytes

abbrev pub encrypted_key_field : Bytes
encrypted_key_field = 101 ∷ 110 ∷ 99 ∷ 114 ∷ 121 ∷ 112 ∷ 116 ∷ 101 ∷ 100 ∷ 75 ∷ 101 ∷ 121 ∷ []

abbrev pub secret_hash_field : Bytes
secret_hash_field = 115 ∷ 101 ∷ 99 ∷ 114 ∷ 101 ∷ 116 ∷ 72 ∷ 97 ∷ 115 ∷ 104 ∷ []

abbrev found : Option Bytes → Result Bytes
found none = err out_of_range
found (some checksum) = ok checksum

-- `fieldChecksums.at(name)`.
unfoldable pub checksum_at : Bytes → Map Bytes Bytes → Result Bytes
checksum_at name m = found (get name m)

unfoldable pub assert_data_format : EncryptedKeyEntry → Result (Unit {0})
assert_data_format e =
    guard ((e.version == 2) && not (bytes_eq e.encrypted_key [])) malformed_encryption_key

-- What the result is before anything has been read.
abbrev pub no_key : DecryptedEncKey
no_key = record {
  id = [];
  key = [];
  data_structure_version = 2;
  status_code = none;
  dio = no_dio;
  key_secret = [];
  secret_hash = [];
}

-- The status of a body that has thrown; what it has set by then stays.
abbrev pub caught : DecryptedEncKey × Result (Unit {0}) → DecryptedEncKey
caught (r, ok u) = r
caught (r, err e) = record r { status_code = some e }

module _ {S U : Type 0} (k : Keyring S U) where
  abbrev pub encoded_key : KeyToEncrypt → EncryptionKey
  encoded_key e = record { id = e.id; key = k.base64 e.key; key_secret = k.base64 e.key_secret }

  abbrev pub expanded_dio : KeyToEncrypt → Bytes → ExpandedObject
  expanded_dio e encrypted_key = record {
    object = e.dio;
    structure_version = 2;
    field_checksums =
        (encrypted_key_field, k.crypto.sha256 encrypted_key)
        ∷ (secret_hash_field, e.secret_hash)
        ∷ [];
  }

  unfoldable pub encrypt : KeyToEncrypt → U → S → Result EncryptedKeyEntry
  encrypt e encryption_key author =
      let encrypted_key = encrypt_to_base64 k encryption_key (k.key_text (encoded_key e)) author in
      elim (sign_and_encode k (expanded_dio e encrypted_key) author) [
        | err x ↦ err x
        | ok dio ↦ ok (record { version = 2; encrypted_key = encrypted_key; dio = dio })
      ]

  unfoldable pub decrypt_object :
      EncryptedKeyEntry → S → DataIntegrityObject → M DecryptedEncKey EncryptionKey
  decrypt_object e decryption_key dio = do
    creator ← lift (k.from_base58_der dio.creator_pub_key)
    text ← lift (decrypt_from_base64 k decryption_key e.encrypted_key (some creator))
    decrypted ← lift (k.key_of_text text)
    lift (
        guard (not (bytes_eq decrypted.id [] || bytes_eq decrypted.key []))
          malformed_encryption_key)
    pure decrypted

  -- The fields that the decrypted key sets.
  unfoldable pub set_key : EncryptionKey → Map Bytes Bytes → M DecryptedEncKey (Unit {0})
  set_key decrypted checksums = do
    modify (λ r. record r { id = decrypted.id })
    key ← lift (k.unbase64 decrypted.key)
    modify (λ r. record r { key = key })
    hash ← lift (checksum_at secret_hash_field checksums)
    modify (λ r. record r { secret_hash = hash })
    secret ← lift (k.unbase64 decrypted.key_secret)
    modify (λ r. record r { key_secret = secret })

  unfoldable pub open_entry : EncryptedKeyEntry → S → ExpandedObject → M DecryptedEncKey (Unit {0})
  open_entry e decryption_key o = do
    modify (λ r. record r { dio = o.object })
    checksum ← lift (checksum_at encrypted_key_field o.field_checksums)
    lift (
        guard (bytes_eq checksum (k.crypto.sha256 e.encrypted_key))
          invalid_data_integrity_object_checksum)
    decrypted ← decrypt_object e decryption_key o.object
    set_key decrypted o.field_checksums

  unfoldable pub decrypt : EncryptedKeyEntry → S → DecryptedEncKey
  decrypt e decryption_key = caught (
      (do
        lift (assert_data_format e)
        o ← lift (decode_and_verify k e.dio)
        open_entry e decryption_key o)
        no_key)
