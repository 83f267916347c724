-- ===== src/Core/KeyPreparation.antt =====
-- endpoint/core/src/KeyProvider.cpp, class KeyProvider: keys are prepared for the users of a container.
pub mod Users
use privmx_endpoint.Common.{◌==◌, if◌then◌else◌, ok, Bytes, ℕ, List, [], ◌∷◌, ◌++◌}
use privmx_endpoint.Common.State.{M, ◌>>=◌, ◌>>◌, pure, lift}
use privmx_endpoint.Utils.ThreadSaveMap.{Map}
use privmx_endpoint.Core.KeyProvider.{
  EncKeyLocation, DataIntegrityObject, DecryptedEncKey, has_failed,
}
use privmx_endpoint.Core.Keyring.{Keyring}
use privmx_endpoint.Core.KeyEncryptor.{EncryptedKeyEntry, encrypt}

-- The source of random bytes and the hexadecimal encoding, parameters.
pub record Randomness (R : Type 0) : Type 0 where
  pub random_bytes : ℕ → R → R × Bytes
  pub hex : Bytes → Bytes

pub record EncKey : Type 0 where
  pub id : Bytes
  pub key : Bytes

pub record UserWithPubKey : Type 0 where
  pub user_id : Bytes
  pub pub_key : Bytes

pub record KeyEntrySet : Type 0 where
  pub user : Bytes
  pub key_id : Bytes
  pub data' : EncryptedKeyEntry

module _ {R : Type 0} (random : Randomness R) where
  unfoldable pub random_bytes : ℕ → M R Bytes
  random_bytes n r = let (r', bytes) = random.random_bytes n r in (r', ok bytes)

  unfoldable pub generate_key : M R EncKey
  generate_key = do
    id ← random_bytes 16
    key ← random_bytes 32
    pure (record { id = random.hex id; key = key })

  unfoldable pub generate_secret : M R Bytes
  generate_secret = do bytes ← random_bytes 32; pure (random.hex bytes)

  unfoldable pub generate_dio_random_id : M R Bytes
  generate_dio_random_id = do bytes ← random_bytes 8; pure (random.hex bytes)

  module _ {S U : Type 0} (k : Keyring S U) (self : S) where
    unfoldable pub create_key_entry_set :
        UserWithPubKey → EncKey → DataIntegrityObject → EncKeyLocation → Bytes → M R KeyEntrySet
    create_key_entry_set user key dio location container_secret = do
      key_secret ← generate_secret
      pub_key ← lift (k.from_base58_der user.pub_key)
      data' ← lift (
          encrypt k
            (record {
              id = key.id;
              key = key.key;
              dio = dio;
              location = location;
              key_secret = key_secret;
              secret_hash =
                  k.crypto.hmac_sha256 container_secret
                    (key_secret ++ (location.context_id ++ location.resource_id));
            })
            pub_key self)
      pure (record { user = user.user_id; key_id = key.id; data' = data' })

    unfoldable pub prepare_keys_list :
        List UserWithPubKey
        → EncKey
        → DataIntegrityObject
        → EncKeyLocation
        → Bytes
        → M R (List KeyEntrySet)
    prepare_keys_list [] key dio location container_secret = pure []
    prepare_keys_list (user ∷ users) key dio location container_secret = do
      set ← create_key_entry_set user key dio location container_secret
      sets ← prepare_keys_list users key dio location container_secret
      pure (set ∷ sets)

    -- A key of the first version has no random identifier of its own.
    unfoldable pub random_id_of : DecryptedEncKey → M R Bytes
    random_id_of key =
        if key.data_structure_version == 1 then generate_dio_random_id else pure key.dio.random_id

    unfoldable pub prepare_missing_keys_for_new_users :
        Map Bytes DecryptedEncKey
        → List UserWithPubKey
        → DataIntegrityObject
        → EncKeyLocation
        → Bytes
        → M R (List KeyEntrySet)
    prepare_missing_keys_for_new_users [] users dio location container_secret = pure []
    prepare_missing_keys_for_new_users ((i, key) ∷ missing) users dio location container_secret = do
      random_id ← random_id_of key
      sets ←
          (if has_failed key
            then pure []
            else prepare_keys_list users (record { id = key.id; key = key.key })
                (record dio { random_id = random_id }) location container_secret)
      more ← prepare_missing_keys_for_new_users missing users dio location container_secret
      pure (sets ++ more)
