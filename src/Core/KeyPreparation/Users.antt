-- ===== src/Core/KeyPreparation/Users.antt =====
-- What the users of a container decrypt of the keys that have been prepared for them.
use privmx_endpoint.Common.{
  ok, Bytes, bytes_eq, bytes_eq_refl, ◌≡◌, refl, ◌∙◌, true, false, none, List, [], ◌∷◌, ◌++◌, map,
}
use privmx_endpoint.Common.State.{>>=-ok, ◌>>=◌, pure}
use privmx_endpoint.Core.KeyProvider.{EncKeyLocation, DataIntegrityObject, DecryptedEncKey}
use privmx_endpoint.Core.KeyProvider.Checks.{verify_one, verify_keys_secret}
use privmx_endpoint.Core.Keyring.{Keyring, IsSound}
use privmx_endpoint.Core.DioEncryptor.{IsComplete}
use privmx_endpoint.Core.KeyEncryptor.{KeyToEncrypt, decrypt}
use privmx_endpoint.Core.KeyEncryptor.Roundtrip.{opened_key, decrypt-encrypt}
use privmx_endpoint.Core.KeyPreparation.{
  Randomness, EncKey, UserWithPubKey, KeyEntrySet, create_key_entry_set, prepare_keys_list,
  generate_secret, random_bytes,
}

abbrev pub user_of : {S U : Type 0} → Keyring S U → Bytes → S → UserWithPubKey
user_of k id t = record { user_id = id; pub_key = k.to_base58_der (k.public_key t) }

module _ {R S U : Type 0} (random : Randomness R) (k : Keyring S U) (v : IsSound k) (self : S)
    (key : EncKey) (dio : DataIntegrityObject) (location : EncKeyLocation) (secret : Bytes)
    (own : dio.creator_pub_key ≡ k.to_base58_der (k.public_key self)) (whole : IsComplete k dio)
    (some_id : bytes_eq key.id [] ≡ false) (some_key : bytes_eq key.key [] ≡ false)
    (context : dio.context_id ≡ location.context_id)
    (resource : dio.resource_id ≡ location.resource_id) where
  -- A decrypted entry that holds the key for the container, and passes the checks.
  pub record IsOpened (a : DecryptedEncKey) : Type 0 where
    pub same_id : a.id ≡ key.id
    pub same_key : a.key ≡ key.key
    pub same_dio : a.dio ≡ dio
    pub no_failure : (verify_one location a).status_code ≡ none
    pub same_secret : verify_keys_secret k.crypto ((key.id, a) ∷ []) location secret ≡ true

  -- An entry for each user, in order, that opens with the user's private key.
  unfoldable pub AreOpened : List (Bytes × S) → List KeyEntrySet → Type 0
  AreOpened [] [] = Unit {0}
  AreOpened [] (e ∷ es) = ⊥
  AreOpened (u ∷ us) [] = ⊥
  AreOpened ((id, t) ∷ us) (e ∷ es) =
      (e.user ≡ id) × (e.key_id ≡ key.id) × IsOpened (decrypt k e.data' t) × AreOpened us es

  abbrev key_to_encrypt : Bytes → KeyToEncrypt
  key_to_encrypt key_secret = record {
    id = key.id;
    key = key.key;
    dio = dio;
    location = location;
    key_secret = key_secret;
    secret_hash =
        k.crypto.hmac_sha256 secret (key_secret ++ (location.context_id ++ location.resource_id));
  }

  opened_key-IsOpened : (key_secret : Bytes) → IsOpened (opened_key (key_to_encrypt key_secret))
  unfolding verify_one verify_keys_secret
  opened_key-IsOpened key_secret = record {
    same_id = refl;
    same_key = refl;
    same_dio = refl;
    no_failure =
        rw
          (context, resource, bytes_eq_refl location.context_id, bytes_eq_refl location.resource_id)
          refl;
    same_secret =
        rw
          (bytes_eq_refl (
            k.crypto.hmac_sha256 secret
              (key_secret ++ (location.context_id ++ location.resource_id))))
          refl;
  }

  create_key_entry_set-decrypt :
      (id : Bytes) (t : S) (r : R)
      → (r' : R) × (e : KeyEntrySet) × (create_key_entry_set random k self
            (user_of k id t)
            key
            dio
            location
            secret
            r
          ≡ (r', ok e))
        × (e.user ≡ id)
        × (e.key_id ≡ key.id)
        × IsOpened (decrypt k e.data' t)
  unfolding create_key_entry_set generate_secret random_bytes
  create_key_entry_set-decrypt id t r =
      let drawn = random.random_bytes 32 r in
      let e = key_to_encrypt (random.hex drawn.1) in
      let (entry, sealed, opened) = decrypt-encrypt k v e self t own whole some_id some_key in
      (
        drawn.0,
        record { user = id; key_id = key.id; data' = entry },
        rw (v.base58 (k.public_key t), sealed) refl,
        refl,
        refl,
        rw opened (opened_key-IsOpened (random.hex drawn.1)),
      )

  -- For users with their public keys, prepareKeysList makes an entry for each, in order, that the
  -- user's private key decrypts to the identifier and the key, with the given data integrity
  -- object and no failure; it names the container, and its secret passes verifyKeysSecret. The
  -- object is complete, has a bridge identity and the key of the one who prepares it, and names
  -- the container; identifier and key are not empty; ciphers, signatures and encodings are undone
  -- by their inverses.
  pub prepare_keys_list-AreOpened :
      (users : List (Bytes × S)) (r : R)
      → (r' : R) × (sets : List KeyEntrySet) × (prepare_keys_list random k self
            (map (λ u. user_of k u.0 u.1) users)
            key
            dio
            location
            secret
            r
          ≡ (r', ok sets))
        × AreOpened users sets
  unfolding prepare_keys_list AreOpened
  prepare_keys_list-AreOpened [] r = (r, [], refl, tt)
  prepare_keys_list-AreOpened ((id, t) ∷ us) r =
      let (r1, e, made, same, key_id, opened) = create_key_entry_set-decrypt id t r in
      let (r', es, rest, others) = prepare_keys_list-AreOpened us r1 in
      let more =
        prepare_keys_list random k self (map (λ u. user_of k u.0 u.1) us) key dio location secret in
      (
        r',
        e ∷ es,
        >>=-ok (create_key_entry_set random k self (user_of k id t) key dio location secret)
              (λ set. more >>= λ sets. pure (set ∷ sets)) r made
            ∙ >>=-ok more (λ sets. pure (e ∷ sets)) r1 rest,
        (same, key_id, opened, others),
      )
