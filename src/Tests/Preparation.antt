-- ===== src/Tests/Preparation.antt =====
-- A key that one user prepares for two others, with a keyring of plain encodings.
use privmx_endpoint.Common.{
  ◌==◌, ==_refl, Result, ok, err, undefined_behaviour, replicate, Bytes, bytes_eq, bytes_eq_refl, ℕ,
  suc, ◌≡◌, refl, ap, false, none, some, List, [], ◌∷◌, map, arith,
}
use privmx_endpoint.Store.Crypto.{plain_crypto}
use privmx_endpoint.Core.KeyProvider.{
  DecryptedEncKey, BridgeIdentity, DataIntegrityObject, EncKeyLocation,
}
use privmx_endpoint.Core.Keyring
use privmx_endpoint.Core.Keyring.{Keyring, EncryptionKey, SignedObject}
use privmx_endpoint.Core.DioEncryptor.{IsComplete}
use privmx_endpoint.Core.KeyPreparation.{Randomness, EncKey, KeyEntrySet, prepare_keys_list}
use privmx_endpoint.Core.KeyPreparation.Users.{AreOpened, user_of, prepare_keys_list-AreOpened}
use privmx_endpoint.Core.KeyEncryptor.{KeyToEncrypt, EncryptedKeyEntry, encrypt, decrypt}
use privmx_endpoint.Core.KeyEncryptor.Roundtrip.{opened_key, decrypt-encrypt}
use privmx_endpoint.Core.KeyEncryptor.Authentic.{IsAuthentic, decrypt-IsAuthentic}
use privmx_endpoint.Tests.Texts.{Code, number, text, pair, optional, many, by, whole, whole-write}

key_code : Code EncryptionKey
key_code =
    by (pair text (pair text text)) (λ e. (e.id, (e.key, e.key_secret)))
      (λ (i, (t, c)). record { id = i; key = t; key_secret = c }) (λ e. refl)

identity_code : Code BridgeIdentity
identity_code =
    by (pair text (pair (optional text) (optional text))) (λ b. (b.url, (b.pub_key, b.instance_id)))
      (λ (u, (c, i)). record { url = u; pub_key = c; instance_id = i }) (λ b. refl)

object_code : Code SignedObject
object_code =
    by
      (pair number (
        pair text (
          pair text (
            pair text (
              pair text (
                pair number (
                  pair text (
                    pair (optional text) (
                      pair (optional text) (
                        pair (many (pair text text))
                          (pair number (optional identity_code))))))))))))
      (λ o. (
        o.version,
        (
          o.creator_user_id,
          (
            o.creator_public_key,
            (
              o.context_id,
              (
                o.resource_id,
                (
                  o.timestamp,
                  (
                    o.random_id,
                    (
                      o.container_id,
                      (
                        o.container_resource_id,
                        (o.field_checksums, (o.structure_version, o.bridge_identity)),
                      ),
                    ),
                  ),
                ),
              ),
            ),
          ),
        ),
      ))
      (λ (v, (u, (c, (x, (r, (t, (n, (i, (j, (f, (w, b))))))))))). record {
        version = v;
        creator_user_id = u;
        creator_public_key = c;
        context_id = x;
        resource_id = r;
        timestamp = t;
        random_id = n;
        container_id = i;
        container_resource_id = j;
        field_checksums = f;
        structure_version = w;
        bridge_identity = b;
      })
      (λ o. refl)

abbrev first : Bytes → Result ℕ
first [] = err undefined_behaviour
first (n ∷ rest) = ok n

abbrev keyring : Keyring ℕ ℕ
keyring = record {
  crypto = plain_crypto;
  public_key = λ s. s;
  public_eq = λ u w. u == w;
  to_base58_der = λ u. u ∷ [];
  from_base58_der = first;
  to_der = λ u. u ∷ replicate 32 0;
  from_der = first;
  ecies_encrypt = λ s u m. m;
  ecies_decrypt = λ s u m. ok m;
  sign = λ s m. s ∷ [];
  verify = λ u m signature. bytes_eq signature (u ∷ []);
  base64 = λ m. m;
  unbase64 = λ m. ok m;
  key_text = key_code.write;
  key_of_text = λ s. whole key_code s;
  object_text = object_code.write;
  object_of_text = λ s. whole object_code s;
}

keyring-IsSound : Keyring.IsSound keyring
keyring-IsSound = record {
  public_eq_refl = λ u. ==_refl u;
  base58 = λ u. refl;
  der = λ u. refl;
  length-to_der = λ u. refl;
  decrypts = λ s t m. refl;
  verifies = λ s m. bytes_eq_refl (s ∷ []);
  length-sign = λ s m. omega arith;
  unbase64-base64 = λ m. refl;
  base64_some = λ m h. h;
  key_of_text-key_text = λ e. whole-write key_code e;
  object_of_text-object_text = λ o. whole-write object_code o;
}

abbrev random : Randomness ℕ
random = record { random_bytes = λ n r. (suc r, replicate n r); hex = λ b. b }

abbrev new_key : EncKey
new_key = record { id = 4 ∷ []; key = 5 ∷ [] }

abbrev place : EncKeyLocation
place = record { context_id = 1 ∷ []; resource_id = 2 ∷ [] }

abbrev bridge : BridgeIdentity
bridge = record { url = 9 ∷ []; pub_key = none; instance_id = none }

abbrev dio : DataIntegrityObject
dio = record {
  creator_user_id = 6 ∷ [];
  creator_pub_key = 7 ∷ [];
  context_id = 1 ∷ [];
  resource_id = 2 ∷ [];
  timestamp = 1000;
  random_id = 8 ∷ [];
  container_id = none;
  container_resource_id = none;
  bridge_identity = some bridge;
}

dio-IsComplete : IsComplete keyring dio
unfolding bytes_eq
dio-IsComplete = record {
  creator = refl;
  creator_key = refl;
  context = refl;
  random = refl;
  identity = bridge;
  has_identity = refl;
}

some_id : bytes_eq new_key.id [] ≡ false
unfolding bytes_eq
some_id = refl

some_key : bytes_eq new_key.key [] ≡ false
unfolding bytes_eq
some_key = refl

abbrev users : List (Bytes × ℕ)
users = (6 ∷ [], 7) ∷ (11 ∷ [], 12) ∷ []

prepare_keys_list-AreOpened_example :
    (r' : ℕ) × (sets : List KeyEntrySet) × (prepare_keys_list random keyring 7
        (map (λ u. user_of keyring u.0 u.1) users)
        new_key
        dio
        place
        (3 ∷ [])
        0
      ≡ (r', ok sets))
    × AreOpened random keyring keyring-IsSound 7 new_key dio place
        (3 ∷ [])
        refl
        dio-IsComplete
        some_id
        some_key
        refl
        refl
        users
        sets
prepare_keys_list-AreOpened_example =
    prepare_keys_list-AreOpened random keyring keyring-IsSound 7 new_key dio place (3 ∷ []) refl
      dio-IsComplete some_id some_key refl refl users 0

abbrev prepared : KeyToEncrypt
prepared = record {
  id = 4 ∷ [];
  key = 5 ∷ [];
  dio = dio;
  location = place;
  key_secret = 13 ∷ [];
  secret_hash = 14 ∷ [];
}

entry_of_key :
    (e : EncryptedKeyEntry) × (encrypt keyring prepared 12 7 ≡ ok e)
    × (decrypt keyring e 12 ≡ opened_key prepared)
entry_of_key =
    decrypt-encrypt keyring keyring-IsSound prepared 7 12 refl dio-IsComplete some_id some_key

abbrev entry : EncryptedKeyEntry
entry = entry_of_key.0

entry_opens : (decrypt keyring entry 12).status_code ≡ none
entry_opens = ap (λ (a : DecryptedEncKey). a.status_code) entry_of_key.2

decrypt-IsAuthentic_example : IsAuthentic keyring entry (decrypt keyring entry 12)
decrypt-IsAuthentic_example = decrypt-IsAuthentic keyring entry 12 entry_opens
