-- ===== src/Core/Keyring.antt =====
-- The keys of users, a parameter: the classes PrivateKey, PublicKey and ECIES of crypto/base, and the
-- libraries for Base64 and JSON.
use privmx_endpoint.Common.{
  Result, ok, length, Bytes, bytes_eq, ℕ, ◌<◌, ◌≡◌, Bool, true, false, Option, [],
}
use privmx_endpoint.Store.Crypto.{Crypto}
use privmx_endpoint.Utils.ThreadSaveMap.{Map}
use privmx_endpoint.Core.KeyProvider.{BridgeIdentity}

-- dynamic::EncryptionKey.
pub record EncryptionKey : Type 0 where
  pub id : Bytes
  pub key : Bytes
  pub key_secret : Bytes

-- dynamic::DataIntegrityObject.
pub record SignedObject : Type 0 where
  pub version : ℕ
  pub creator_user_id : Bytes
  pub creator_public_key : Bytes
  pub context_id : Bytes
  pub resource_id : Bytes
  pub timestamp : ℕ
  pub random_id : Bytes
  pub container_id : Option Bytes
  pub container_resource_id : Option Bytes
  pub field_checksums : Map Bytes Bytes
  pub structure_version : ℕ
  pub bridge_identity : Option BridgeIdentity

-- `S` are the private keys and `U` the public ones.
pub record Keyring (S U : Type 0) : Type 0 where
  pub crypto : Crypto
  pub public_key : S → U
  pub public_eq : U → U → Bool
  pub to_base58_der : U → Bytes
  pub from_base58_der : Bytes → Result U
  pub to_der : U → Bytes
  pub from_der : Bytes → Result U
  -- The cipher between a private and a public key.
  pub ecies_encrypt : S → U → Bytes → Bytes
  pub ecies_decrypt : S → U → Bytes → Result Bytes
  pub sign : S → Bytes → Bytes
  -- Arguments: key, data, signature.
  pub verify : U → Bytes → Bytes → Bool
  pub base64 : Bytes → Bytes
  pub unbase64 : Bytes → Result Bytes
  pub key_text : EncryptionKey → Bytes
  pub key_of_text : Bytes → Result EncryptionKey
  pub object_text : SignedObject → Bytes
  pub object_of_text : Bytes → Result SignedObject

-- A private key's public key reads what is written for it, and its signature; encodings are undone.
pub record IsSound {S U : Type 0} (k : Keyring S U) : Type 0 where
  pub public_eq_refl : (u : U) → k.public_eq u u ≡ true
  pub base58 : (u : U) → k.from_base58_der (k.to_base58_der u) ≡ ok u
  pub der : (u : U) → k.from_der (k.to_der u) ≡ ok u
  pub length-to_der : (u : U) → length (k.to_der u) ≡ 33
  pub decrypts :
      (s t : S) (m : Bytes)
      → k.ecies_decrypt t (k.public_key s) (k.ecies_encrypt s (k.public_key t) m) ≡ ok m
  pub verifies : (s : S) (m : Bytes) → k.verify (k.public_key s) m (k.sign s m) ≡ true
  pub length-sign : (s : S) (m : Bytes) → length (k.sign s m) < 256
  pub unbase64-base64 : (m : Bytes) → k.unbase64 (k.base64 m) ≡ ok m
  pub base64_some : (m : Bytes) → bytes_eq m [] ≡ false → bytes_eq (k.base64 m) [] ≡ false
  pub key_of_text-key_text : (e : EncryptionKey) → k.key_of_text (k.key_text e) ≡ ok e
  pub object_of_text-object_text : (o : SignedObject) → k.object_of_text (k.object_text o) ≡ ok o
