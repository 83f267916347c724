-- ===== src/Core/KeyProvider.antt =====
-- endpoint/core/src/KeyProvider.cpp, class KeyProvider: encryption keys are decrypted and checked. The
-- hash maps are lists of pairs in any order. A status code is the exception that it stands for, and
-- none where it is 0.
pub mod Checks
pub mod Decryption
pub mod Weakening
pub mod Duplicates
pub mod Verified
pub mod Users
pub mod Whole
use privmx_endpoint.Common.{
  Error, Result, Bytes, bytes_eq, ℕ, Bool, true, false, ◌&&◌, Option, none, some, List, [],
}

pub record EncKeyLocation : Type 0 where
  pub context_id : Bytes
  pub resource_id : Bytes

pub record BridgeIdentity : Type 0 where
  pub url : Bytes
  pub pub_key : Option Bytes
  pub instance_id : Option Bytes

pub record DataIntegrityObject : Type 0 where
  pub creator_user_id : Bytes
  pub creator_pub_key : Bytes
  pub context_id : Bytes
  pub resource_id : Bytes
  pub timestamp : ℕ
  pub random_id : Bytes
  pub container_id : Option Bytes
  pub container_resource_id : Option Bytes
  pub bridge_identity : Option BridgeIdentity

-- Of the expanded object of a key the fields of the object itself.
pub record DecryptedEncKey : Type 0 where
  pub id : Bytes
  pub key : Bytes
  pub data_structure_version : ℕ
  pub status_code : Option Error
  pub dio : DataIntegrityObject
  pub key_secret : Bytes
  pub secret_hash : Bytes

-- What the server has sent for a key: an object, a text or something else.
pub data EntryData (J : Type 0) : Type 0 where
  object : J → EntryData J
  text : Bytes → EntryData J
  other : EntryData J

pub record KeyEntry (J : Type 0) : Type 0 where
  pub key_id : Bytes
  pub data' : EntryData J

pub record VerificationRequest : Type 0 where
  pub context_id : Bytes
  pub sender_id : Bytes
  pub sender_pub_key : Bytes
  pub date : ℕ
  pub bridge_identity : Option BridgeIdentity

-- The JSON objects and the encryptors of keys, with the private key, and the application's verifier.
pub record Services (J E : Type 0) : Type 0 where
  pub version_of : J → Result ℕ
  pub entry_of : J → Result E
  pub decrypt_v1 : Bytes → Result Bytes
  pub decrypt_v2 : E → DecryptedEncKey
  pub user_verifier : List VerificationRequest → Result (List Bool)

abbrev pub location_eq : EncKeyLocation → EncKeyLocation → Bool
location_eq a b = bytes_eq a.context_id b.context_id && bytes_eq a.resource_id b.resource_id

-- The value that nothing has been set of.
abbrev pub no_dio : DataIntegrityObject
no_dio = record {
  creator_user_id = [];
  creator_pub_key = [];
  context_id = [];
  resource_id = [];
  timestamp = 0;
  random_id = [];
  container_id = none;
  container_resource_id = none;
  bridge_identity = none;
}

-- A DecryptedEncKeyV2 that nothing but the status has been set of.
abbrev pub failed : Error → DecryptedEncKey
failed e = record {
  id = [];
  key = [];
  data_structure_version = 0;
  status_code = some e;
  dio = no_dio;
  key_secret = [];
  secret_hash = [];
}

abbrev pub has_failed : DecryptedEncKey → Bool
has_failed k = elim k.status_code [ none ↦ false | some e ↦ true ]
