-- ===== src/Core/DioEncryptor.antt =====
-- endpoint/core/src/encryptors/DIO/DIOEncryptorV1.cpp: data integrity objects, signed by their creator.
pub mod Signed
use privmx_endpoint.Common.{
  ◌==◌, if◌then◌else◌, Result, ok, err, ◌>>=◌, ◌>>◌, guard, Result-cases, undefined_behaviour,
  Bytes, bytes_eq, bytes_eq_refl, ℕ, ◌≡◌, refl, ap, ◌∙◌, inl, inr, true, false, not, ◌&&◌, Option,
  none, some, [], ◌∷◌, map, arith, data_integrity_object_mismatch_enc_key,
  malformed_data_integrity_object, data_integrity_object_invalid_signature,
}
use privmx_endpoint.Utils.ThreadSaveMap.{Map}
use privmx_endpoint.Core.KeyProvider.{BridgeIdentity, DataIntegrityObject}
use privmx_endpoint.Core.Keyring.{Keyring, SignedObject, IsSound}
use privmx_endpoint.Core.DataInnerEncryptor.{
  extract_data_with_signature, sign_and_pack_data_with_signature, verify_signature,
  extract-sign_and_pack,
}

pub record ExpandedObject : Type 0 where
  pub object : DataIntegrityObject
  pub structure_version : ℕ
  pub field_checksums : Map Bytes Bytes

-- The identity is read of the optional one whether or not it is there.
abbrev identity_of : Option BridgeIdentity → Result BridgeIdentity
identity_of none = err undefined_behaviour
identity_of (some b) = ok b

unfoldable pub assert_data_format : SignedObject → Result (Unit {0})
assert_data_format o =
    guard
      ((o.version == 1)
        && not (bytes_eq o.creator_user_id [])
        && not (bytes_eq o.creator_public_key [])
        && not (bytes_eq o.context_id [])
        && not (bytes_eq o.random_id []))
      malformed_data_integrity_object

module _ {S U : Type 0} (k : Keyring S U) where
  abbrev encode_checksums : Map Bytes Bytes → Map Bytes Bytes
  encode_checksums m = map (λ p. (p.0, k.base64 p.1)) m

  unfoldable pub decode_checksums : Map Bytes Bytes → Result (Map Bytes Bytes)
  decode_checksums [] = ok []
  decode_checksums ((name, text) ∷ m) = do
    checksum ← k.unbase64 text
    rest ← decode_checksums m
    ok ((name, checksum) ∷ rest)

  abbrev pub signed_object : ExpandedObject → SignedObject
  signed_object o = record {
    version = 1;
    creator_user_id = o.object.creator_user_id;
    creator_public_key = o.object.creator_pub_key;
    context_id = o.object.context_id;
    resource_id = o.object.resource_id;
    timestamp = o.object.timestamp;
    random_id = o.object.random_id;
    container_id = o.object.container_id;
    container_resource_id = o.object.container_resource_id;
    field_checksums = encode_checksums o.field_checksums;
    structure_version = o.structure_version;
    bridge_identity = o.object.bridge_identity;
  }

  abbrev pub expanded_object : SignedObject → Map Bytes Bytes → BridgeIdentity → ExpandedObject
  expanded_object o checksums identity = record {
    object = record {
      creator_user_id = o.creator_user_id;
      creator_pub_key = o.creator_public_key;
      context_id = o.context_id;
      resource_id = o.resource_id;
      timestamp = o.timestamp;
      random_id = o.random_id;
      container_id = o.container_id;
      container_resource_id = o.container_resource_id;
      bridge_identity = some identity;
    };
    structure_version = o.structure_version;
    field_checksums = checksums;
  }

  unfoldable pub sign_and_encode : ExpandedObject → S → Result Bytes
  sign_and_encode o author =
      if bytes_eq o.object.creator_pub_key (k.to_base58_der (k.public_key author))
      then ok
          (k.base64 (sign_and_pack_data_with_signature k (k.object_text (signed_object o)) author))
      else err data_integrity_object_mismatch_enc_key

  unfoldable pub decode_and_verify : Bytes → Result ExpandedObject
  decode_and_verify signed = do
    packed ← k.unbase64 signed
    d ← extract_data_with_signature packed
    o ← k.object_of_text d.data'
    assert_data_format o
    checksums ← decode_checksums o.field_checksums
    creator ← k.from_base58_der o.creator_public_key
    guard (verify_signature k d creator) data_integrity_object_invalid_signature
    identity ← identity_of o.bridge_identity
    ok (expanded_object o checksums identity)

  decode-encode_checksums :
      IsSound k → (m : Map Bytes Bytes) → decode_checksums (encode_checksums m) ≡ ok m
  unfolding decode_checksums
  decode-encode_checksums v [] = refl
  decode-encode_checksums v ((name, checksum) ∷ m) =
      rw (v.unbase64-base64 checksum, decode-encode_checksums v m) refl

  -- What an object has to have for its format, beside its creator's key.
  pub record IsComplete (o : DataIntegrityObject) : Type 0 where
    pub creator : bytes_eq o.creator_user_id [] ≡ false
    pub creator_key : bytes_eq o.creator_pub_key [] ≡ false
    pub context : bytes_eq o.context_id [] ≡ false
    pub random : bytes_eq o.random_id [] ≡ false
    pub identity : BridgeIdentity
    pub has_identity : o.bridge_identity ≡ some identity

  assert-signed_object :
      (o : ExpandedObject) → IsComplete o.object → assert_data_format (signed_object o) ≡ ok tt
  unfolding assert_data_format
  assert-signed_object o h = rw (h.creator, h.creator_key, h.context, h.random) refl

  pub decode_and_verify-sign_and_encode :
      IsSound k
      → (o : ExpandedObject) (s : S) → o.object.creator_pub_key ≡ k.to_base58_der (k.public_key s)
      → IsComplete o.object
      → (signed : Bytes) × (sign_and_encode o s ≡ ok signed) × (decode_and_verify signed ≡ ok o)
  unfolding sign_and_encode decode_and_verify verify_signature
  decode_and_verify-sign_and_encode v o s own h =
      let text = k.object_text (signed_object o) in
      let packed = sign_and_pack_data_with_signature k text s in
      let same : bytes_eq o.object.creator_pub_key (k.to_base58_der (k.public_key s)) ≡ true =
        ap (λ b. bytes_eq b (k.to_base58_der (k.public_key s))) own
        ∙ bytes_eq_refl (k.to_base58_der (k.public_key s)) in
      let creator : k.from_base58_der o.object.creator_pub_key ≡ ok (k.public_key s) =
        ap k.from_base58_der own ∙ v.base58 (k.public_key s) in
      (
        k.base64 packed,
        rw same refl,
        rw
            (
              v.unbase64-base64 packed,
              extract-sign_and_pack k v s text,
              v.object_of_text-object_text (signed_object o),
              assert-signed_object o h,
              decode-encode_checksums v o.field_checksums,
              creator,
              v.verifies s text,
              h.has_identity,
            )
            refl,
      )
