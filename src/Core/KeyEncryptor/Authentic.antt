-- ===== src/Core/KeyEncryptor/Authentic.antt =====
-- A key that decrypts without a failure stands in an entry that its creator has signed.
use privmx_endpoint.Common.{
  Bool-cases, ok, Result-cases, Bytes, bytes_eq, bytes_eq→eq, ◌≡◌, refl, sym, ap, ◌∙◌, inl, inr,
  ◌||◌, none, some, [], arith,
}
use privmx_endpoint.Common.State.{M, ◌>>=◌, >>=-ok, >>=-err}
use privmx_endpoint.Utils.ThreadSaveMap.{Map}
use privmx_endpoint.Core.KeyProvider.{DecryptedEncKey, DataIntegrityObject}
use privmx_endpoint.Core.Keyring.{Keyring, EncryptionKey}
use privmx_endpoint.Core.DioEncryptor.{ExpandedObject, decode_and_verify}
use privmx_endpoint.Core.DioEncryptor.Signed.{IsSigned, decode_and_verify-IsSigned}
use privmx_endpoint.Core.Ecies.{decrypt_from_base64}
use privmx_endpoint.Core.KeyEncryptor.{
  EncryptedKeyEntry, checksum_at, encrypted_key_field, secret_hash_field, assert_data_format,
  no_key, caught, decrypt_object, set_key, open_entry, decrypt,
}

module _ {S U : Type 0} (k : Keyring S U) where
  -- The decrypted key is of the signed object, which has the entry's checksum and the key's hash.
  pub record IsAuthentic (e : EncryptedKeyEntry) (a : DecryptedEncKey) : Type 0 where
    pub expanded : ExpandedObject
    pub decoded : decode_and_verify k e.dio ≡ ok expanded
    pub signed : IsSigned k e.dio expanded
    pub same_object : a.dio ≡ expanded.object
    pub same_checksum :
        checksum_at encrypted_key_field expanded.field_checksums
        ≡ ok (k.crypto.sha256 e.encrypted_key)
    pub same_hash : checksum_at secret_hash_field expanded.field_checksums ≡ ok a.secret_hash

  set_key-same :
      (d : EncryptionKey) (checksums : Map Bytes Bytes) (r : DecryptedEncKey)
      → r.status_code ≡ none
      → (caught (set_key k d checksums r)).status_code ≡ none
      → ((caught (set_key k d checksums r)).dio ≡ r.dio)
        × (checksum_at secret_hash_field checksums
            ≡ ok (caught (set_key k d checksums r)).secret_hash)
  unfolding set_key
  set_key-same d checksums r fresh h = elim (Result-cases (k.unbase64 d.key)) [
    | inr (x, e) ↦ absurd (ground (arith, rw e at h))
    | inl (key, e1) ↦
        let h1 = rw e1 at h in
        elim (Result-cases (checksum_at secret_hash_field checksums)) [
          | inr (x, e) ↦ absurd (ground (arith, rw e at h1))
          | inl (hash, e2) ↦
              let h2 = rw e2 at h1 in
              elim (Result-cases (k.unbase64 d.key_secret)) [
                | inr (x, e) ↦ absurd (ground (arith, rw e at h2))
                | inl (secret, e3) ↦
                    let done : set_key k d checksums r ≡ (
                      record r { id = d.id; key = key; secret_hash = hash; key_secret = secret },
                      ok tt,
                    ) =
                      rw (e1, e2, e3) refl in
                    (
                      ap (λ p. (caught p).dio) done,
                      e2 ∙ ap (λ p. ok (caught p).secret_hash) (sym done),
                    )
              ]
        ]
  ]

  decrypt_object-same :
      (e : EncryptedKeyEntry) (t : S) (dio : DataIntegrityObject) (r : DecryptedEncKey)
      → (decrypt_object k e t dio r).0 ≡ r
  unfolding decrypt_object
  decrypt_object-same e t dio r = elim (Result-cases (k.from_base58_der dio.creator_pub_key)) [
    | inr (x, e') ↦ rw e' refl
    | inl (c, e1) ↦ elim (Result-cases (decrypt_from_base64 k t e.encrypted_key (some c))) [
      | inr (x, e') ↦ rw (e1, e') refl
      | inl (text, e2) ↦ elim (Result-cases (k.key_of_text text)) [
        | inr (x, e') ↦ rw (e1, e2, e') refl
        | inl (d, e3) ↦ elim (Bool-cases (bytes_eq d.id [] || bytes_eq d.key [])) [
          | inl g ↦ rw (e1, e2, e3, g) refl
          | inr g ↦ rw (e1, e2, e3, g) refl
        ]
      ]
    ]
  ]

  open_entry-same :
      (e : EncryptedKeyEntry) (t : S) (o : ExpandedObject)
      → (caught (open_entry k e t o no_key)).status_code ≡ none
      → ((caught (open_entry k e t o no_key)).dio ≡ o.object)
        × (checksum_at encrypted_key_field o.field_checksums ≡ ok (k.crypto.sha256 e.encrypted_key))
        × (checksum_at secret_hash_field o.field_checksums
            ≡ ok (caught (open_entry k e t o no_key)).secret_hash)
  unfolding open_entry
  open_entry-same e t o h =
      let r : DecryptedEncKey = record no_key { dio = o.object } in
      let m : M DecryptedEncKey EncryptionKey = decrypt_object k e t o.object in
      let f : EncryptionKey → M DecryptedEncKey (Unit {0}) = λ d. set_key k d o.field_checksums in
      let sum = k.crypto.sha256 e.encrypted_key in
      elim (Result-cases (checksum_at encrypted_key_field o.field_checksums)) [
        | inr (x, e') ↦ absurd (ground (arith, rw e' at h))
        | inl (c, e1) ↦
            let h1 = rw e1 at h in
            elim (Bool-cases (bytes_eq c sum)) [
              | inr refused ↦ absurd (ground (arith, rw refused at h1))
              | inl same ↦
                  let start : open_entry k e t o no_key ≡ (m >>= f) r = rw (e1, same) refl in
                  let kept : m r ≡ (r, (m r).1) =
                    ap (λ q. (q, (m r).1)) (decrypt_object-same e t o.object r) in
                  elim (Result-cases (m r).1) [
                    | inr (x, e') ↦
                        let all = start ∙ >>=-err m f r (kept ∙ ap (λ z. (r, z)) e') in
                        absurd (ground (arith, sym (ap (λ p. (caught p).status_code) all) ∙ h))
                    | inl (d, e') ↦
                        let all = start ∙ >>=-ok m f r (kept ∙ ap (λ z. (r, z)) e') in
                        let (dio, hash) =
                          set_key-same d o.field_checksums r refl
                            (sym (ap (λ p. (caught p).status_code) all) ∙ h) in
                        (
                          ap (λ p. (caught p).dio) all ∙ dio,
                          e1 ∙ ap ok (bytes_eq→eq c sum same),
                          hash ∙ ap (λ p. ok (caught p).secret_hash) (sym all),
                        )
                  ]
            ]
      ]

  -- A key that EncKeyEncryptorV2 decrypts without a failure is that of a data integrity object
  -- which was decoded from the entry and stands in data that its creator's key verifies the
  -- signature of; the object lists the checksum of the entry's ciphertext, and the key's secret
  -- hash is the one that the object lists.
  pub decrypt-IsAuthentic :
      (e : EncryptedKeyEntry) (t : S)
      → (decrypt k e t).status_code ≡ none
      → IsAuthentic e (decrypt k e t)
  unfolding decrypt
  decrypt-IsAuthentic e t h = elim (Result-cases (assert_data_format e)) [
    | inr (x, e') ↦ absurd (ground (arith, rw e' at h))
    | inl (u, e1) ↦
        let h1 = rw e1 at h in
        elim (Result-cases (decode_and_verify k e.dio)) [
          | inr (x, e') ↦ absurd (ground (arith, rw e' at h1))
          | inl (o, e2) ↦
              let all : decrypt k e t ≡ caught (open_entry k e t o no_key) = rw (e1, e2) refl in
              let (dio, checksum, hash) =
                open_entry-same e t o (sym (ap (λ (a : DecryptedEncKey). a.status_code) all) ∙ h) in
              record {
                expanded = o;
                decoded = e2;
                signed = decode_and_verify-IsSigned k e.dio o e2;
                same_object = ap (λ (a : DecryptedEncKey). a.dio) all ∙ dio;
                same_checksum = checksum;
                same_hash = hash ∙ ap (λ (a : DecryptedEncKey). ok a.secret_hash) (sym all);
              }
        ]
  ]
