-- ===== src/Core/DioEncryptor/Signed.antt =====
-- An object that is decoded has been signed with its creator's key.
use privmx_endpoint.Common.{
  Bool-cases, Option-cases, ok, Result-cases, Bytes, ◌≡◌, sym, ap, ◌∙◌, inl, inr, true, arith,
}
use privmx_endpoint.Core.Keyring.{Keyring}
use privmx_endpoint.Core.DataInnerEncryptor.{
  DataWithSignature, extract_data_with_signature, verify_signature,
}
use privmx_endpoint.Core.DioEncryptor.{
  ExpandedObject, assert_data_format, decode_checksums, expanded_object, decode_and_verify,
}

module _ {S U : Type 0} (k : Keyring S U) where
  -- The object stands in data that its creator's key verifies the signature of.
  abbrev pub IsSigned : Bytes → ExpandedObject → Type 0
  IsSigned signed o =
      (packed : Bytes) × (d : DataWithSignature) × (creator : U) × (k.unbase64 signed ≡ ok packed)
      × (extract_data_with_signature packed ≡ ok d)
      × (k.from_base58_der o.object.creator_pub_key ≡ ok creator)
      × (verify_signature k d creator ≡ true)

  pub decode_and_verify-IsSigned :
      (signed : Bytes) (o : ExpandedObject) → decode_and_verify k signed ≡ ok o → IsSigned signed o
  unfolding decode_and_verify
  decode_and_verify-IsSigned signed o h = elim (Result-cases (k.unbase64 signed)) [
    | inr (x, e) ↦ absurd (ground (arith, h, e))
    | inl (packed, e1) ↦
        let h1 = rw e1 at h in
        elim (Result-cases (extract_data_with_signature packed)) [
          | inr (x, e) ↦ absurd (ground (arith, h1, e))
          | inl (d, e2) ↦
              let h2 = rw e2 at h1 in
              elim (Result-cases (k.object_of_text d.data')) [
                | inr (x, e) ↦ absurd (ground (arith, h2, e))
                | inl (w, e3) ↦
                    let h3 = rw e3 at h2 in
                    elim (Result-cases (assert_data_format w)) [
                      | inr (x, e) ↦ absurd (ground (arith, h3, e))
                      | inl (u, e4) ↦
                          let h4 = rw e4 at h3 in
                          elim (Result-cases (decode_checksums k w.field_checksums)) [
                            | inr (x, e) ↦ absurd (ground (arith, h4, e))
                            | inl (checksums, e5) ↦
                                let h5 = rw e5 at h4 in
                                elim (Result-cases (k.from_base58_der w.creator_public_key)) [
                                  | inr (x, e) ↦ absurd (ground (arith, h5, e))
                                  | inl (creator, e6) ↦
                                      let h6 = rw e6 at h5 in
                                      elim (Bool-cases (verify_signature k d creator)) [
                                        | inr refused ↦ absurd (ground (arith, h6, refused))
                                        | inl verified ↦
                                            let h7 = rw verified at h6 in
                                            elim (Option-cases w.bridge_identity) [
                                              | inl e ↦ absurd (ground (arith, rw e at h7))
                                              | inr (identity, e) ↦
                                                  let done : expanded_object k w checksums identity
                                                      ≡ o =
                                                    ground (arith, rw e at h7) in
                                                  (
                                                    packed,
                                                    d,
                                                    creator,
                                                    e1,
                                                    e2,
                                                    ap
                                                          (λ q.
                                                            k.from_base58_der
                                                            q.object.creator_pub_key)
                                                          (sym done)
                                                        ∙ e6,
                                                    verified,
                                                  )
                                            ]
                                      ]
                                ]
                          ]
                    ]
              ]
        ]
  ]
