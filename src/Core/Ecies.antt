-- ===== src/Core/Ecies.antt =====
-- crypto/base/src/EciesEncryptor.cpp: data for one public key, from the owner of a private key.
use privmx_endpoint.Common.{
  leb, ◌==◌, le→leb, Result, ok, err, ◌>>=◌, ◌>>◌, guard, undefined_behaviour, length,
  length-append, Bytes, substr, substr_from, ◌≡◌, refl, Bool, false, not, ◌&&◌, Option, none, some,
  [], ◌∷◌, ◌++◌, arith, substr-middle, substr_from-second, invalid_first_byte_of_cipher,
  given_public_key_does_not_match_with_signature, given_priv_key_does_not_match,
}
use privmx_endpoint.Core.Keyring.{Keyring, IsSound}

module _ {S U : Type 0} (k : Keyring S U) where
  unfoldable pub encrypt : U → Bytes → S → Bytes
  encrypt pub' data' priv =
      101 ∷ (k.to_der (k.public_key priv) ++ (k.to_der pub' ++ k.ecies_encrypt priv pub' data'))

  abbrev is_other : Option U → U → Bool
  is_other none u = false
  is_other (some expected) u = not (k.public_eq u expected)

  -- The first byte of an empty string is not defined.
  unfoldable pub decrypt : S → Bytes → Option U → Result Bytes
  decrypt priv [] pub_of_signature = err undefined_behaviour
  decrypt priv (first ∷ cipher') pub_of_signature = do
    let cipher = first ∷ cipher'
    guard ((first == 101) && leb 67 (length cipher)) invalid_first_byte_of_cipher
    external_pub ← substr cipher 1 33
    my_pub ← substr cipher 34 33
    external_pub_ec ← k.from_der external_pub
    guard (not (is_other pub_of_signature external_pub_ec))
        given_public_key_does_not_match_with_signature
    my_pub_ec ← k.from_der my_pub
    guard (k.public_eq my_pub_ec (k.public_key priv)) given_priv_key_does_not_match
    sealed ← substr_from cipher 67
    k.ecies_decrypt priv external_pub_ec sealed

  unfoldable pub encrypt_to_base64 : U → Bytes → S → Bytes
  encrypt_to_base64 pub' data' priv = k.base64 (encrypt pub' data' priv)

  unfoldable pub decrypt_from_base64 : S → Bytes → Option U → Result Bytes
  decrypt_from_base64 priv cipher_base64 pub_of_signature =
      k.unbase64 cipher_base64 >>= λ cipher. decrypt priv cipher pub_of_signature

  pub decrypt-encrypt :
      IsSound k
      → (s t : S) (m : Bytes)
      → decrypt t (encrypt (k.public_key t) m s) (some (k.public_key s)) ≡ ok m
  unfolding encrypt decrypt
  decrypt-encrypt v s t m =
      let a = k.to_der (k.public_key s) in
      let b = k.to_der (k.public_key t) in
      let z = k.ecies_encrypt s (k.public_key t) m in
      let la = v.length-to_der (k.public_key s) in
      let lb = v.length-to_der (k.public_key t) in
      rw
        (
          le→leb 67 (length (101 ∷ (a ++ (b ++ z))))
              (omega (arith, length-append a (b ++ z), length-append b z)),
          substr-middle (101 ∷ []) a (b ++ z) 1 33 refl la,
          substr-middle (101 ∷ a) b z 34 33 (omega arith) lb,
          v.der (k.public_key s),
          v.der (k.public_key t),
          v.public_eq_refl (k.public_key s),
          v.public_eq_refl (k.public_key t),
          substr_from-second (101 ∷ a) b z 67 (omega arith),
        )
        (v.decrypts s t m)

  pub decrypt_from_base64-encrypt_to_base64 :
      IsSound k
      → (s t : S) (m : Bytes)
      → decrypt_from_base64 t (encrypt_to_base64 (k.public_key t) m s) (some (k.public_key s))
        ≡ ok m
  unfolding encrypt_to_base64 decrypt_from_base64
  decrypt_from_base64-encrypt_to_base64 v s t m =
      rw (v.unbase64-base64 (encrypt (k.public_key t) m s)) (decrypt-encrypt v s t m)
