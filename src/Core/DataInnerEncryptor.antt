-- ===== src/Core/DataInnerEncryptor.antt =====
-- endpoint/core/src/encryptors/DataInnerEcnryptorV4.cpp: data with the signature of its author.
use privmx_endpoint.Common.{
  ◌==◌, if◌then◌else◌, Result, ok, err, ◌>>=◌, ◌>>◌, guard, length, Bytes, substr, substr_from, ℕ,
  ◌+◌, ◌%◌, ◌≡◌, refl, Bool, [], ◌∷◌, ◌++◌, arith, substr-middle, substr_from-second,
  unsupported_type, invalid_data_signature,
}
use privmx_endpoint.Core.Keyring.{Keyring, IsSound}

pub record DataWithSignature : Type 0 where
  pub signature : Bytes
  pub data' : Bytes

unfoldable pub pack_data_with_signature : DataWithSignature → Bytes
pack_data_with_signature d = 1 ∷ (length d.signature % 256) ∷ (d.signature ++ d.data')

-- The byte behind the first; behind the end of a string stands a 0.
abbrev first_or_zero : Bytes → ℕ
first_or_zero [] = 0
first_or_zero (n ∷ ns) = n

abbrev extract_at : ℕ → Bytes → Result DataWithSignature
extract_at n buf = do
  signature ← substr buf 2 n
  data' ← substr_from buf (2 + n)
  ok (record { signature = signature; data' = data' })

unfoldable pub extract_data_with_signature : Bytes → Result DataWithSignature
extract_data_with_signature [] = err unsupported_type
extract_data_with_signature (kind ∷ rest) =
    if kind == 1 then extract_at (first_or_zero rest) (kind ∷ rest) else err unsupported_type

module _ {S U : Type 0} (k : Keyring S U) where
  unfoldable pub sign_and_pack_data_with_signature : Bytes → S → Bytes
  sign_and_pack_data_with_signature data' author =
      pack_data_with_signature (record { signature = k.sign author data'; data' = data' })

  unfoldable pub verify_signature : DataWithSignature → U → Bool
  verify_signature d author = k.verify author d.data' d.signature

  unfoldable pub verify_and_extract_data : Bytes → U → Result Bytes
  verify_and_extract_data signed_data author = do
    d ← extract_data_with_signature signed_data
    guard (verify_signature d author) invalid_data_signature
    ok d.data'

  pub extract-sign_and_pack :
      IsSound k
      → (s : S) (m : Bytes)
      → extract_data_with_signature (sign_and_pack_data_with_signature m s)
        ≡ ok (record { signature = k.sign s m; data' = m })
  unfolding sign_and_pack_data_with_signature pack_data_with_signature extract_data_with_signature
  extract-sign_and_pack v s m =
      let sig = k.sign s m in
      let n = length sig % 256 in
      let e : length sig ≡ n = omega (arith, v.length-sign s m) in
      rw
        (
          substr-middle (1 ∷ n ∷ []) sig m 2 n refl e,
          substr_from-second (1 ∷ n ∷ []) sig m (2 + n) (omega arith),
        )
        refl
