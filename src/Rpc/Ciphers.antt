-- ===== src/Rpc/Ciphers.antt =====
-- crypto/driver/src/CryptoService.cpp: the function prf_tls12, which derives the keys of a connection,
-- and the ciphers of the connection, a parameter.
pub mod Blocks
use privmx_endpoint.Common.{
  ltb, if◌then◌else◌, Result, ok, length, take, Bytes, ℕ, zero, suc, ◌≡◌, [], ◌++◌,
}
use privmx_endpoint.Store.Crypto.{Crypto}
use privmx_endpoint.Store.Crypto

-- The cipher without chaining, over one block, beside the service that the store uses.
pub record Ciphers : Type 0 where
  pub crypto : Crypto
  -- Arguments: data, key.
  pub aes_ecb_encrypt : Bytes → Bytes → Bytes
  pub aes_ecb_decrypt : Bytes → Bytes → Result Bytes

pub record IsSound (c : Ciphers) : Type 0 where
  pub crypto_IsSound : Crypto.IsSound c.crypto
  pub block_length :
      (block key : Bytes) → length block ≡ 16 → length (c.aes_ecb_encrypt block key) ≡ 16
  pub decrypts_block :
      (block key : Bytes)
      → length block ≡ 16
      → c.aes_ecb_decrypt (c.aes_ecb_encrypt block key) key ≡ ok block

-- The loop of prf_tls12, on the number of rounds.
unfoldable pub prf_rounds : Crypto → Bytes → Bytes → ℕ → ℕ → Bytes → Bytes → Bytes
prf_rounds c key seed n zero a result = result
prf_rounds c key seed n (suc fuel) a result =
    let a' = c.hmac_sha256 key a in
    let rest = prf_rounds c key seed n fuel a' (result ++ c.hmac_sha256 key (a' ++ seed)) in
    if ltb (length result) n then rest else result

-- Each round gives at least one byte, so as many rounds as bytes are enough.
unfoldable pub prf_tls12 : Crypto → Bytes → Bytes → ℕ → Bytes
unfolding prf_rounds
prf_tls12 c key seed n = take n (prf_rounds c key seed n n seed [])
