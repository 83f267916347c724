-- ===== src/Store/ChunkEncryptor/Roundtrip.antt =====
-- What `decrypt` accepts: the chunks that `encrypt` makes, and no chunk whose checksums differ.
use privmx_endpoint.Common.{
  ok, length, take, drop, Bytes, bytes_eq_refl, bytes_eq→eq, substr, substr_from, ℕ, ◌≡◌, ◌++◌,
  arith, substr-prefix, substr_from-prefix, substr-middle, substr_from-second,
}
use privmx_endpoint.Store.Crypto.{Crypto, IsSound}
use privmx_endpoint.Store.ChunkEncryptor.{
  Chunk, ChunkEncryptor, chunk_key, encrypt, decrypt, hmac_size, iv_size,
}

module _ (c : Crypto) (s : IsSound c) (e : ChunkEncryptor) (index : ℕ) where
  -- For a sound cryptographic service and a vector of 16 bytes, decryption under the same key and
  -- index returns what was encrypted.
  pub decrypt-encrypt :
      (iv msg : Bytes) → length iv ≡ iv_size → decrypt c e index (encrypt c e index iv msg) ≡ ok msg
  unfolding decrypt encrypt
  decrypt-encrypt iv msg h =
      rw
        (
          substr-prefix tag _ 32 tag_length,
          bytes_eq_refl tag,
          substr_from-prefix tag _ 32 tag_length,
          bytes_eq_refl tag,
          substr-middle tag iv _ 32 16 tag_length h,
          substr_from-second tag iv _ 48 (omega (arith, tag_length, h)),
        )
        (s.decrypts msg k iv)
    where
      k : Bytes
      k = chunk_key c e.key index

      tag : Bytes
      tag = c.hmac_sha256 k (iv ++ c.aes_encrypt msg k iv)

      tag_length : length tag ≡ 32
      tag_length = s.hmac_length k _

  -- For a sound cryptographic service, a chunk that decrypts begins with the checksum listed for
  -- it, and that is the authentication code of the rest of the chunk under the chunk's key.
  pub decrypt-authentic :
      (chunk : Chunk) {msg : Bytes}
      → decrypt c e index chunk ≡ ok msg
      → (take hmac_size chunk.bytes ≡ chunk.hmac)
        × (c.hmac_sha256 (chunk_key c e.key index) (drop hmac_size chunk.bytes) ≡ chunk.hmac)
  unfolding decrypt substr substr_from
  decrypt-authentic chunk h = ground (
    arith,
    bytes_eq→eq chunk.hmac (take 32 chunk.bytes),
    bytes_eq→eq (take 32 chunk.bytes)
        (c.hmac_sha256 (chunk_key c e.key index) (drop hmac_size chunk.bytes)),
  )
