-- ===== src/Store/ChunkEncryptor.antt =====
-- endpoint/store/src/encryptors/fileData/ChunkEncryptor.cpp.
pub mod Roundtrip
pub mod Sizes
pub mod Positions
use privmx_endpoint.Common.{
  ◌==◌, if◌then◌else◌, u32, u64, sub64, Result, ◌>>=◌, ◌>>◌, guard, file_chunk_invalid_checksum,
  file_chunk_invalid_cipher_checksum, Bytes, bytes_eq, substr, substr_from, ℕ, ◌+◌, ◌-◌, ◌*◌, ◌/◌,
  ◌%◌, ◌^◌, [], ◌∷◌, ◌++◌,
}
use privmx_endpoint.Store.Crypto.{Crypto}

pub record Chunk : Type 0 where
  pub bytes : Bytes
  pub hmac : Bytes

pub record ChunkEncryptor : Type 0 where
  pub key : Bytes
  pub chunk_size : ℕ

abbrev pub hmac_size : ℕ
hmac_size = 32

abbrev pub iv_size : ℕ
iv_size = 16

abbrev pub chunk_padding : ℕ
chunk_padding = 16

-- The four bytes of the index, cut to 32 bits, the highest first.
unfoldable pub chunk_index_to_be : ℕ → Bytes
chunk_index_to_be index =
    (u32 index / 2 ^ 24)
    ∷ (u32 index / 2 ^ 16 % 256)
    ∷ (u32 index / 2 ^ 8 % 256)
    ∷ (u32 index % 256)
    ∷ []

module _ (c : Crypto) where
  unfoldable pub chunk_key : Bytes → ℕ → Bytes
  chunk_key key index = c.sha256 (key ++ chunk_index_to_be index)

  -- `iv` is what the generator of random bytes returns in the call.
  unfoldable pub encrypt : ChunkEncryptor → ℕ → Bytes → Bytes → Chunk
  encrypt e index iv msg =
      let k = chunk_key e.key index in
      let iv_with_cipher = iv ++ c.aes_encrypt msg k iv in
      let tag = c.hmac_sha256 k iv_with_cipher in
      record { bytes = tag ++ iv_with_cipher; hmac = tag }

  unfoldable pub decrypt : ChunkEncryptor → ℕ → Chunk → Result Bytes
  decrypt e index chunk = do
    let k = chunk_key e.key index
    tag ← substr chunk.bytes 0 hmac_size
    guard (bytes_eq chunk.hmac tag) file_chunk_invalid_checksum
    rest ← substr_from chunk.bytes hmac_size
    guard (bytes_eq tag (c.hmac_sha256 k rest)) file_chunk_invalid_cipher_checksum
    iv ← substr chunk.bytes hmac_size iv_size
    body ← substr_from chunk.bytes (hmac_size + iv_size)
    c.aes_decrypt body k iv

unfoldable pub get_plain_chunk_size : ChunkEncryptor → ℕ
get_plain_chunk_size e = e.chunk_size

unfoldable pub get_encrypted_chunk_size : ChunkEncryptor → ℕ
get_encrypted_chunk_size e =
    u64 (e.chunk_size + (chunk_padding - e.chunk_size % chunk_padding) + hmac_size + iv_size)

unfoldable pub get_encrypted_file_size : ChunkEncryptor → ℕ → ℕ
get_encrypted_file_size e file_size =
    let parts = sub64 (u64 (file_size + e.chunk_size)) 1 / e.chunk_size in
    let rest = file_size % e.chunk_size in
    let last_chunk_size = if rest == 0 then e.chunk_size else rest in
    let full_padding = chunk_padding - e.chunk_size % chunk_padding in
    let last_padding = chunk_padding - last_chunk_size % chunk_padding in
    if file_size == 0
    then 0
    else u64 (
        sub64 parts 1 * (e.chunk_size + hmac_size + iv_size + full_padding)
        + last_chunk_size
        + hmac_size
        + iv_size
        + last_padding)

unfoldable pub sync : ChunkEncryptor → Bytes → ℕ → ChunkEncryptor
sync e key chunk_size = record e { key = key; chunk_size = chunk_size }
