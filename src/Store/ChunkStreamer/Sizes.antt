-- ===== src/Store/ChunkStreamer/Sizes.antt =====
-- The size that the streamer declares to the server.
use privmx_endpoint.Common.{◌==◌, Bool-cases, Bytes, ◌≡◌, refl, inl, inr}
use privmx_endpoint.Store.ChunkEncryptor.{get_encrypted_file_size}
use privmx_endpoint.Store.ChunkStreamer.{Streamer, get_file_size}

-- The size that the streamer declares for its file is the one that the chunk encryptor computes
-- for the same chunk size, whatever the key.
pub get_file_size-encrypted :
    (s : Streamer) (key : Bytes)
    → (get_file_size s).size
      ≡ get_encrypted_file_size (record { key = key; chunk_size = s.chunk_size }) s.file_size
unfolding get_file_size get_encrypted_file_size
get_file_size-encrypted s key = elim (Bool-cases (s.file_size == 0)) [
  | inl t ↦ rw t refl
  | inr f ↦ rw f refl
]
