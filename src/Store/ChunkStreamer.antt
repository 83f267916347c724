-- ===== src/Store/ChunkStreamer.antt =====
-- endpoint/store/src/ChunkStreamer.cpp: a file encrypted chunk by chunk and sent to the server in
-- requests of another size. The requests that the server has accepted are kept in a list of their own,
-- oldest first.
pub mod Drain
pub mod Upload
pub mod Steps
pub mod Sending
pub mod Complete
pub mod Whole
pub mod Sizes
pub mod Stored
use privmx_endpoint.Common.State.{M, ◌>>=◌, ◌>>◌, pure, throw, get, modify, lift}
use privmx_endpoint.Common.{
  ltb, ◌==◌, if◌then◌else◌, u32, u64, sub64, Result, ok, err, invalid_file_chunk_size,
  data_smaller_than_declared, length, Bytes, ℕ, zero, suc, ◌+◌, ◌-◌, ◌*◌, ◌/◌, ◌%◌, ◌^◌, Bool, not,
  Option, none, some, List, [], ◌∷◌, ◌++◌,
}
use privmx_endpoint.Store.Crypto.{Crypto}
use privmx_endpoint.Store.ChunkEncryptor.{Chunk, hmac_size, iv_size, chunk_padding}
use privmx_endpoint.Store.ChunkBufferedStream.{
  Stream, create, is_empty, read_chunk, get_number_of_full_chunks, get_full_chunk, free_full_chunks,
}
use privmx_endpoint.Store.ChunkBufferedStream

pub record ChunkModel : Type 0 where
  pub request_id : Bytes
  pub file_index : ℕ
  pub seq : ℕ
  pub part : Bytes

pub record CommitFileModel : Type 0 where
  pub request_id : Bytes
  pub file_index : ℕ
  pub seq : ℕ
  pub checksum : Bytes

pub record FileDefinition : Type 0 where
  pub size : ℕ
  pub checksum_size : ℕ
  pub random_write : Bool

-- The server's interface for uploads, a parameter: each call answers or throws.
pub record RequestApi : Type 0 where
  pub create_request : FileDefinition → Result Bytes
  pub send_chunk : ChunkModel → Result (Unit {0})
  pub commit_file : CommitFileModel → Result (Unit {0})

pub record FileSizeResult : Type 0 where
  pub size : ℕ
  pub checksum_size : ℕ

pub record ChunksSentInfo : Type 0 where
  pub cipher_type : ℕ
  pub key : Bytes
  pub hmac : Bytes
  pub chunk_size : ℕ
  pub request_id : Bytes

pub record Streamer : Type 0 where
  pub chunk_size : ℕ
  pub file_size : ℕ
  pub stream : Stream
  pub key : Bytes
  pub request_id : Bytes
  pub uploaded_file_size : ℕ
  pub seq : ℕ
  pub data_processed : ℕ
  pub checksums : Bytes
  pub file_index : ℕ
  pub server_seq : ℕ
  -- What the server has accepted.
  pub sent : List ChunkModel
  pub committed : Option CommitFileModel

-- The constructor.
unfoldable pub start : ℕ → ℕ → ℕ → Streamer
unfolding create
start chunk_size file_size server_request_chunk_size = record {
  chunk_size = chunk_size;
  file_size = file_size;
  stream = create server_request_chunk_size none;
  key = [];
  request_id = [];
  uploaded_file_size = 0;
  seq = 0;
  data_processed = 0;
  checksums = [];
  file_index = 0;
  server_seq = 0;
  sent = [];
  committed = none;
}

unfoldable pub get_file_size : Streamer → FileSizeResult
get_file_size s =
    let parts = sub64 (u64 (s.file_size + s.chunk_size)) 1 / s.chunk_size in
    let rest = s.file_size % s.chunk_size in
    let last_chunk_size = if rest == 0 then s.chunk_size else rest in
    let full_padding = chunk_padding - s.chunk_size % chunk_padding in
    let last_padding = chunk_padding - last_chunk_size % chunk_padding in
    if s.file_size == 0 then record { size = 0; checksum_size = 0 } else record {
      size = u64 (
          sub64 parts 1 * (s.chunk_size + hmac_size + iv_size + full_padding)
          + last_chunk_size
          + hmac_size
          + iv_size
          + last_padding);
      checksum_size = u64 (parts * hmac_size);
    }

-- `random_key` is what the generator of random bytes returns.
unfoldable pub create_request : RequestApi → Bytes → Bool → M Streamer (Unit {0})
create_request api random_key random_write_support = do
  modify (λ s. record s { key = random_key })
  s ← get
  modify (λ t. record t { file_index = 0 })
  id ← lift (
      api.create_request (record {
        size = (get_file_size s).size;
        checksum_size = (get_file_size s).checksum_size;
        random_write = random_write_support;
      }))
  modify (λ t. record t { request_id = id })

unfoldable pub set_request_data : Streamer → Bytes → Bytes → ℕ → Streamer
set_request_data s request_id key file_index = record s {
  request_id = request_id;
  key = key;
  file_index = file_index;
}

-- `++_serverSeq` comes after the request.
unfoldable pub send_chunk_to_server : RequestApi → Bytes → M Streamer (Unit {0})
send_chunk_to_server api d s =
    let model : ChunkModel = record {
      request_id = s.request_id;
      file_index = s.file_index;
      seq = s.server_seq;
      part = d;
    } in
    elim (api.send_chunk model) [
      | err e ↦ (s, err e)
      | ok u ↦
          (record s { server_seq = u64 (s.server_seq + 1); sent = s.sent ++ model ∷ [] }, ok tt)
    ]

-- The loop over the full chunks from number `i` on; the stream does not change in it.
unfoldable pub send_full_chunks : RequestApi → Stream → ℕ → ℕ → M Streamer (Unit {0})
send_full_chunks api b zero i = pure tt
send_full_chunks api b (suc rounds) i = do
  d ← lift (get_full_chunk b i)
  send_chunk_to_server api d
  send_full_chunks api b rounds (i + 1)

unfoldable pub free_stream : M Streamer (Unit {0})
free_stream s = elim (free_full_chunks s.stream) [
  | err e ↦ (s, err e)
  | ok b ↦ (record s { stream = b }, ok tt)
]

unfoldable pub send_full_chunks_while_collected : RequestApi → M Streamer (Unit {0})
send_full_chunks_while_collected api s =
    let n = get_number_of_full_chunks s.stream in
    (send_full_chunks api s.stream n 0 >> (if ltb 0 n then free_stream else pure tt)) s

unfoldable pub read_stream : M Streamer Bytes
read_stream s = elim (read_chunk s.stream) [
  | err e ↦ (s, err e)
  | ok r ↦ (record s { stream = r.0 }, ok r.1)
]

unfoldable pub send_last_chunk_if_non_empty : RequestApi → M Streamer (Unit {0})
send_last_chunk_if_non_empty api s =
    if is_empty s.stream then (s, ok tt) else (read_stream >>= send_chunk_to_server api) s

unfoldable pub get_seq_be : ℕ → Bytes
get_seq_be seq = (seq / 2 ^ 24) ∷ (seq / 2 ^ 16 % 256) ∷ (seq / 2 ^ 8 % 256) ∷ (seq % 256) ∷ []

-- `iv` is what the generator of random bytes returns in the call.
unfoldable pub prepare_chunk : Crypto → Streamer → Bytes → Bytes → Chunk
prepare_chunk c s iv d =
    let chunk_key = c.sha256 (s.key ++ get_seq_be s.seq) in
    let iv_with_cipher = iv ++ c.aes_encrypt d chunk_key iv in
    let tag = c.hmac_sha256 chunk_key iv_with_cipher in
    record { bytes = tag ++ iv_with_cipher; hmac = tag }

unfoldable pub write_stream : Bytes → M Streamer (Unit {0})
write_stream d s = elim (ChunkBufferedStream.write s.stream d) [
  | err e ↦ (s, err e)
  | ok b ↦ (record s { stream = b }, ok tt)
]

unfoldable pub count_chunk : Bytes → Streamer → Streamer
count_chunk d s = record s {
  data_processed = u64 (s.data_processed + length d);
  seq = u32 (s.seq + 1);
}

-- `ivs` gives the random bytes by the number of the chunk.
unfoldable pub prepare_and_send_chunk :
    Crypto → RequestApi → (ℕ → Bytes) → Bytes → M Streamer (Unit {0})
prepare_and_send_chunk c api ivs d s =
    let encrypted = prepare_chunk c s (ivs s.seq) d in
    if ltb s.file_size (u64 (s.data_processed + length d))
    then (s, err invalid_file_chunk_size)
    else (do
      modify (λ t. record t { checksums = t.checksums ++ encrypted.hmac })
      write_stream encrypted.bytes
      send_full_chunks_while_collected api
      modify (count_chunk d))
        s

unfoldable pub count_uploaded : Bytes → Streamer → Streamer
count_uploaded d s = record s { uploaded_file_size = u64 (s.uploaded_file_size + length d) }

unfoldable pub send_chunk : Crypto → RequestApi → (ℕ → Bytes) → Bytes → M Streamer (Unit {0})
send_chunk c api ivs d s =
    if not (length d == s.chunk_size)
    then (s, err invalid_file_chunk_size)
    else (modify (count_uploaded d) >> prepare_and_send_chunk c api ivs d) s

unfoldable pub commit_model : Streamer → CommitFileModel
commit_model s = record {
  request_id = s.request_id;
  file_index = s.file_index;
  seq = s.server_seq;
  checksum = s.checksums;
}

unfoldable pub commit_request : RequestApi → M Streamer (Unit {0})
commit_request api s = elim (api.commit_file (commit_model s)) [
  | err e ↦ (s, err e)
  | ok u ↦ (record s { committed = some (commit_model s) }, ok tt)
]

unfoldable pub commit_file : RequestApi → M Streamer (Unit {0})
commit_file api = do
  send_full_chunks_while_collected api
  send_last_chunk_if_non_empty api
  commit_request api

unfoldable pub sent_info : Crypto → Streamer → ChunksSentInfo
sent_info c s = record {
  cipher_type = 1;
  key = s.key;
  hmac = c.hmac_sha256 s.key s.checksums;
  chunk_size = s.chunk_size;
  request_id = s.request_id;
}

-- The bytes of the last chunk are counted in `uploaded_file_size` and added once more in the test.
unfoldable pub check_uploaded : Bytes → M Streamer (Unit {0})
check_uploaded d s =
    if ltb (u64 (s.uploaded_file_size + length d)) s.file_size
    then (s, err data_smaller_than_declared)
    else (s, ok tt)

unfoldable pub finalize : Crypto → RequestApi → (ℕ → Bytes) → Bytes → M Streamer ChunksSentInfo
finalize c api ivs d = do
  modify (count_uploaded d)
  (if length d == 0 then pure tt else prepare_and_send_chunk c api ivs d)
  check_uploaded d
  commit_file api
  s ← get
  pure (sent_info c s)
