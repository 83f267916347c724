-- ===== src/Store/FileWriteHandle.antt =====
-- endpoint/store/src/FileHandle.cpp, class FileWriteHandle: a file written in pieces of any length, which
-- the handle's own stream cuts into chunks for the streamer.
use privmx_endpoint.Common.State.{M, ◌>>=◌, ◌>>◌, get, pure, modify, lift}
use privmx_endpoint.Common.{
  if◌then◌else◌, Result, ok, err, data_different_than_declared, Bytes, ℕ, zero, suc, ◌+◌, Bool, not,
  some,
}
use privmx_endpoint.Store.Crypto.{Crypto}
use privmx_endpoint.Store.ChunkBufferedStream.{
  Stream, is_fully_filled, read_chunk, get_full_chunk, get_number_of_full_chunks, free_full_chunks,
}
use privmx_endpoint.Store.ChunkBufferedStream
use privmx_endpoint.Store.ChunkStreamer.{
  Streamer, RequestApi, ChunksSentInfo, FileSizeResult, start, get_file_size, send_chunk,
}
use privmx_endpoint.Store.ChunkStreamer

pub record FileWriteHandle : Type 0 where
  pub id : ℕ
  pub store_id : Bytes
  pub file_id : Bytes
  pub resource_id : Bytes
  pub size : ℕ
  pub random_write_support : Bool
  pub public_meta : Bytes
  pub private_meta : Bytes
  pub stream : Stream
  pub streamer : Streamer

-- The constructor.
unfoldable pub create :
    ℕ → Bytes → Bytes → Bytes → ℕ → Bytes → Bytes → ℕ → ℕ → Bool → FileWriteHandle
create id store_id file_id resource_id size public_meta private_meta chunk_size request_chunk_size
      random =
    record {
      id = id;
      store_id = store_id;
      file_id = file_id;
      resource_id = resource_id;
      size = size;
      random_write_support = random;
      public_meta = public_meta;
      private_meta = private_meta;
      stream = ChunkBufferedStream.create chunk_size (some size);
      streamer = start chunk_size size request_chunk_size;
    }

-- A call on the handle's streamer.
abbrev on_streamer {ℓ} : {A : Type ℓ} → M Streamer A → M FileWriteHandle A
on_streamer m h = let r = m h.streamer in (record h { streamer = r.0 }, r.1)

-- A call that changes the handle's stream.
abbrev on_stream : (Stream → Result Stream) → M FileWriteHandle (Unit {0})
on_stream f h = elim (f h.stream) [ err e ↦ (h, err e) | ok b ↦ (record h { stream = b }, ok tt) ]

-- The loop over the full chunks from number `i` on; the stream does not change in it.
unfoldable pub send_full_chunks :
    Crypto → RequestApi → (ℕ → Bytes) → Stream → ℕ → ℕ → M FileWriteHandle (Unit {0})
send_full_chunks c api ivs b zero i = pure tt
send_full_chunks c api ivs b (suc rounds) i = do
  d ← lift (get_full_chunk b i)
  on_streamer (send_chunk c api ivs d)
  send_full_chunks c api ivs b rounds (i + 1)

unfoldable pub write : Crypto → RequestApi → (ℕ → Bytes) → Bytes → M FileWriteHandle (Unit {0})
write c api ivs d = do
  on_stream (λ b. ChunkBufferedStream.write b d)
  h ← get
  send_full_chunks c api ivs h.stream (get_number_of_full_chunks h.stream) 0
  on_stream free_full_chunks

unfoldable pub read_last : M FileWriteHandle Bytes
read_last h = elim (read_chunk h.stream) [
  | err e ↦ (h, err e)
  | ok r ↦ (record h { stream = r.0 }, ok r.1)
]

unfoldable pub is_ready_to_finalize : FileWriteHandle → Bool
is_ready_to_finalize h = is_fully_filled h.stream

unfoldable pub finalize : Crypto → RequestApi → (ℕ → Bytes) → M FileWriteHandle ChunksSentInfo
finalize c api ivs h =
    if not (is_fully_filled h.stream)
    then (h, err data_different_than_declared)
    else (do
      d ← read_last
      info ← on_streamer (ChunkStreamer.finalize c api ivs d)
      modify (λ t. record t { size = t.streamer.uploaded_file_size })
      pure info)
        h

unfoldable pub get_encrypted_file_size : FileWriteHandle → FileSizeResult
get_encrypted_file_size h = get_file_size h.streamer

unfoldable pub create_request_data : RequestApi → Bytes → M FileWriteHandle (Unit {0})
create_request_data api random_key h =
    on_streamer (ChunkStreamer.create_request api random_key h.random_write_support) h

unfoldable pub set_request_data : Bytes → Bytes → ℕ → FileWriteHandle → FileWriteHandle
set_request_data request_id key file_index h = record h {
  streamer = ChunkStreamer.set_request_data h.streamer request_id key file_index;
}
