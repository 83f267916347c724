-- ===== src/Store/FileReadHandle.antt =====
-- endpoint/store/src/FileHandle.cpp, class FileReadHandle: a file open for reading at a position.
pub mod Reading
use privmx_endpoint.Common.{
  leb, ◌==◌, if◌then◌else◌, u64, Result, ok, err, ◌>>=◌, ◌>>◌, file_corrupted, pos_out_of_bounds,
  Bytes, ℕ, ◌+◌, not, none,
}
use privmx_endpoint.Store.Crypto.{Crypto}
use privmx_endpoint.Store.ChunkEncryptor.{
  ChunkEncryptor, get_encrypted_chunk_size, get_encrypted_file_size,
}
use privmx_endpoint.Store.ChunkEncryptor
use privmx_endpoint.Store.HmacList
use privmx_endpoint.Store.ChunkDataProvider.{Server, get_current_checksums_from_bridge}
use privmx_endpoint.Store.ChunkDataProvider
use privmx_endpoint.Store.ChunkReader.{Files, DecryptionParams}
use privmx_endpoint.Store.ChunkReader
use privmx_endpoint.Store.FileReader.{FileReader}
use privmx_endpoint.Store.FileReader

-- The empty store identifier, the resource identifier and the random-write flag, which is always
-- false, are left out: no operation here reads them.
pub record FileReadHandle : Type 0 where
  pub id : ℕ
  pub file_id : Bytes
  pub size : ℕ
  pub files : Files
  pub file_reader : FileReader
  pub pos : ℕ

-- The constructor; the checksums are asked from the server.
unfoldable pub open_handle : Crypto → Server → ℕ → DecryptionParams → ℕ → Result FileReadHandle
open_handle c server id params server_chunk_size = do
  let encryptor : ChunkEncryptor = record { key = params.key; chunk_size = params.chunk_size }
  let provider =
      ChunkDataProvider.create (get_encrypted_chunk_size encryptor) server_chunk_size params.file_id
        params.size_on_server params.version
  checksums ← get_current_checksums_from_bridge server provider
  hashes ← HmacList.create c params.key params.hmac checksums
  reader ← ChunkReader.create encryptor params
  ok (record {
    id = id;
    file_id = params.file_id;
    size = params.original_size;
    files = record {
      provider = provider;
      encryptor = encryptor;
      hash_list = hashes;
      reader = reader;
    };
    file_reader = FileReader.create params;
    pos = 0;
  })

-- The parts after the encryptor, which has been set by then.
unfoldable pub sync_parts :
    Crypto → Server → DecryptionParams → FileReadHandle → FileReadHandle × Result (Unit {0})
sync_parts c server params h =
    elim (get_current_checksums_from_bridge server h.files.provider
      >>= HmacList.sync c h.files.hash_list params.key params.hmac) [
        | err e ↦ (h, err e)
        | ok hashes ↦ (
          record h {
            files = record h.files {
              hash_list = hashes;
              provider =
                  ChunkDataProvider.sync h.files.provider params.version params.size_on_server none
                    none;
              reader = ChunkReader.sync h.files.reader params;
            };
            file_reader = FileReader.sync h.file_reader params;
            size = params.original_size;
          },
          ok tt,
        )
      ]

unfoldable pub sync :
    Crypto → Server → DecryptionParams → FileReadHandle → FileReadHandle × Result (Unit {0})
sync c server params h =
    if not (params.size_on_server == get_encrypted_file_size h.files.encryptor params.original_size)
    then (h, err file_corrupted)
    else sync_parts c server params (record h {
      files = record h.files {
        encryptor = ChunkEncryptor.sync h.files.encryptor params.key params.chunk_size;
      };
    })

unfoldable pub seek : ℕ → FileReadHandle → FileReadHandle × Result (Unit {0})
seek pos h = if leb h.size pos then (h, err pos_out_of_bounds) else (record h { pos = pos }, ok tt)

-- The position moves by the length asked for, however much has been read.
unfoldable pub advance : FileReadHandle → ℕ → Files × Result Bytes → FileReadHandle × Result Bytes
advance h n (files, err e) = (record h { files = files }, err e)
advance h n (files, ok bytes) = (record h { files = files; pos = u64 (h.pos + n) }, ok bytes)

-- A length is a word of 64 bits, as SIZE_MAX is, so it is never above that.
unfoldable pub read : Crypto → Server → ℕ → FileReadHandle → FileReadHandle × Result Bytes
unfolding advance
read c server n h = advance h n (FileReader.read c server h.file_reader h.files h.pos n)
