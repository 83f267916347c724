-- ===== src/Store/FileReadWriteHandle.antt =====
-- endpoint/store/src/FileHandle.cpp, class FileReadWriteHandle: a file open for reading and writing at
-- any place.
pub mod Opening
use privmx_endpoint.Common.{Result, ok, ◌>>=◌, ◌>>◌, Bytes, ℕ}
use privmx_endpoint.Store.Crypto.{Crypto}
use privmx_endpoint.Store.ChunkEncryptor.{
  ChunkEncryptor, get_encrypted_chunk_size, get_plain_chunk_size,
}
use privmx_endpoint.Store.HmacList
use privmx_endpoint.Store.ChunkDataProvider.{Server, get_current_checksums_from_bridge}
use privmx_endpoint.Store.ChunkDataProvider
use privmx_endpoint.Store.ChunkReader.{Files, DecryptionParams}
use privmx_endpoint.Store.ChunkReader
use privmx_endpoint.Store.RandomWrite.{FileHandler, FileMeta, EncKey}
use privmx_endpoint.Store.FileHandler
use privmx_endpoint.Store.FileHandler.Seeking.{FileHandlerImpl}
use privmx_endpoint.Store.FileHandler.Seeking

pub record FileInfo : Type 0 where
  pub context_id : Bytes
  pub store_id : Bytes
  pub store_resource_id : Bytes
  pub file_id : Bytes
  pub resource_id : Bytes

pub record FileEncryptionParams : Type 0 where
  pub file_meta : FileMeta
  pub file_decryption_params : DecryptionParams
  pub enc_key : EncKey

-- The resource identifier, the size, which is always 0, and the random-write flag, which is always
-- true, are left out: no operation here reads them.
pub record FileReadWriteHandle : Type 0 where
  pub id : ℕ
  pub store_id : Bytes
  pub file_id : Bytes
  pub file : FileHandlerImpl

-- The parts that the file handler shares; the checksums are asked from the server.
unfoldable pub open_parts : Crypto → Server → DecryptionParams → ℕ → Result Files
open_parts c server params server_chunk_size = do
  let encryptor : ChunkEncryptor = record { key = params.key; chunk_size = params.chunk_size }
  let provider =
      ChunkDataProvider.create (get_encrypted_chunk_size encryptor) server_chunk_size params.file_id
        params.size_on_server params.version
  checksums ← get_current_checksums_from_bridge server provider
  hashes ← HmacList.create c params.key params.hmac checksums
  reader ← ChunkReader.create encryptor params
  ok (record { provider = provider; encryptor = encryptor; hash_list = hashes; reader = reader })

-- The constructor.
unfoldable pub open_handle :
    Crypto → Server → ℕ → FileInfo → FileEncryptionParams → ℕ → Result FileReadWriteHandle
open_handle c server id info params server_chunk_size = do
  let opened = params.file_decryption_params
  files ← open_parts c server opened server_chunk_size
  ok (record {
    id = id;
    store_id = info.store_id;
    file_id = opened.file_id;
    file = Seeking.create (
        FileHandler.create files opened.original_size opened.size_on_server opened.version
          info.file_id params.file_meta params.enc_key);
  })
