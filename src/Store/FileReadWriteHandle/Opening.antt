-- ===== src/Store/FileReadWriteHandle/Opening.antt =====
-- A handle that has just been opened is in step with the file on the server.
use native.Mathlib.Nat.{lt-mul-div-succ}
use privmx_endpoint.Common.{
  ==_refl, two32, two64, ok, length, take, take_all, drop_all, ℕ, ◌+◌, ◌-◌, ◌*◌, ◌/◌, ◌<◌, ◌≡◌,
  refl, sym, ap, ◌∙◌, none, some, [], arith,
}
use privmx_endpoint.Store.Crypto.{Crypto}
use privmx_endpoint.Store.ChunkEncryptor.{
  ChunkEncryptor, get_encrypted_chunk_size, get_encrypted_file_size,
}
use privmx_endpoint.Store.HmacList
use privmx_endpoint.Store.ChunkDataProvider.{Server, get_current_checksums_from_bridge}
use privmx_endpoint.Store.ChunkDataProvider
use privmx_endpoint.Store.ChunkDataProvider.Coherence.{
  IsSized, IsCoherent, Serves, mul-le, positive_size,
}
use privmx_endpoint.Store.ChunkDataProvider.Rounding.{create-IsSized}
use privmx_endpoint.Store.ChunkReader.{Files, DecryptionParams}
use privmx_endpoint.Store.ChunkReader
use privmx_endpoint.Store.ChunkReader.Refinement.{StoredFile, IsStored, IsReady}
use privmx_endpoint.Store.RandomWrite.{Remote}
use privmx_endpoint.Store.FileHandler
use privmx_endpoint.Store.FileHandler.Reading.{IsOpen}
use privmx_endpoint.Store.FileHandler.Seeking.{FileHandlerImpl, read}
use privmx_endpoint.Store.FileHandler.Seeking
use privmx_endpoint.Store.FileHandler.Seeking.Positions.{read-IsOpen}
use privmx_endpoint.Store.FileReadWriteHandle.{
  FileInfo, FileEncryptionParams, FileReadWriteHandle, open_parts, open_handle,
}

-- The provider that a handle is opened with.
abbrev new_provider : DecryptionParams → ℕ → ChunkDataProvider.Provider
new_provider params server_chunk_size =
    ChunkDataProvider.create
      (get_encrypted_chunk_size (record { key = params.key; chunk_size = params.chunk_size }))
      server_chunk_size params.file_id params.size_on_server params.version

-- The parameters describe the file on the server, whose sizes fit the machine words.
pub record Describes (c : Crypto) (server : Server) (f : StoredFile) (params : DecryptionParams)
    (server_chunk_size : ℕ) : Type 0 where
  pub same_encryptor : record { key = params.key; chunk_size = params.chunk_size } ≡ f.encryptor
  pub same_width : get_encrypted_chunk_size f.encryptor ≡ f.encrypted_size
  pub same_version : params.version ≡ f.version
  pub same_length : params.original_size ≡ length f.plain
  pub whole_size : params.size_on_server ≡ get_encrypted_file_size f.encryptor params.original_size
  pub checksums : server.read_checksums params.file_id ≡ ok f.hash_list.hashes
  pub authentic : HmacList.create c params.key params.hmac f.hash_list.hashes ≡ ok f.hash_list
  pub serves : Serves server params.file_id f.version f.stored
  pub some_bytes : 0 < f.encrypted_size
  pub some_server_bytes : 0 < server_chunk_size
  pub in_words : length f.stored + server_chunk_size + f.encrypted_size < two64
  pub in_numbers : length f.stored / server_chunk_size + 1 < two32

module _ (c : Crypto) (server : Server) (f : StoredFile) (params : DecryptionParams)
    (server_chunk_size : ℕ) (d : Describes c server f params server_chunk_size) where
  abbrev new_encryptor : ChunkEncryptor
  new_encryptor = record { key = params.key; chunk_size = params.chunk_size }

  abbrev new_files : Files
  new_files = record {
    provider = new_provider params server_chunk_size;
    encryptor = new_encryptor;
    hash_list = f.hash_list;
    reader = record { version = params.version; last_chunk = none };
  }

  new_width : get_encrypted_chunk_size new_encryptor ≡ f.encrypted_size
  new_width = ap get_encrypted_chunk_size d.same_encryptor ∙ d.same_width

  new_provider-IsSized : IsSized (new_provider params server_chunk_size) (length f.stored)
  new_provider-IsSized = rw new_width (
      create-IsSized f.encrypted_size server_chunk_size (length f.stored) d.some_bytes
        d.some_server_bytes d.in_words d.in_numbers params.file_id params.size_on_server
        params.version)

  -- The number of the kept server chunk lies behind the file.
  new_provider-IsCoherent :
      IsCoherent (new_provider params server_chunk_size) f.stored (some (two32 - 1))
  unfolding ChunkDataProvider.create
  new_provider-IsCoherent = sym (
      ap (take size) (
        drop_all (size * (two32 - 1)) f.stored (
          omega (
            arith,
            lt-mul-div-succ (length f.stored) {b = size}
                (positive_size (new_provider params server_chunk_size) new_provider-IsSized),
            mul-le size (length f.stored / size + 1) (two32 - 1)
                (omega (arith, new_provider-IsSized.in_numbers)),
          )))
      ∙ take_all size [] (omega arith))
    where
      size : ℕ
      size = (new_provider params server_chunk_size).server_chunk_size

  new_files-IsReady : IsReady server f new_files
  unfolding ChunkDataProvider.create
  new_files-IsReady = record {
    same_encryptor = d.same_encryptor;
    same_hashes = refl;
    same_version = d.same_version;
    same_size = new_width;
    serves = d.serves;
    sized = new_provider-IsSized;
    coherent = λ e. new_provider-IsCoherent;
    plain = tt;
  }

  open_parts-new : open_parts c server params server_chunk_size ≡ ok new_files
  unfolding open_parts get_current_checksums_from_bridge ChunkReader.create ChunkDataProvider.create
  open_parts-new =
      rw
        (
          d.checksums,
          d.authentic,
          d.same_encryptor,
          d.whole_size,
          ==_refl (get_encrypted_file_size f.encryptor params.original_size),
        )
        refl

module _ (c : Crypto) (r : Remote) (f : StoredFile) (stored : IsStored c f)
    (some_width : 0 < f.encryptor.chunk_size) (small : length f.plain < two64) where
  -- For parameters that describe a file on the server, opening a handle for random access
  -- succeeds, and a first read of n bytes through it returns the file's first n bytes, cut where
  -- the file ends, and leaves the handle in step with the file. The chunk size and the server's
  -- are not 0, and n, the file's length, the length of its stored bytes and the number of its
  -- server chunks fit the machine words.
  pub read-open_handle :
      (id : ℕ) (info : FileInfo) (params : FileEncryptionParams) (server_chunk_size n : ℕ)
      → Describes c r.server f params.file_decryption_params server_chunk_size
      → n < two64
      → (h : FileReadWriteHandle) × (h' : FileHandlerImpl) × (open_handle c r.server id info params
            server_chunk_size
          ≡ ok h)
        × (read c r n h.file ≡ (h', ok (take n f.plain)))
        × IsOpen r f h'.file
  unfolding open_handle FileHandler.create Seeking.create
  read-open_handle id info params server_chunk_size n d fits =
      let opened = params.file_decryption_params in
      let files = new_files c r.server f opened server_chunk_size d in
      let file : FileHandlerImpl = Seeking.create (
        FileHandler.create files opened.original_size opened.size_on_server opened.version
          info.file_id params.file_meta params.enc_key) in
      let (h', e, p, o) =
        read-IsOpen c r f stored some_width small n file
          (record {
            ready = new_files-IsReady c r.server f opened server_chunk_size d;
            plain_size = d.same_length;
          })
          (omega (arith, fits)) in
      (
        record { id = id; store_id = info.store_id; file_id = opened.file_id; file = file },
        h',
        rw (open_parts-new c r.server f opened server_chunk_size d) refl,
        e,
        o,
      )
