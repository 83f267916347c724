-- ===== src/Tests/Opening.antt =====
-- The file of five bytes, opened for random access.
use privmx_endpoint.Common.{u64, sub64, ok, Bytes, bytes_eq_refl, ◌≡◌, refl, some, [], ◌∷◌, arith}
use privmx_endpoint.Store.Crypto.{plain_crypto}
use privmx_endpoint.Store.ChunkEncryptor.{get_encrypted_chunk_size, get_encrypted_file_size}
use privmx_endpoint.Store.HmacList.{create, is_whole}
use privmx_endpoint.Store.ChunkReader.Refinement.{StoredFile, IsStored}
use privmx_endpoint.Store.FileHandler.Reading.{IsOpen}
use privmx_endpoint.Store.FileHandler.Seeking.{FileHandlerImpl, read}
use privmx_endpoint.Store.FileReadWriteHandle.{
  FileInfo, FileEncryptionParams, FileReadWriteHandle, open_handle,
}
use privmx_endpoint.Store.FileReadWriteHandle.Opening.{Describes, read-open_handle}
use privmx_endpoint.Tests.Files.{
  encryptor, file, server, file-IsStored, stored_length, three_chunks,
}
use privmx_endpoint.Tests.Handlers.{remote, meta, handler}

-- The file of five bytes with the checksum of its checksums.
abbrev hmac : Bytes
hmac = plain_crypto.hmac_sha256 encryptor.key file.hash_list.hashes

abbrev served : StoredFile
served = record file { hash_list = record file.hash_list { top_hash = some hmac } }

served-IsStored : IsStored plain_crypto served
served-IsStored = record {
  whole = file-IsStored.whole;
  fits = file-IsStored.fits;
  few = file-IsStored.few;
  hashed = file-IsStored.hashed;
  there = file-IsStored.there;
  decrypts = file-IsStored.decrypts;
}

served-authentic :
    create plain_crypto encryptor.key hmac served.hash_list.hashes ≡ ok served.hash_list
unfolding create is_whole
served-authentic = rw (bytes_eq_refl hmac, file-IsStored.whole, three_chunks) refl

abbrev params : FileEncryptionParams
params = record {
  file_meta = meta;
  file_decryption_params = record {
    file_id = 70 ∷ [];
    size_on_server = 192;
    original_size = 5;
    chunk_size = 2;
    key = 9 ∷ 8 ∷ [];
    hmac = hmac;
    version = 7;
  };
  enc_key = handler.file_enc_key;
}

abbrev info : FileInfo
info = record {
  context_id = [];
  store_id = 83 ∷ [];
  store_resource_id = [];
  file_id = 70 ∷ [];
  resource_id = [];
}

params-Describes : Describes plain_crypto server served params.file_decryption_params 100
unfolding get_encrypted_chunk_size get_encrypted_file_size u64 sub64
params-Describes = record {
  same_encryptor = refl;
  same_width = refl;
  same_version = refl;
  same_length = refl;
  whole_size = refl;
  checksums = refl;
  authentic = served-authentic;
  serves = λ from to. refl;
  some_bytes = omega arith;
  some_server_bytes = omega arith;
  in_words = omega (arith, stored_length);
  in_numbers = rw stored_length (omega arith);
}

read-open_handle_example :
    (h : FileReadWriteHandle) × (h' : FileHandlerImpl) × (open_handle plain_crypto server 4 info
        params 100
      ≡ ok h)
    × (read plain_crypto remote 3 h.file ≡ (h', ok (1 ∷ 2 ∷ 3 ∷ [])))
    × IsOpen remote served h'.file
read-open_handle_example =
    read-open_handle plain_crypto remote served served-IsStored (omega arith) (omega arith) 4 info
      params 100 3 params-Describes (omega arith)
