-- ===== src/Tests/Files.antt =====
-- A file of five bytes in chunks of two, encrypted, stored and read.
use privmx_endpoint.Common.{
  two32, ok, err, pos_out_of_bounds, length, take, drop, replicate, Bytes, ℕ, ◌-◌, ◌≤◌, ◌<◌, ◌≡◌,
  refl, ◌⊎◌, false, none, some, [], ◌∷◌, ◌++◌, arith, slice,
}
use privmx_endpoint.Store.Crypto.{plain_crypto, plain_crypto-IsSound}
use privmx_endpoint.Store.ChunkEncryptor.{
  ChunkEncryptor, encrypt, decrypt, chunk_key, get_encrypted_file_size,
}
use privmx_endpoint.Store.ChunkEncryptor.Roundtrip.{decrypt-encrypt, decrypt-authentic}
use privmx_endpoint.Store.ChunkEncryptor.Sizes.{
  split_chunks, encrypt_all, encrypted-file-size, stored-length,
}
use privmx_endpoint.Store.ChunkDataProvider
use privmx_endpoint.Store.ChunkDataProvider.{Server, Provider, reply}
use privmx_endpoint.Store.ChunkDataProvider.Coherence.{
  IsSized, IsCoherent, kept-IsSized, kept, get_chunk-slice,
}
use privmx_endpoint.Store.ChunkDataProvider.Update.{written, update-IsCoherent}
use privmx_endpoint.Store.ChunkReader.{Files}
use privmx_endpoint.Store.ChunkReader.Refinement.{StoredFile, IsStored, IsReady}
use privmx_endpoint.Store.ChunkReader.Encrypted.{
  encrypted_chunks, encrypted_file, encrypted_file-IsStored,
}
use privmx_endpoint.Store.FileReader.{FileReader}
use privmx_endpoint.Store.FileReader
use privmx_endpoint.Store.FileReader.Refinement.{read-plain}
use privmx_endpoint.Store.FileReadHandle.{FileReadHandle, read, seek}
use privmx_endpoint.Store.FileReadHandle.Reading.{MovesTo, IsOpen, read-joined, seek-read-plain}

abbrev pub encryptor : ChunkEncryptor
encryptor = record { key = 9 ∷ 8 ∷ []; chunk_size = 2 }

abbrev pub ivs : ℕ → Bytes
ivs n = replicate 16 n

pub ivs-long : (n : ℕ) → length (ivs n) ≡ 16
ivs-long n = refl

abbrev pub message : Bytes
message = 1 ∷ 2 ∷ 3 ∷ 4 ∷ 5 ∷ []

abbrev pub file : StoredFile
file = encrypted_file plain_crypto plain_crypto-IsSound encryptor ivs ivs-long message 7

pub three_chunks :
    length (encrypted_chunks plain_crypto plain_crypto-IsSound encryptor ivs ivs-long message) ≡ 3
unfolding encrypt_all split_chunks
three_chunks = refl

pub stored_length : length file.stored ≡ 192
unfolding split_chunks
stored_length =
    stored-length plain_crypto plain_crypto-IsSound encryptor ivs 0 (split_chunks 5 2 message)
      ivs-long

pub file-IsStored : IsStored plain_crypto file
file-IsStored =
    encrypted_file-IsStored plain_crypto plain_crypto-IsSound encryptor ivs ivs-long message 7
      (omega arith) (omega (arith, three_chunks))

abbrev pub server : Server
server = record {
  read_slice = λ id version from to. reply (slice from (to - from) file.stored);
  read_checksums = λ id. ok file.hash_list.hashes;
}

abbrev pub provider : Provider
provider = record {
  encrypted_chunk_size = 64;
  server_chunk_size = 128;
  file_id = 70 ∷ [];
  server_file_size = 192;
  file_version = 7;
  last_server_chunk = [];
  last_server_chunk_number = none;
}

pub provider-IsSized : IsSized provider (length file.stored)
provider-IsSized = record {
  per_server_chunk = 2;
  server_size = refl;
  some_chunks = omega arith;
  some_bytes = omega arith;
  in_words = omega (arith, stored_length);
  in_numbers = rw stored_length (omega arith);
}

abbrev pub files : Files
files = record {
  provider = provider;
  encryptor = encryptor;
  hash_list = file.hash_list;
  reader = record { version = 7; last_chunk = none };
}

pub files-IsReady : IsReady server file files
files-IsReady = record {
  same_encryptor = refl;
  same_hashes = refl;
  same_version = refl;
  same_size = refl;
  serves = λ from to. refl;
  sized = provider-IsSized;
  coherent = λ e. tt;
  plain = tt;
}

abbrev reader : FileReader
reader = record { plain_file_size = 5; version = 7 }

-- Three bytes from the second on, which lie in two chunks.
read-plain_example :
    (s : Files) × (FileReader.read plain_crypto server reader files 1 3 ≡ (s, ok (2 ∷ 3 ∷ 4 ∷ [])))
    × IsReady server file s
read-plain_example =
    read-plain plain_crypto server file file-IsStored reader 1 3 files files-IsReady refl
      (omega arith) (omega arith) (omega arith)

abbrev handle : FileReadHandle
handle = record {
  id = 1;
  file_id = 70 ∷ [];
  size = 5;
  files = files;
  file_reader = reader;
  pos = 1;
}

handle-IsOpen : IsOpen server file handle
handle-IsOpen = record { ready = files-IsReady; reader_size = refl; handle_size = refl }

read-joined_example :
    (h1 : FileReadHandle) × (h2 : FileReadHandle) × (read plain_crypto server 2 handle
      ≡ (h1, ok (2 ∷ 3 ∷ [])))
    × (read plain_crypto server 9 h1 ≡ (h2, ok (4 ∷ 5 ∷ [])))
    × (slice 1 2 message ++ slice 3 9 message ≡ slice 1 11 message)
    × IsOpen server file h2
    × MovesTo plain_crypto server file file-IsStored (omega arith) (omega arith) 12 h2
read-joined_example =
    read-joined plain_crypto server file file-IsStored (omega arith) (omega arith) 2 9 handle
      handle-IsOpen (omega arith)

seek-read-plain_example :
    ((3 < 5)
      × (h : FileReadHandle) × ((seek 3 handle).1 ≡ ok tt)
      × (read plain_crypto server 1 (seek 3 handle).0 ≡ (h, ok (4 ∷ []))))
    ⊎ ((5 ≤ 3) × (seek 3 handle ≡ (handle, err pos_out_of_bounds)))
seek-read-plain_example =
    seek-read-plain plain_crypto server file file-IsStored (omega arith) (omega arith) 3 1 handle
      handle-IsOpen (omega arith)

encrypted-file-size_example : get_encrypted_file_size encryptor 5 ≡ length file.stored
encrypted-file-size_example =
    encrypted-file-size plain_crypto plain_crypto-IsSound encryptor ivs message ivs-long
      (omega arith) (omega arith) (omega (arith, stored_length))

decrypted :
    decrypt plain_crypto encryptor 300 (encrypt plain_crypto encryptor 300 (ivs 4) message)
    ≡ ok message
decrypted = decrypt-encrypt plain_crypto plain_crypto-IsSound encryptor 300 (ivs 4) message refl

decrypt-encrypt_example :
    decrypt plain_crypto encryptor 0 (encrypt plain_crypto encryptor 0 (ivs 4) []) ≡ ok []
decrypt-encrypt_example =
    decrypt-encrypt plain_crypto plain_crypto-IsSound encryptor 0 (ivs 4) [] refl

decrypt-authentic_example :
    (take 32 (encrypt plain_crypto encryptor 300 (ivs 4) message).bytes
      ≡ (encrypt plain_crypto encryptor 300 (ivs 4) message).hmac)
    × (plain_crypto.hmac_sha256
          (chunk_key plain_crypto encryptor.key 300)
          (drop 32 (encrypt plain_crypto encryptor 300 (ivs 4) message).bytes)
        ≡ (encrypt plain_crypto encryptor 300 (ivs 4) message).hmac)
decrypt-authentic_example =
    decrypt-authentic plain_crypto plain_crypto-IsSound encryptor 300
      (encrypt plain_crypto encryptor 300 (ivs 4) message) decrypted

get_chunk-slice_example :
    ChunkDataProvider.get_chunk server provider 1 8
    ≡ (kept (record provider { file_version = 8 }) file.stored 0, ok (slice 64 64 file.stored))
get_chunk-slice_example =
    get_chunk-slice server provider file.stored 1 8 provider-IsSized (λ from to. refl) (λ e. tt)
      (omega arith) (omega (arith, stored_length))

-- The first server chunk is kept; its second encrypted chunk is written anew.
update-IsCoherent_example :
    IsCoherent
      (ChunkDataProvider.update (kept provider file.stored 0) 8 1 (replicate 64 3) 192 false)
      (written file.stored 64 (replicate 64 3) false)
      (some 0)
update-IsCoherent_example =
    update-IsCoherent (kept provider file.stored 0) file.stored 1 8 192 (replicate 64 3) false
      (some 0) (kept-IsSized provider file.stored 0 provider-IsSized) (omega arith) (omega arith)
      (omega (arith, stored_length)) refl refl (λ e. absurd (ground (arith, e)))

few_chunks :
    length (encrypted_chunks plain_crypto plain_crypto-IsSound encryptor ivs ivs-long (8 ∷ []))
    ≤ two32
unfolding encrypt_all split_chunks
few_chunks = omega arith

encrypted_file-IsStored_example :
    IsStored plain_crypto
      (encrypted_file plain_crypto plain_crypto-IsSound encryptor ivs ivs-long (8 ∷ []) 3)
encrypted_file-IsStored_example =
    encrypted_file-IsStored plain_crypto plain_crypto-IsSound encryptor ivs ivs-long (8 ∷ []) 3
      (omega arith) few_chunks
