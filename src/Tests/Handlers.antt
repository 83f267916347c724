-- ===== src/Tests/Handlers.antt =====
-- The file of five bytes, read and written through the handler for random access.
use privmx_endpoint.Common.{
  ok, err, server_failure, pos_out_of_bounds, length, replicate, Bytes, ◌+◌, ◌≤◌, ◌<◌, ◌≡◌, refl,
  ◌⊎◌, true, false, none, some, List, [], ◌∷◌, ◌++◌, arith,
}
use privmx_endpoint.Store.Crypto.{plain_crypto, plain_crypto-IsSound}
use privmx_endpoint.Store.ChunkDataProvider.{Provider}
use privmx_endpoint.Store.UpdateChanges.{
  UpdateChunkData, create_list_of_update_changes, squash_into, take_batch, batches,
}
use privmx_endpoint.Store.HmacList.{HmacList}
use privmx_endpoint.Store.HmacList
use privmx_endpoint.Store.RandomWrite.{
  FileHandler, FileMeta, Remote, filled, write_chunks, with_provider, set_hashes, send_requests,
  update_on_server,
}
use privmx_endpoint.Store.RandomWrite.Patching.{IsTight, IsHeld}
use privmx_endpoint.Store.RandomWrite.Rounds.{Spans}
use privmx_endpoint.Store.RandomWrite.Chunks.{AreMade, with_text, write_chunks-AreMade}
use privmx_endpoint.Store.FileHandler.{write, apply_changes}
use privmx_endpoint.Store.FileHandler.Filling.{HasRoom, first_chunk, last_chunk, with_written}
use privmx_endpoint.Store.FileHandler.Writing.{IsFinished, write-with_written}
use privmx_endpoint.Store.FileHandler.Reading.{IsOpen}
use privmx_endpoint.Store.FileHandler.Failing.{known, write-known, apply_changes-rolls_back}
use privmx_endpoint.Store.FileHandler.Seeking.{FileHandlerImpl, read, seekg}
use privmx_endpoint.Store.FileHandler.Seeking.Positions.{read-read_after, seekg-read}
use privmx_endpoint.Tests.Files.{
  ivs, file, server, files, stored_length, file-IsStored, files-IsReady,
}

abbrev pub remote : Remote
remote = record {
  server = server;
  store_file_write = λ accepted request. ok tt;
  encrypt_meta = λ m key. ok (1 ∷ []);
  to_base64 = λ b. b;
}

abbrev pub meta : FileMeta
meta = record {
  public_meta = [];
  private_meta = [];
  internal_file_meta = record {
    version = 1;
    size = 5;
    cipher_type = 1;
    chunk_size = 2;
    key = [];
    hmac = [];
    random_write = some true;
  };
}

abbrev pub handler : FileHandler
handler = record {
  files = files;
  plain_file_size = 5;
  encrypted_file_size = 192;
  version = 7;
  file_id = 70 ∷ [];
  file_meta = meta;
  file_enc_key = record { id = 1 ∷ []; key = 2 ∷ []; data_structure_version = 2 };
  plain_chunk_size = 2;
  encrypted_chunk_size = 64;
  accepted = [];
}

file-IsTight : IsTight file
file-IsTight = record {
  begins = λ i h. omega (arith, h, stored_length);
  ends = λ i h. omega (arith, h, stored_length);
}

-- Chunks up to the fifth are asked for.
handler-IsHeld : IsHeld server file 320 handler
handler-IsHeld = record {
  same_encryptor = refl;
  same_hashes = refl;
  same_version = refl;
  same_size = refl;
  same_width = refl;
  same_length = refl;
  serves = λ from to. refl;
  sized = record {
    per_server_chunk = 2;
    server_size = refl;
    some_chunks = omega arith;
    some_bytes = omega arith;
    in_words = omega arith;
    in_numbers = omega arith;
  };
  coherent = λ e. tt;
}

-- Three bytes from the fifth on, which lie in the third and in a new chunk.
text_Spans : Spans file 320 4 2 3 (7 ∷ 8 ∷ 9 ∷ [])
text_Spans = record {
  some_width = omega arith;
  in_words = omega arith;
  inside = omega arith;
  begins = refl;
  ordered = omega arith;
  reaches = omega arith;
  covers = omega arith;
  few = omega arith;
  asked = omega arith;
}

write_chunks-AreMade_example :
    (p : Provider) × (us : List UpdateChunkData) × (write_chunks plain_crypto server ivs 4 2 3
        (7 ∷ 8 ∷ 9 ∷ [])
        false
        2
        2
        0
        handler
      ≡ (with_provider handler p, ok us))
    × AreMade plain_crypto file (with_text file 4 (7 ∷ 8 ∷ 9 ∷ []) false) ivs 3 false 2 us
    × IsHeld server file 320 (with_provider handler p)
write_chunks-AreMade_example =
    write_chunks-AreMade plain_crypto server file file-IsStored file-IsTight ivs 320 4 2 3
      (7 ∷ 8 ∷ 9 ∷ []) false text_Spans handler handler-IsHeld

handler-IsOpen : IsOpen remote file handler
handler-IsOpen = record { ready = files-IsReady; plain_size = refl }

abbrev opened : FileHandlerImpl
opened = record { file = handler; read_pos = 1; write_pos = 0 }

read-read_after_example :
    (h' : FileHandlerImpl) × (h'' : FileHandlerImpl) × (a : Bytes) × (b : Bytes) × (read
        plain_crypto remote 2 opened
      ≡ (h', ok a))
    × (read plain_crypto remote 9 h' ≡ (h'', ok b))
    × (a ++ b ≡ 2 ∷ 3 ∷ 4 ∷ 5 ∷ [])
    × (h''.read_pos ≡ 1 + length (a ++ b))
read-read_after_example =
    read-read_after plain_crypto remote file file-IsStored (omega arith) (omega arith) 2 9 opened
      handler-IsOpen (omega arith)

seekg-read_example :
    ((3 ≤ 5)
      × (h' : FileHandlerImpl) × ((seekg 3 opened).1 ≡ ok tt)
      × (read plain_crypto remote 9 (seekg 3 opened).0 ≡ (h', ok (4 ∷ 5 ∷ [])))
      × (h'.read_pos ≡ 5))
    ⊎ ((5 < 3) × (seekg 3 opened ≡ (opened, err pos_out_of_bounds)))
seekg-read_example =
    seekg-read plain_crypto remote file file-IsStored (omega arith) (omega arith) 3 9 opened
      handler-IsOpen (omega arith)

abbrev refusing : Remote
refusing = record remote { store_file_write = λ accepted request. err server_failure }

write-known_example :
    ((write plain_crypto refusing ivs handler 1 (9 ∷ []) false).1 ≡ ok tt)
    ⊎ (known (write plain_crypto refusing ivs handler 1 (9 ∷ []) false).0 ≡ known handler)
write-known_example = write-known plain_crypto refusing ivs handler 1 (9 ∷ []) false

abbrev one_hash : FileHandler
one_hash = record handler {
  files = record files {
    hash_list = record { top_hash_key = []; top_hash = none; size = 1; hashes = replicate 32 9 };
  };
}

abbrev changes : List UpdateChunkData
changes =
    record {
      chunk = record { bytes = replicate 64 1; hmac = replicate 32 1 };
      chunk_index = 0;
      plainfile_size_change = 0;
      encryptedfile_size_change = 0;
    }
    ∷ []

changes-set : (set_hashes one_hash.files.hash_list changes false).1 ≡ ok tt
unfolding set_hashes HmacList.set
changes-set = refl

changes-refused :
    (update_on_server refusing one_hash (create_list_of_update_changes 64 changes) (1 ∷ []) false).1
    ≡ err server_failure
unfolding update_on_server create_list_of_update_changes batches squash_into take_batch
    send_requests
changes-refused = refl

apply_changes-rolls_back_example :
    ((apply_changes plain_crypto refusing one_hash changes false).1 ≡ err server_failure)
    × ((apply_changes plain_crypto refusing one_hash changes false).0.files.hash_list.hashes
        ≡ replicate 32 9)
    × ((apply_changes plain_crypto refusing one_hash changes false).0.files.hash_list.size ≡ 1)
apply_changes-rolls_back_example =
    apply_changes-rolls_back plain_crypto refusing one_hash changes false (1 ∷ []) server_failure
      refl changes-set refl changes-refused

-- The same text, one byte behind the end of the file.
handler-HasRoom : HasRoom file 320 handler 6 (7 ∷ 8 ∷ 9 ∷ [])
unfolding filled
handler-HasRoom = record {
  some_width = omega arith;
  in_words = omega arith;
  old_fits = omega arith;
  new_fits = omega arith;
  few = omega arith;
  asked = omega arith;
}

write-with_written_example :
    (us : List UpdateChunkData) × AreMade plain_crypto file
      (with_written file handler 6 (7 ∷ 8 ∷ 9 ∷ []) false)
      ivs
      (last_chunk handler 6 (7 ∷ 8 ∷ 9 ∷ []))
      false
      (first_chunk handler 6 (7 ∷ 8 ∷ 9 ∷ []))
      us
    × IsFinished handler us false 9 (write plain_crypto remote ivs handler 6 (7 ∷ 8 ∷ 9 ∷ []) false)
unfolding filled
write-with_written_example =
    write-with_written plain_crypto plain_crypto-IsSound remote (λ before q. refl) (λ m key. 1 ∷ [])
      (λ m key. refl) file file-IsStored file-IsTight ivs 320 handler 6 (7 ∷ 8 ∷ 9 ∷ []) false
      handler-IsHeld handler-HasRoom
