-- ===== src/Store/FileHandler.antt =====
-- endpoint/store/src/FileHandler.cpp, class FileHandler: a file that is read and written at any place.
pub mod Seeking
pub mod Reading
pub mod Failing
pub mod Accepting
pub mod Filling
pub mod Writing
use privmx_endpoint.Common.{
  ltb, leb, ◌==◌, if◌then◌else◌, u64, sub64, Error, Result, ok, err, ◌>>=◌, length, Bytes, substr,
  ℕ, zero, suc, ◌+◌, ◌-◌, Bool, none, List, [], ◌++◌,
}
use privmx_endpoint.Store.Crypto.{Crypto}
use privmx_endpoint.Store.ChunkEncryptor.{get_plain_chunk_size, get_encrypted_chunk_size}
use privmx_endpoint.Store.HmacList.{HmacList, get_top_hash, get_all, set_all}
use privmx_endpoint.Store.HmacList
use privmx_endpoint.Store.ChunkDataProvider.{get_current_checksums_from_bridge}
use privmx_endpoint.Store.ChunkDataProvider
use privmx_endpoint.Store.ChunkReader.{
  Files, DecryptionParams, get_decrypted_chunk, file_pos_to_file_chunk_index,
  file_pos_to_pos_in_file_chunk,
}
use privmx_endpoint.Store.ChunkReader
use privmx_endpoint.Store.UpdateChanges.{UpdateChunkData, create_list_of_update_changes}
use privmx_endpoint.Store.RandomWrite.{
  Remote, FileHandler, FileMeta, EncKey, filled, write_chunks, set_hashes, new_plain_size,
  new_encrypted_size, update_on_server, new_file_meta, update_files,
}

-- The constructor; of the file's identifiers only its own is read.
unfoldable pub create : Files → ℕ → ℕ → ℕ → Bytes → FileMeta → EncKey → FileHandler
create files plain_size encrypted_size version file_id file_meta enc_key = record {
  files = files;
  plain_file_size = plain_size;
  encrypted_file_size = encrypted_size;
  version = version;
  file_id = file_id;
  file_meta = file_meta;
  file_enc_key = enc_key;
  plain_chunk_size = get_plain_chunk_size files.encryptor;
  encrypted_chunk_size = get_encrypted_chunk_size files.encryptor;
  accepted = [];
}

unfoldable pub get_file_size : FileHandler → ℕ
get_file_size h = h.plain_file_size

abbrev pub with_hashes : FileHandler → HmacList → FileHandler
with_hashes h l = record h { files = record h.files { hash_list = l } }

-- The server has refused the write: the checksums are set back.
unfoldable pub roll_back : FileHandler → HmacList → Bytes → Error → FileHandler × Result (Unit {0})
roll_back h l old thrown = elim (set_all l old) [
  | err e ↦ (with_hashes h l, err e)
  | ok l' ↦ (with_hashes h l', err thrown)
]

-- The server has taken the write.
unfoldable pub finish :
    FileHandler → HmacList → FileMeta → List UpdateChunkData → Bool → FileHandler
finish h l file_meta us truncate =
    let size = new_encrypted_size h.encrypted_file_size us in
    record h {
      files = update_files (record h.files { hash_list = l }) (h.version + 1) size truncate us;
      plain_file_size = new_plain_size h.plain_file_size us;
      encrypted_file_size = size;
      version = h.version + 1;
      file_meta = file_meta;
    }

-- The chunk in which a write ends; one that begins there where nothing is given to write.
unfoldable pub stop_index : FileHandler → ℕ → Bytes → Bytes → ℕ
stop_index h from to_send text =
    file_pos_to_file_chunk_index h.files.encryptor
      (sub64 (u64 (from + length to_send)) (if length text == 0 then 0 else 1))

module _ (c : Crypto) (r : Remote) where
  -- The requests of the write, and what follows their answers. The exceptions of the model are those
  -- of the two classes that are caught here.
  unfoldable pub submit :
      FileHandler
      → Bytes
      → HmacList
      → FileMeta
      → Bytes
      → List UpdateChunkData
      → Bool
      → FileHandler × Result (Unit {0})
  unfolding finish
  submit h old l file_meta updated_meta us truncate =
      let sent =
        update_on_server r h (create_list_of_update_changes h.encrypted_chunk_size us) updated_meta
          truncate in
      let h' = record h { accepted = sent.0 } in
      elim sent.1 [
        | err e ↦ roll_back h' l old e
        | ok done ↦ (finish h' l file_meta us truncate, ok tt)
      ]

  -- The rest of a write, with the changed chunks.
  unfoldable pub apply_changes :
      FileHandler → List UpdateChunkData → Bool → FileHandler × Result (Unit {0})
  apply_changes h us truncate =
      let hashed = set_hashes h.files.hash_list us truncate in
      let (l, top_hash) = get_top_hash c hashed.0 in
      let file_meta = new_file_meta r h.file_meta top_hash (new_plain_size h.plain_file_size us) in
      elim hashed.1 [
        | err e ↦ (with_hashes h hashed.0, err e)
        | ok done ↦ elim (r.encrypt_meta file_meta h.file_enc_key) [
          | err e ↦ (with_hashes h l, err e)
          | ok updated_meta ↦
              submit h (get_all h.files.hash_list) l file_meta updated_meta us truncate
        ]
      ]

  unfoldable pub write :
      (ℕ → Bytes) → FileHandler → ℕ → Bytes → Bool → FileHandler × Result (Unit {0})
  write ivs h offset text truncate =
      let (from, to_send) = filled h offset text in
      let start = file_pos_to_file_chunk_index h.files.encryptor from in
      let stop = stop_index h from to_send text in
      let made =
        write_chunks c r.server ivs from start stop to_send truncate (stop + 1 - start) start 0 h in
      elim made.1 [ err e ↦ (made.0, err e) | ok us ↦ apply_changes made.0 us truncate ]

  -- The loop over the chunks, by the number of rounds left, with what has been read so far.
  unfoldable pub read_chunks : ℕ → ℕ → Bytes → Files → Files × Result Bytes
  read_chunks zero i read s = (s, ok read)
  read_chunks (suc rounds) i read s =
      let got = get_decrypted_chunk c r.server s i in
      elim got.1 [
        | err e ↦ (got.0, err e)
        | ok chunk ↦ read_chunks rounds (i + 1) (read ++ chunk) got.0
      ]

  unfoldable pub read : FileHandler → ℕ → ℕ → FileHandler × Result Bytes
  read h offset n =
      let size =
        if ltb h.plain_file_size (u64 (offset + n)) then sub64 h.plain_file_size offset else n in
      let start = file_pos_to_file_chunk_index h.files.encryptor offset in
      let stop = file_pos_to_file_chunk_index h.files.encryptor (sub64 (u64 (offset + size)) 1) in
      let got = read_chunks (stop + 1 - start) start [] h.files in
      if leb h.plain_file_size offset then (h, ok []) else if size == 0 then (h, ok []) else (
        record h { files = got.0 },
        got.1 >>= λ read. substr read (file_pos_to_pos_in_file_chunk h.files.encryptor offset) size,
      )

  -- The provider is given the version and the size from before; the chunk encryptor stays.
  unfoldable pub sync :
      FileMeta → DecryptionParams → EncKey → FileHandler → FileHandler × Result (Unit {0})
  sync file_meta params key h =
      elim (get_current_checksums_from_bridge r.server h.files.provider
        >>= HmacList.sync c h.files.hash_list params.key params.hmac) [
          | err e ↦ (h, err e)
          | ok hashes ↦ (
            record h {
              files = record h.files {
                hash_list = hashes;
                provider =
                    ChunkDataProvider.sync h.files.provider h.version h.encrypted_file_size none
                      none;
                reader = ChunkReader.sync h.files.reader params;
              };
              file_meta = file_meta;
              version = params.version;
              plain_file_size = params.original_size;
              encrypted_file_size = params.size_on_server;
              file_enc_key = key;
            },
            ok tt,
          )
        ]
