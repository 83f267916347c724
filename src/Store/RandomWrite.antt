-- ===== src/Store/RandomWrite.antt =====
-- endpoint/store/src/FileHandler.cpp, the parts of write: the changed chunks of a file, their checksums and
-- the requests that carry them. The objects that the handler shares through pointers stand in `Files`; the
-- requests that the server has accepted are kept in a list of their own, oldest first.
pub mod Patching
pub mod Pieces
pub mod Rounds
pub mod Chunks
pub mod Sizes
use privmx_endpoint.Common.{
  ltb, ◌==◌, if◌then◌else◌, u64, sub64, Result, ok, err, ◌>>=◌, file_random_write_internal, length,
  take, drop, replicate, Bytes, substr, ℕ, zero, suc, ◌+◌, ◌-◌, ◌*◌, ◌%◌, max, Bool, false, not,
  ◌&&◌, Option, none, some, List, [], ◌∷◌, ◌++◌,
}
use privmx_endpoint.Store.Crypto.{Crypto}
use privmx_endpoint.Store.ChunkEncryptor.{Chunk, ChunkEncryptor, encrypt, decrypt}
use privmx_endpoint.Store.HmacList.{HmacList, get_hash, get_top_hash, get_all, set_all}
use privmx_endpoint.Store.HmacList
use privmx_endpoint.Store.ChunkDataProvider.{
  Server, Provider, get_chunk, get_current_checksums_from_bridge,
}
use privmx_endpoint.Store.ChunkDataProvider
use privmx_endpoint.Store.ChunkReader.{
  Files, DecryptionParams, get_decrypted_chunk, file_pos_to_file_chunk_index,
  file_pos_to_pos_in_file_chunk,
}
use privmx_endpoint.Store.ChunkReader
use privmx_endpoint.Store.UpdateChanges.{
  UpdateChunkData, UpdateChanges, Operation, WriteRequest, create_list_of_update_changes, batches,
}

pub record InternalStoreFileMeta : Type 0 where
  pub version : ℕ
  pub size : ℕ
  pub cipher_type : ℕ
  pub chunk_size : ℕ
  pub key : Bytes
  pub hmac : Bytes
  pub random_write : Option Bool

pub record FileMeta : Type 0 where
  pub public_meta : Bytes
  pub private_meta : Bytes
  pub internal_file_meta : InternalStoreFileMeta

pub record EncKey : Type 0 where
  pub id : Bytes
  pub key : Bytes
  pub data_structure_version : ℕ

-- What the handler calls: the server's `storeFileWrite`, which may answer by what it has accepted, the
-- encryptor of meta data and the encoding of the top checksum.
pub record Remote : Type 0 where
  pub server : Server
  pub store_file_write : List WriteRequest → WriteRequest → Result (Unit {0})
  pub encrypt_meta : FileMeta → EncKey → Result Bytes
  pub to_base64 : Bytes → Bytes

pub record FileHandler : Type 0 where
  pub files : Files
  pub plain_file_size : ℕ
  pub encrypted_file_size : ℕ
  pub version : ℕ
  pub file_id : Bytes
  pub file_meta : FileMeta
  pub file_enc_key : EncKey
  pub plain_chunk_size : ℕ
  pub encrypted_chunk_size : ℕ
  pub accepted : List WriteRequest

-- A piece written over the old plaintext of a chunk, and zeros in a gap between them.
unfoldable pub patch_chunk : Bytes → ℕ → Bytes → Bool → Bytes
patch_chunk prev chunk_offset new truncate =
    (if ltb 0 chunk_offset
      then take chunk_offset prev
        ++ (if ltb (length prev) chunk_offset then replicate (chunk_offset - length prev) 0 else [])
      else [])
    ++ (new
        ++ (if ltb (chunk_offset + length new) (length prev) && not truncate
            then drop (chunk_offset + length new) prev
            else []))

-- The change of a size, as the word that is added to it. The `int64_t` of the code agrees with it
-- below 2 ^ 63.
unfoldable pub size_change : ℕ → ℕ → ℕ → ℕ → ℕ → Bool → ℕ
size_change width index new prev file_size truncate =
    if truncate
    then sub64 (u64 (index * width + new)) (max file_size (u64 (index * width)))
    else sub64 new prev

module _ (c : Crypto) where
  -- The old plaintext of a chunk; an empty chunk is behind the end of the file.
  unfoldable pub prev_chunk : Files → ℕ → Bytes → Result Bytes
  prev_chunk s index chunk =
      if length chunk == 0
      then ok []
      else get_hash s.hash_list index >>= λ hash.
          decrypt c s.encryptor index (record { bytes = chunk; hmac = hash })

  -- The last part: the new chunk, encrypted under the vector `iv`, and the changes of the sizes.
  unfoldable pub new_update_chunk :
      FileHandler → Bytes → ℕ → ℕ → Bytes → Bool → Bytes → Bytes → UpdateChunkData
  new_update_chunk h iv index chunk_offset new truncate prev_encrypted prev =
      let plain = patch_chunk prev chunk_offset new truncate in
      let chunk = encrypt c h.files.encryptor index iv plain in
      record {
        chunk = chunk;
        chunk_index = index;
        plainfile_size_change =
            size_change h.plain_chunk_size index (length plain) (length prev) h.plain_file_size
              truncate;
        encryptedfile_size_change =
            size_change h.encrypted_chunk_size index (length chunk.bytes) (length prev_encrypted)
              h.encrypted_file_size truncate;
      }

  -- The new chunk and the provider, which may have asked the server for the old one. `iv` is what the
  -- generator of random bytes returns in the call.
  unfoldable pub create_update_chunk :
      Server → FileHandler → Bytes → ℕ → ℕ → Bytes → Bool → Provider × Result UpdateChunkData
  create_update_chunk server h iv index chunk_offset new truncate =
      let got = get_chunk server h.files.provider index h.version in
      if ltb h.plain_chunk_size (u64 (chunk_offset + length new))
      then (h.files.provider, err file_random_write_internal)
      else (
        got.0,
        got.1 >>= λ prev_encrypted. prev_chunk h.files index prev_encrypted >>= λ prev.
            ok (new_update_chunk h iv index chunk_offset new truncate prev_encrypted prev),
      )

abbrev pub with_provider : FileHandler → Provider → FileHandler
with_provider h p = record h { files = record h.files { provider = p } }

-- The text to write and its place: what lies between the end of the file and the place is zeros.
unfoldable pub filled : FileHandler → ℕ → Bytes → ℕ × Bytes
filled h offset text =
    if ltb h.plain_file_size offset
    then (h.plain_file_size, replicate (offset - h.plain_file_size) 0 ++ text)
    else (offset, text)

module _ (c : Crypto) (server : Server) (ivs : ℕ → Bytes) (offset start stop : ℕ) (to_send : Bytes)
    (truncate : Bool) where
  -- The loop over the chunks, by the number of rounds left, with the length that is done.
  unfoldable pub write_chunks :
      ℕ → ℕ → ℕ → FileHandler → FileHandler × Result (List UpdateChunkData)
  write_chunks zero i data_send h = (h, ok [])
  write_chunks (suc rounds) i data_send h =
      let chunk_offset = if i == start then offset % h.files.encryptor.chunk_size else 0 in
      let room =
        if i == start
        then h.plain_chunk_size - offset % h.plain_chunk_size
        else h.plain_chunk_size in
      elim (substr to_send data_send room) [
        | err e ↦ (h, err e)
        | ok chunk_data ↦
            let made =
              create_update_chunk c server h (ivs i) i chunk_offset chunk_data
                (if i == stop then truncate else false) in
            elim made.1 [
              | err e ↦ (with_provider h made.0, err e)
              | ok u ↦
                  let rest =
                    write_chunks rounds (i + 1) (data_send + length chunk_data)
                      (with_provider h made.0) in
                  (rest.0, rest.1 >>= λ us. ok (u ∷ us))
            ]
      ]

-- The loop over the checksums; the list that it leaves also where it throws.
unfoldable pub set_hashes : HmacList → List UpdateChunkData → Bool → HmacList × Result (Unit {0})
set_hashes l [] truncate = (l, ok tt)
set_hashes l (u ∷ us) truncate =
    elim (HmacList.set l u.chunk_index u.chunk.hmac (elim us [ [] ↦ truncate | x ∷ xs ↦ false ])) [
      | err e ↦ (l, err e)
      | ok l' ↦ set_hashes l' us truncate
    ]

unfoldable pub new_plain_size : ℕ → List UpdateChunkData → ℕ
new_plain_size size [] = size
new_plain_size size (u ∷ us) = new_plain_size (u64 (size + u.plainfile_size_change)) us

unfoldable pub new_encrypted_size : ℕ → List UpdateChunkData → ℕ
new_encrypted_size size [] = size
new_encrypted_size size (u ∷ us) = new_encrypted_size (u64 (size + u.encryptedfile_size_change)) us

unfoldable pub write_request : FileHandler → Bytes → List Operation → WriteRequest
write_request h updated_meta operations = record {
  file_id = h.file_id;
  operations = operations;
  meta = updated_meta;
  key_id = h.file_enc_key.id;
  version = h.version;
  force = false;
}

-- The requests, one after another, with those that the server has accepted.
unfoldable pub send_requests :
    Remote
    → FileHandler
    → Bytes
    → List (List Operation)
    → List WriteRequest
    → List WriteRequest × Result (Unit {0})
unfolding write_request
send_requests r h updated_meta [] accepted = (accepted, ok tt)
send_requests r h updated_meta (b ∷ bs) accepted =
    let request = write_request h updated_meta b in
    elim (r.store_file_write accepted request) [
      | err e ↦ (accepted, err e)
      | ok done ↦ send_requests r h updated_meta bs (accepted ++ (request ∷ []))
    ]

-- There are at most as many requests as changes.
unfoldable pub update_on_server :
    Remote → FileHandler → List UpdateChanges → Bytes → Bool → List WriteRequest × Result (Unit {0})
update_on_server r h changes updated_meta truncate =
    elim (batches (length changes) changes truncate) [
      | none ↦ (h.accepted, ok tt)
      | some bs ↦ send_requests r h updated_meta bs h.accepted
    ]

unfoldable pub new_file_meta : Remote → FileMeta → Bytes → ℕ → FileMeta
new_file_meta r m top_hash size = record m {
  internal_file_meta = record m.internal_file_meta { hmac = r.to_base64 top_hash; size = size };
}

-- After the server has taken the write: provider and reader follow, chunk by chunk.
unfoldable pub update_files : Files → ℕ → ℕ → Bool → List UpdateChunkData → Files
update_files s version size truncate [] = s
update_files s version size truncate (u ∷ us) =
    update_files
      (record s {
        provider =
            ChunkDataProvider.update s.provider version u.chunk_index u.chunk.bytes size truncate;
        reader = ChunkReader.update s.reader version u.chunk_index;
      })
      version size truncate us
