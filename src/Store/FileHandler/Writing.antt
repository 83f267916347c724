-- ===== src/Store/FileHandler/Writing.antt =====
-- A whole write, where the server accepts its requests.
use native.Mathlib.Nat.{mul-div-le}
use privmx_endpoint.Common.{
  Result, ok, length, Bytes, ℕ, zero, suc, ◌+◌, ◌-◌, ◌*◌, ◌/◌, ◌≤◌, ◌<◌, ◌≡◌, refl, sym, ap, Bool,
  List, [], ◌∷◌, ◌++◌, arith,
}
use privmx_endpoint.Store.Crypto.{Crypto, IsSound}
use privmx_endpoint.Store.ChunkEncryptor.{encrypt}
use privmx_endpoint.Store.ChunkDataProvider.{Provider}
use privmx_endpoint.Store.ChunkReader.{file_pos_to_file_chunk_index}
use privmx_endpoint.Store.ChunkReader.Refinement.{StoredFile, IsStored}
use privmx_endpoint.Store.UpdateChanges.{
  UpdateChunkData, WriteRequest, create_list_of_update_changes,
}
use privmx_endpoint.Store.UpdateChanges.Requests.{all_operations}
use privmx_endpoint.Store.RandomWrite.{
  FileHandler, FileMeta, EncKey, Remote, write_chunks, with_provider, set_hashes, filled,
  new_plain_size,
}
use privmx_endpoint.Store.RandomWrite.Patching.{IsTight, IsHeld}
use privmx_endpoint.Store.RandomWrite.Chunks.{AreMade, write_chunks-AreMade}
use privmx_endpoint.Store.RandomWrite.Sizes.{new_plain_size-length}
use privmx_endpoint.Store.FileHandler.{stop_index, finish, submit, apply_changes, write}
use privmx_endpoint.Store.FileHandler.Failing.{new_meta}
use privmx_endpoint.Store.FileHandler.Filling.{
  HasRoom, first_chunk, last_chunk, with_written, stop_index-last_chunk, chunks-Spans,
}
use privmx_endpoint.Store.FileHandler.Accepting.{
  AreTagged, set_hashes-ok, operations_of_all, update_on_server-all_operations,
}

-- The call has returned and the handler has the next version, the size that the changes make and the
-- operations of all changes among its accepted requests.
abbrev pub IsFinished :
    FileHandler → List UpdateChunkData → Bool → ℕ → FileHandler × Result (Unit {0}) → Type 0
IsFinished h us truncate size done =
    (done.1 ≡ ok tt)
    × (done.0.version ≡ h.version + 1)
    × (done.0.plain_file_size ≡ size)
    × (qs : List WriteRequest) × (done.0.accepted ≡ h.accepted ++ qs)
    × (operations_of_all qs
        ≡ all_operations (create_list_of_update_changes h.encrypted_chunk_size us) truncate)

module _ (c : Crypto) (r : Remote)
    (accepts : (before : List WriteRequest) (q : WriteRequest)
      → r.store_file_write before q ≡ ok tt)
    (seal : FileMeta → EncKey → Bytes)
    (seals : (m : FileMeta) (key : EncKey) → r.encrypt_meta m key ≡ ok (seal m key)) where
  apply_changes-IsFinished :
      (h : FileHandler) (us : List UpdateChunkData) (truncate : Bool)
      → (set_hashes h.files.hash_list us truncate).1 ≡ ok tt
      → IsFinished h us truncate
          (new_plain_size h.plain_file_size us)
          (apply_changes c r h us truncate)
  unfolding apply_changes submit finish
  apply_changes-IsFinished h us truncate hashed =
      let m = new_meta c r h us truncate in
      let (qs, sent, flat) =
        update_on_server-all_operations r h (seal m h.file_enc_key) accepts
          (create_list_of_update_changes h.encrypted_chunk_size us) truncate in
      (
        rw (apply_changes, hashed, seals m h.file_enc_key, submit, sent) refl,
        rw (apply_changes, hashed, seals m h.file_enc_key, submit, sent) refl,
        rw (apply_changes, hashed, seals m h.file_enc_key, submit, sent) refl,
        qs,
        rw (apply_changes, hashed, seals m h.file_enc_key, submit, sent) (ap (λ t. t.0) sent),
        flat,
      )

AreMade-AreTagged :
    (c : Crypto) (sound : IsSound c) (f f' : StoredFile) (ivs : ℕ → Bytes) (stop : ℕ)
    (truncate : Bool) (i : ℕ) (us : List UpdateChunkData)
    → AreMade c f f' ivs stop truncate i us
    → AreTagged i us
unfolding encrypt
AreMade-AreTagged c sound f f' ivs stop truncate i [] made = tt
AreMade-AreTagged c sound f f' ivs stop truncate i (u ∷ us) made = (
  made.0.index,
  rw made.0.chunk (sound.hmac_length _ _),
  AreMade-AreTagged c sound f f' ivs stop truncate (i + 1) us made.1,
)

-- The first chunk is at most the one behind the last checksum.
listed :
    (c : Crypto) (f : StoredFile) (stored : IsStored c f) (i at : ℕ)
    → 0 < f.encryptor.chunk_size
    → at ≤ length f.plain
    → i ≡ at / f.encryptor.chunk_size
    → i ≤ f.hash_list.size
listed c f stored zero at w h e = omega arith
listed c f stored (suc i) at w h e = omega (
  arith,
  stored.hashed i (
      omega (
        arith,
        w,
        h,
        mul-div-le at f.encryptor.chunk_size,
        ap (λ k. f.encryptor.chunk_size * k) e,
      )),
)

module _ (c : Crypto) (sound : IsSound c) (r : Remote)
    (accepts : (before : List WriteRequest) (q : WriteRequest)
      → r.store_file_write before q ≡ ok tt)
    (seal : FileMeta → EncKey → Bytes)
    (seals : (m : FileMeta) (key : EncKey) → r.encrypt_meta m key ≡ ok (seal m key))
    (f : StoredFile) (stored : IsStored c f) (tight : IsTight f) (ivs : ℕ → Bytes) (n : ℕ) where
  write-apply_changes :
      (h : FileHandler) (offset : ℕ) (text : Bytes) (truncate : Bool) (p : Provider)
      (us : List UpdateChunkData)
      → stop_index h (filled h offset text).0 (filled h offset text).1 text
        ≡ last_chunk h offset text
      → write_chunks c r.server ivs
          (filled h offset text).0
          (first_chunk h offset text)
          (last_chunk h offset text)
          (filled h offset text).1
          truncate
          (last_chunk h offset text + 1 - first_chunk h offset text)
          (first_chunk h offset text)
          0
          h
        ≡ (with_provider h p, ok us)
      → write c r ivs h offset text truncate ≡ apply_changes c r (with_provider h p) us truncate
  unfolding write file_pos_to_file_chunk_index
  write-apply_changes h offset text truncate p us e e' = rw (write, e, e', e, e') refl

  -- Where the server accepts every request and the meta data is encrypted, a write through a
  -- handler in step with a stored file returns: there are changed chunks from the first to the
  -- last that the text meets, each the encryption of that chunk of the plaintext with the text
  -- written in (behind zeros where it begins behind the end, and cut behind it where truncate is
  -- set), the handler has the next version and the length of that plaintext as its size, and the
  -- requests that the server has accepted of it carry, in order, the operations of the joined
  -- changes of those chunks. The cryptographic service is sound, the chunk size is not 0, and the
  -- lengths, places and numbers of the chunks fit the machine words.
  pub write-with_written :
      (h : FileHandler) (offset : ℕ) (text : Bytes) (truncate : Bool)
      → IsHeld r.server f n h
      → HasRoom f n h offset text
      → (us : List UpdateChunkData) × AreMade c f
          (with_written f h offset text truncate)
          ivs
          (last_chunk h offset text)
          truncate
          (first_chunk h offset text)
          us
        × IsFinished h us truncate
            (length (with_written f h offset text truncate).plain)
            (write c r ivs h offset text truncate)
  write-with_written h offset text truncate o room =
      let spans = chunks-Spans r f n h o offset text room in
      let (p, us, e, made, o') =
        write_chunks-AreMade c r.server f stored tight ivs n (filled h offset text).0
          (first_chunk h offset text) (last_chunk h offset text) (filled h offset text).1 truncate
          spans h o in
      (
        us,
        made,
        rw
            (
              write-apply_changes h offset text truncate p us
                  (stop_index-last_chunk r f n h o offset text room) e,
              sym (
                  new_plain_size-length c f ivs n (filled h offset text).0
                    (first_chunk h offset text) (last_chunk h offset text) (filled h offset text).1
                    truncate spans room.old_fits room.new_fits us made),
              sym o.same_length,
            )
            (apply_changes-IsFinished c r accepts seal seals (with_provider h p) us truncate (
              rw o.same_hashes (
                set_hashes-ok (first_chunk h offset text) f.hash_list us truncate
                  (AreMade-AreTagged c sound f (with_written f h offset text truncate) ivs
                    (last_chunk h offset text) truncate (first_chunk h offset text) us made)
                  (listed c f stored (first_chunk h offset text) (filled h offset text).0
                    room.some_width spans.inside spans.begins)))),
      )
