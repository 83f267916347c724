-- ===== src/Store/FileHandler/Failing.antt =====
-- A write that throws leaves what the handler knows of the file as it was.
use privmx_endpoint.Common.{
  ◌==◌, if◌then◌else◌, ==_iff, Error, Result, ok, err, Result-cases, length, Bytes, substr, ℕ, zero,
  suc, ◌+◌, ◌-◌, ◌*◌, ◌/◌, ◌%◌, ◌≡◌, refl, ◌∙◌, ◌⊎◌, inl, inr, Bool, true, false, List, arith,
}
use privmx_endpoint.Store.Crypto.{Crypto}
use privmx_endpoint.Store.HmacList.{HmacList, set_all, get_top_hash, get_all, is_whole}
use privmx_endpoint.Store.ChunkDataProvider.{Server}
use privmx_endpoint.Store.ChunkReader.{file_pos_to_file_chunk_index}
use privmx_endpoint.Store.UpdateChanges.{UpdateChunkData, create_list_of_update_changes}
use privmx_endpoint.Store.RandomWrite.{
  FileHandler, FileMeta, EncKey, Remote, create_update_chunk, write_chunks, with_provider,
  set_hashes, filled, update_on_server, new_file_meta, new_plain_size,
}
use privmx_endpoint.Store.FileHandler.{stop_index, roll_back, submit, apply_changes, write}

-- What the handler knows of the file, but for the objects that it shares with others.
pub record Known : Type 0 where
  pub plain_file_size : ℕ
  pub encrypted_file_size : ℕ
  pub version : ℕ
  pub file_meta : FileMeta
  pub file_enc_key : EncKey

abbrev pub known : FileHandler → Known
known h = record {
  plain_file_size = h.plain_file_size;
  encrypted_file_size = h.encrypted_file_size;
  version = h.version;
  file_meta = h.file_meta;
  file_enc_key = h.file_enc_key;
}

-- The call returns, or what is known of the file is as it was.
abbrev Keeps : FileHandler → FileHandler × Result (Unit {0}) → Type 0
Keeps h done = (done.1 ≡ ok tt) ⊎ (known done.0 ≡ known h)

known-roll_back :
    (h : FileHandler) (l : HmacList) (old : Bytes) (thrown : Error)
    → known (roll_back h l old thrown).0 ≡ known h
unfolding roll_back
known-roll_back h l old thrown = elim (Result-cases (set_all l old)) [
  | inl s ↦ rw (roll_back, s.1) refl
  | inr s ↦ rw (roll_back, s.1) refl
]

module _ (c : Crypto) (r : Remote) where
  submit-Keeps :
      (h : FileHandler) (old : Bytes) (l : HmacList) (m : FileMeta) (updated : Bytes)
      (us : List UpdateChunkData) (truncate : Bool)
      → Keeps h (submit c r h old l m updated us truncate)
  unfolding submit
  submit-Keeps h old l m updated us truncate =
      let sent =
        update_on_server r h (create_list_of_update_changes h.encrypted_chunk_size us) updated
          truncate in
      elim (Result-cases sent.1) [
        | inl s ↦ inl (rw (submit, s.1) refl)
        | inr s ↦
            inr (rw (submit, s.1) (known-roll_back (record h { accepted = sent.0 }) l old s.0))
      ]

  apply_changes-Keeps :
      (h : FileHandler) (us : List UpdateChunkData) (truncate : Bool)
      → Keeps h (apply_changes c r h us truncate)
  unfolding apply_changes
  apply_changes-Keeps h us truncate =
      let hashed = set_hashes h.files.hash_list us truncate in
      elim (Result-cases hashed.1) [
        | inr s ↦ inr (rw (apply_changes, s.1) refl)
        | inl s ↦
            let (l, top_hash) = get_top_hash c hashed.0 in
            let m = new_file_meta r h.file_meta top_hash (new_plain_size h.plain_file_size us) in
            elim (Result-cases (r.encrypt_meta m h.file_enc_key)) [
              | inr s' ↦ inr (rw (apply_changes, s.1, s'.1) refl)
              | inl s' ↦ elim (submit-Keeps h (get_all h.files.hash_list) l m s'.0 us truncate) [
                | inl e ↦ inl (rw (apply_changes, s.1, s'.1) e)
                | inr e ↦ inr (rw (apply_changes, s.1, s'.1) e)
              ]
            ]
      ]

known-write_chunks :
    (c : Crypto) (server : Server) (ivs : ℕ → Bytes) (offset start stop : ℕ) (to_send : Bytes)
    (truncate : Bool) (rounds i d : ℕ) (h : FileHandler)
    → known (write_chunks c server ivs offset start stop to_send truncate rounds i d h).0 ≡ known h
unfolding write_chunks
known-write_chunks c server ivs offset start stop to_send truncate zero i d h = refl
known-write_chunks c server ivs offset start stop to_send truncate (suc rounds) i d h =
    let at = if i == start then offset % h.files.encryptor.chunk_size else 0 in
    let room =
      if i == start then h.plain_chunk_size - offset % h.plain_chunk_size else h.plain_chunk_size in
    elim (Result-cases (substr to_send d room)) [
      | inr s ↦ rw (write_chunks, s.1) refl
      | inl s ↦
          let made =
            create_update_chunk c server h (ivs i) i at s.0
              (if i == stop then truncate else false) in
          elim (Result-cases made.1) [
            | inr s' ↦ rw (write_chunks, s.1, s'.1) refl
            | inl s' ↦
                rw (write_chunks, s.1, s'.1)
                  (known-write_chunks c server ivs offset start stop to_send truncate rounds (i + 1)
                    (d + length s.0) (with_provider h made.0))
          ]
    ]

-- Every write either returns, or throws and leaves the sizes, the version, the meta data and the
-- key that the handler has of the file as they were.
pub write-known :
    (c : Crypto) (r : Remote) (ivs : ℕ → Bytes) (h : FileHandler) (offset : ℕ) (text : Bytes)
    (truncate : Bool)
    → ((write c r ivs h offset text truncate).1 ≡ ok tt)
      ⊎ (known (write c r ivs h offset text truncate).0 ≡ known h)
unfolding write
write-known c r ivs h offset text truncate =
    let (from, to_send) = filled h offset text in
    let start = file_pos_to_file_chunk_index h.files.encryptor from in
    let stop = stop_index h from to_send text in
    let made =
      write_chunks c r.server ivs from start stop to_send truncate (stop + 1 - start) start 0 h in
    let kept =
      known-write_chunks c r.server ivs from start stop to_send truncate (stop + 1 - start) start 0
        h in
    elim (Result-cases made.1) [
      | inr s ↦ inr (rw (write, s.1) kept)
      | inl s ↦ elim (apply_changes-Keeps c r made.0 s.0 truncate) [
        | inl e ↦ inl (rw (write, s.1) e)
        | inr e ↦ inr (rw (write, s.1) (e ∙ kept))
      ]
    ]

-- The meta data that a write sends.
abbrev pub new_meta : Crypto → Remote → FileHandler → List UpdateChunkData → Bool → FileMeta
new_meta c r h us truncate =
    new_file_meta r h.file_meta (get_top_hash c (set_hashes h.files.hash_list us truncate).0).1
      (new_plain_size h.plain_file_size us)

size_of : (n size : ℕ) → n ≡ 32 * size → ((n % 32 == 0) ≡ true) × (n / 32 ≡ size)
size_of n size e = ((==_iff (n % 32) 0).1 (omega (arith, e)), omega (arith, e))

-- Where the checksums of the changed chunks are set, the meta data is encrypted and then a request
-- throws, the write throws the same and the checksum list has the bytes and the number of
-- checksums from before. The list had 32 bytes for each checksum.
pub apply_changes-rolls_back :
    (c : Crypto) (r : Remote) (h : FileHandler) (us : List UpdateChunkData) (truncate : Bool)
    (updated : Bytes) (thrown : Error)
    → length h.files.hash_list.hashes ≡ 32 * h.files.hash_list.size
    → (set_hashes h.files.hash_list us truncate).1 ≡ ok tt
    → r.encrypt_meta (new_meta c r h us truncate) h.file_enc_key ≡ ok updated
    → (update_on_server r h
        (create_list_of_update_changes h.encrypted_chunk_size us)
        updated
        truncate).1
      ≡ err thrown
    → ((apply_changes c r h us truncate).1 ≡ err thrown)
      × ((apply_changes c r h us truncate).0.files.hash_list.hashes ≡ h.files.hash_list.hashes)
      × ((apply_changes c r h us truncate).0.files.hash_list.size ≡ h.files.hash_list.size)
unfolding apply_changes submit roll_back set_all is_whole get_all
apply_changes-rolls_back c r h us truncate updated thrown whole hashed sealed refused =
    let size = size_of (length h.files.hash_list.hashes) h.files.hash_list.size whole in
    (
      rw (apply_changes, hashed, sealed, submit, refused, roll_back, size.0) refl,
      rw (apply_changes, hashed, sealed, submit, refused, roll_back, size.0) refl,
      rw (apply_changes, hashed, sealed, submit, refused, roll_back, size.0) size.1,
    )
