-- ===== src/Store/FileHandler/Reading.antt =====
-- Reading through the random-access handler is reading the plaintext.
use privmx_endpoint.Common.{
  ltb, leb, ◌==◌, if◌then◌else◌, two64, u64, sub64, Result, ok, err, length, Bytes, ℕ, zero, suc,
  ◌+◌, ◌-◌, ◌<◌, ◌≡◌, refl, ap, ◌∙◌, Bool, true, false, [], ◌++◌, slice,
}
use privmx_endpoint.Store.Crypto.{Crypto}
use privmx_endpoint.Store.ChunkReader.{
  Files, get_decrypted_chunk, file_pos_to_file_chunk_index, file_pos_to_pos_in_file_chunk,
}
use privmx_endpoint.Store.ChunkReader.Refinement.{StoredFile, IsStored, IsReady}
use privmx_endpoint.Store.FileReader.{FileReader, cut}
use privmx_endpoint.Store.FileReader
use privmx_endpoint.Store.FileReader.Refinement
use privmx_endpoint.Store.RandomWrite.{FileHandler, Remote}
use privmx_endpoint.Store.FileHandler.{read_chunks, read}

-- The handler as a reader.
as_reader : FileHandler → FileReader
as_reader h = record { plain_file_size = h.plain_file_size; version = h.version }

abbrev with_files : FileHandler → Files × Result Bytes → FileHandler × Result Bytes
with_files h got = (record h { files = got.0 }, got.1)

with_files-if :
    (h : FileHandler) (p q : Bool) (got : Files × Result Bytes)
    → (if p then (h, ok []) else if q then (h, ok []) else with_files h got)
      ≡ with_files h (if p then (h.files, ok []) else if q then (h.files, ok []) else got)
with_files-if h true q got = refl
with_files-if h false true got = refl
with_files-if h false false got = refl

module _ (c : Crypto) (r : Remote) where
  read_chunks-read_chunks :
      (rounds i : ℕ) (acc : Bytes) (s : Files)
      → read_chunks c r rounds i acc s ≡ FileReader.read_chunks c r.server rounds i acc s
  unfolding read_chunks FileReader.read_chunks
  read_chunks-read_chunks zero i acc s = refl
  read_chunks-read_chunks (suc rounds) i acc s =
      go (get_decrypted_chunk c r.server s i)
        (λ chunk s'. read_chunks-read_chunks rounds (i + 1) (acc ++ chunk) s')
    where
      go :
          (got : Files × Result Bytes)
          → ((chunk : Bytes) (s' : Files)
              → read_chunks c r rounds (i + 1) (acc ++ chunk) s'
                ≡ FileReader.read_chunks c r.server rounds (i + 1) (acc ++ chunk) s')
          → elim got.1 as (λ x. Files × Result Bytes) [
            | err e ↦ (got.0, err e)
            | ok chunk ↦ read_chunks c r rounds (i + 1) (acc ++ chunk) got.0
          ]
            ≡ elim got.1 [
              | err e ↦ (got.0, err e)
              | ok chunk ↦ FileReader.read_chunks c r.server rounds (i + 1) (acc ++ chunk) got.0
            ]
      go (s', err e) same = refl
      go (s', ok chunk) same = same chunk s'

  read-read :
      (h : FileHandler) (pos n : ℕ)
      → read c r h pos n ≡ with_files h (FileReader.read c r.server (as_reader h) h.files pos n)
  unfolding read FileReader.read as_reader cut
  read-read h pos n =
      let size = if ltb h.plain_file_size (u64 (pos + n)) then sub64 h.plain_file_size pos else n in
      let start = file_pos_to_file_chunk_index h.files.encryptor pos in
      let stop = file_pos_to_file_chunk_index h.files.encryptor (sub64 (u64 (pos + size)) 1) in
      rw (read_chunks-read_chunks (stop + 1 - start) start [] h.files) (
        with_files-if h (leb h.plain_file_size pos) (size == 0) (
          cut (FileReader.read_chunks c r.server (stop + 1 - start) start [] h.files)
            (file_pos_to_pos_in_file_chunk h.files.encryptor pos) size))

-- The handler is in step with the file on the server.
pub record IsOpen (r : Remote) (f : StoredFile) (h : FileHandler) : Type 0 where
  pub ready : IsReady r.server f h.files
  pub plain_size : h.plain_file_size ≡ length f.plain

module _ (c : Crypto) (r : Remote) (f : StoredFile) (stored : IsStored c f)
    (some_width : 0 < f.encryptor.chunk_size) (small : length f.plain < two64) where
  -- A read through the handler of a file in step returns the bytes of the plaintext that were asked
  -- for, cut where the file ends, and the handler stays in step.
  pub read-plain :
      (pos n : ℕ) (h : FileHandler)
      → IsOpen r f h
      → pos + n < two64
      → (h' : FileHandler) × (read c r h pos n ≡ (h', ok (slice pos n f.plain))) × IsOpen r f h'
  unfolding as_reader
  read-plain pos n h o fits =
      let (s', e, ready') =
        FileReader.Refinement.read-plain c r.server f stored (as_reader h) pos n h.files o.ready
          o.plain_size some_width small fits in
      (
        record h { files = s' },
        read-read c r h pos n ∙ ap (with_files h) e,
        record { ready = ready'; plain_size = o.plain_size },
      )
