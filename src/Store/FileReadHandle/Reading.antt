-- ===== src/Store/FileReadHandle/Reading.antt =====
-- Reading through a handle: consecutive reads give consecutive parts of the file.
use privmx_endpoint.Common.{
  le→leb, lt→leb, two64, u64, u64-eq_of_lt, ok, err, pos_out_of_bounds, length, take, drop,
  drop-drop, take-add, ℕ, ◌+◌, ◌≤◌, ◌<◌, ◌≡◌, refl, sym, ap, ◌∙◌, ◌⊎◌, inl, inr, ◌++◌, arith,
  dec_le, slice,
}
use privmx_endpoint.Store.Crypto.{Crypto}
use privmx_endpoint.Store.ChunkDataProvider.{Server}
use privmx_endpoint.Store.ChunkReader.Refinement.{StoredFile, IsStored, IsReady}
use privmx_endpoint.Store.FileReader.Refinement.{read-plain}
use privmx_endpoint.Store.FileReadHandle.{FileReadHandle, advance, read, seek}

-- The handle is in step with the file on the server.
pub record IsOpen (server : Server) (f : StoredFile) (h : FileReadHandle) : Type 0 where
  pub ready : IsReady server f h.files
  pub reader_size : h.file_reader.plain_file_size ≡ length f.plain
  pub handle_size : h.size ≡ length f.plain

module _ (c : Crypto) (server : Server) (f : StoredFile) (stored : IsStored c f)
    (some_width : 0 < f.encryptor.chunk_size) (small : length f.plain < two64) where
  read-IsOpen :
      (n : ℕ) (h : FileReadHandle)
      → IsOpen server f h
      → h.pos + n < two64
      → (h' : FileReadHandle) × (read c server n h ≡ (h', ok (slice h.pos n f.plain)))
        × IsOpen server f h'
        × (h'.pos ≡ h.pos + n)
  unfolding read advance
  read-IsOpen n h o fits =
      let got =
        read-plain c server f stored h.file_reader h.pos n h.files o.ready o.reader_size some_width
          small fits in
      (
        record h { files = got.0; pos = u64 (h.pos + n) },
        ap (advance h n) got.1,
        record { ready = got.2; reader_size = o.reader_size; handle_size = o.handle_size },
        u64-eq_of_lt (h.pos + n) fits,
      )

  -- The handle's position, in the file or behind its end. The documentation has it at the end in the
  -- second case.
  abbrev pub MovesTo : ℕ → FileReadHandle → Type 0
  MovesTo pos h =
      ((pos ≤ length f.plain) × (h.pos ≡ pos)) ⊎ ((length f.plain < h.pos) × (h.pos ≡ pos))

  -- Through a handle in step with a stored file, reads of m and then n bytes return the m bytes
  -- from the position on and the n bytes behind them, which joined are the m + n bytes of the file
  -- from the position on (all cut where the file ends); the handle stays in step. Where the m + n
  -- bytes lie in the file, the position moves by m + n, as StoreApi.hpp and InboxApi.hpp say of
  -- readFromFile; where they end behind it, the position moves by m + n too and lies behind the
  -- file's end, where those say that it is set at the end. The chunk size is not 0, and the file's
  -- length and the new position stay below 2^64.
  pub read-joined :
      (m n : ℕ) (h : FileReadHandle)
      → IsOpen server f h
      → h.pos + (m + n) < two64
      → (h1 : FileReadHandle) × (h2 : FileReadHandle) × (read c server m h
          ≡ (h1, ok (slice h.pos m f.plain)))
        × (read c server n h1 ≡ (h2, ok (slice (h.pos + m) n f.plain)))
        × (slice h.pos m f.plain ++ slice (h.pos + m) n f.plain ≡ slice h.pos (m + n) f.plain)
        × IsOpen server f h2
        × MovesTo (h.pos + (m + n)) h2
  read-joined m n h o fits =
      let first = read-IsOpen m h o (omega (arith, fits)) in
      let second = read-IsOpen n first.0 first.2 (omega (arith, fits, first.3)) in
      (
        first.0,
        second.0,
        first.1,
        second.1 ∙ ap (λ p. (second.0, ok (slice p n f.plain))) first.3,
        joined,
        second.2,
        at second.0 (omega (arith, first.3, second.3)),
      )
    where
      at : (h2 : FileReadHandle) → h2.pos ≡ h.pos + (m + n) → MovesTo (h.pos + (m + n)) h2
      at h2 e = elim (dec_le (h.pos + (m + n)) (length f.plain)) [
        | yes inside ↦ inl (inside, e)
        | no past ↦ inr (omega (arith, e), e)
      ]

      joined : slice h.pos m f.plain ++ slice (h.pos + m) n f.plain ≡ slice h.pos (m + n) f.plain
      joined = sym (
          take-add m n (drop h.pos f.plain)
          ∙ ap (λ l. slice h.pos m f.plain ++ take n l) (drop-drop m h.pos f.plain))

  -- Through a handle in step with a stored file, either the position lies in the file, seek
  -- succeeds and a read of n bytes returns the file's bytes from it on (cut where the file ends),
  -- or it lies at or behind the end, seek throws and the handle is as it was. The chunk size is
  -- not 0, and the file's length and the position plus n stay below 2^64.
  pub seek-read-plain :
      (pos n : ℕ) (h : FileReadHandle)
      → IsOpen server f h
      → pos + n < two64
      → ((pos < length f.plain)
          × (h' : FileReadHandle) × ((seek pos h).1 ≡ ok tt)
          × (read c server n (seek pos h).0 ≡ (h', ok (slice pos n f.plain))))
        ⊎ ((length f.plain ≤ pos) × (seek pos h ≡ (h, err pos_out_of_bounds)))
  unfolding seek
  seek-read-plain pos n h o fits = elim (dec_le (length f.plain) pos) [
    | yes past ↦ inr (past, rw (le→leb h.size pos (omega (arith, o.handle_size))) refl)
    | no inside ↦
        let inside_test = lt→leb h.size pos (omega (arith, o.handle_size)) in
        inl (
          omega arith,
          (read-IsOpen n sought sought_open fits).0,
          rw inside_test refl,
          ap (λ r. read c server n r.0) {x = seek pos h} {y = (sought, ok tt)}
                (rw (seek, inside_test) refl)
              ∙ (read-IsOpen n sought sought_open fits).1,
        )
  ]
    where
      sought : FileReadHandle
      sought = record h { pos = pos }

      sought_open : IsOpen server f sought
      sought_open = record {
        ready = o.ready;
        reader_size = o.reader_size;
        handle_size = o.handle_size;
      }
