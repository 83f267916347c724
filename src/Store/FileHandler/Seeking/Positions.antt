-- ===== src/Store/FileHandler/Seeking/Positions.antt =====
-- Through the handle's reading position, reads one after another return the file's bytes in a row.
use privmx_endpoint.Common.{
  ltb, lt→ltb, le→ltb, two64, u64-eq_of_lt, ok, err, pos_out_of_bounds, length, take, drop,
  length-append, length-drop, take_all, drop_all, drop-drop, take-add, Bytes, ℕ, ◌+◌, ◌-◌, ◌≤◌, ◌<◌,
  ◌≡◌, refl, sym, ap, ◌∙◌, ◌⊎◌, inl, inr, false, [], ◌++◌, append-nil, arith, dec_le, slice,
  length-slice,
}
use privmx_endpoint.Store.Crypto.{Crypto}
use privmx_endpoint.Store.ChunkReader.Refinement.{StoredFile, IsStored}
use privmx_endpoint.Store.RandomWrite.{Remote}
use privmx_endpoint.Store.FileHandler.{get_file_size}
use privmx_endpoint.Store.FileHandler.Reading.{IsOpen, read-plain}
use privmx_endpoint.Store.FileHandler.Seeking.{FileHandlerImpl, advance, read, seekg}

-- A read that is cut at the end of the file is followed by nothing.
slice-cut_then :
    (p n m : ℕ) (xs : Bytes)
    → slice p n xs ++ slice (p + length (slice p n xs)) m xs ≡ slice p (n + m) xs
slice-cut_then p n m xs = elim (dec_le n (length xs - p)) [
  | yes whole ↦
      ap (λ k. slice p n xs ++ slice (p + k) m xs) {y = n} (omega (arith, length-slice p n xs))
      ∙ ap (λ l. slice p n xs ++ take m l) (sym (drop-drop n p xs))
      ∙ sym (take-add n m (drop p xs))
  | no short ↦
      ap (λ l. slice p n xs ++ take m l)
        (drop_all (p + length (slice p n xs)) xs (omega (arith, length-slice p n xs)))
      ∙ ap (λ l. slice p n xs ++ l) (take_all m [] (omega arith))
      ∙ append-nil (slice p n xs)
      ∙ take_all n (drop p xs) (omega (arith, length-drop p xs))
      ∙ sym (take_all (n + m) (drop p xs) (omega (arith, length-drop p xs)))
]

module _ (c : Crypto) (r : Remote) (f : StoredFile) (stored : IsStored c f)
    (some_width : 0 < f.encryptor.chunk_size) (small : length f.plain < two64) where
  pub read-IsOpen :
      (n : ℕ) (h : FileHandlerImpl)
      → IsOpen r f h.file
      → h.read_pos + n < two64
      → (h' : FileHandlerImpl) × (read c r n h ≡ (h', ok (slice h.read_pos n f.plain)))
        × (h'.read_pos ≡ h.read_pos + length (slice h.read_pos n f.plain))
        × IsOpen r f h'.file
  unfolding read
  read-IsOpen n h o fits =
      let (file, e, o') = read-plain c r f stored some_width small h.read_pos n h.file o fits in
      (
        record h { file = file; read_pos = h.read_pos + length (slice h.read_pos n f.plain) },
        ap (advance h) e
            ∙ rw
                (
                  advance,
                  u64-eq_of_lt (h.read_pos + length (slice h.read_pos n f.plain))
                      (omega (arith, length-slice h.read_pos n f.plain)),
                )
                refl,
        refl,
        o',
      )

  -- Through a handle for random access in step with a stored file, reads of n and then m bytes
  -- return together the n + m bytes from the reading position on, cut where the file ends, and the
  -- position moves by the number of bytes returned. The chunk size is not 0, and the file's length
  -- and the position plus n plus m stay below 2^64.
  pub read-read_after :
      (n m : ℕ) (h : FileHandlerImpl)
      → IsOpen r f h.file
      → h.read_pos + n + m < two64
      → (h' : FileHandlerImpl) × (h'' : FileHandlerImpl) × (a : Bytes) × (b : Bytes) × (read c r n h
          ≡ (h', ok a))
        × (read c r m h' ≡ (h'', ok b))
        × (a ++ b ≡ slice h.read_pos (n + m) f.plain)
        × (h''.read_pos ≡ h.read_pos + length (a ++ b))
  read-read_after n m h o fits =
      let (h', e, p, o') = read-IsOpen n h o (omega arith) in
      let (h'', e', p', o'') =
        read-IsOpen m h' o' (omega (arith, p, length-slice h.read_pos n f.plain)) in
      (
        h',
        h'',
        slice h.read_pos n f.plain,
        slice h'.read_pos m f.plain,
        e,
        e',
        ap (λ k. slice h.read_pos n f.plain ++ slice k m f.plain) p
            ∙ slice-cut_then h.read_pos n m f.plain,
        omega (
          arith,
          p,
          p',
          length-append (slice h.read_pos n f.plain) (slice h'.read_pos m f.plain),
        ),
      )

  -- Through a handle for random access in step with a stored file, either the position is at most
  -- the file's length, seekg succeeds and a read of n bytes returns the file's bytes from it on
  -- (cut where the file ends) and moves the position by their number, or it lies behind the end,
  -- seekg throws and the handle is as it was. The chunk size is not 0, and the file's length and
  -- the position plus n stay below 2^64.
  pub seekg-read :
      (pos n : ℕ) (h : FileHandlerImpl)
      → IsOpen r f h.file
      → pos + n < two64
      → ((pos ≤ length f.plain)
          × (h' : FileHandlerImpl) × ((seekg pos h).1 ≡ ok tt)
          × (read c r n (seekg pos h).0 ≡ (h', ok (slice pos n f.plain)))
          × (h'.read_pos ≡ pos + length (slice pos n f.plain)))
        ⊎ ((length f.plain < pos) × (seekg pos h ≡ (h, err pos_out_of_bounds)))
  unfolding seekg get_file_size
  seekg-read pos n h o fits = elim (dec_le pos (length f.plain)) [
    | no past ↦
        inr (omega arith, rw (lt→ltb h.file.plain_file_size pos (omega (arith, o.plain_size))) refl)
    | yes inside ↦
        let (h', e, e', p) =
          sought (le→ltb h.file.plain_file_size pos (omega (arith, o.plain_size))) in
        inl (omega arith, h', e, e', p)
  ]
    where
      sought :
          ltb h.file.plain_file_size pos ≡ false
          → (h' : FileHandlerImpl) × ((seekg pos h).1 ≡ ok tt)
            × (read c r n (seekg pos h).0 ≡ (h', ok (slice pos n f.plain)))
            × (h'.read_pos ≡ pos + length (slice pos n f.plain))
      sought test =
          let (h', e, p, o') = read-IsOpen n (record h { read_pos = pos }) o fits in
          (h', rw test refl, rw test e, p)
