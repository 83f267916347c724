-- ===== src/Store/FileReader/Refinement.antt =====
-- `FileReader::read` returns the range of the plaintext, cut at the file's end.
use native.Mathlib.Nat.{div-add-mod, lt-mul-div-succ, mul-sub, mul-div-le, lt_of_mul-lt-mul_left}
use privmx_endpoint.Common.{
  ltb, if◌then◌else◌, le→leb, lt→leb, ==_iff, two64, u64, sub64, u64-eq_of_lt, sub64-eq, Result, ok,
  length, take, drop, length-drop, take_all, drop_all, drop-drop, take-add, Bytes, substr,
  substr-eq, ℕ, zero, suc, ◌+◌, ◌-◌, ◌*◌, ◌/◌, ◌%◌, ◌≤◌, ◌<◌, min, ◌≡◌, sym, ap, ◌∙◌, [], ◌++◌,
  append-nil, append_assoc, arith, dec_le, ℕ_discrete, slice, slice-slice, length-slice, ==-false,
}
use privmx_endpoint.Store.Crypto.{Crypto}
use privmx_endpoint.Store.ChunkDataProvider.{Server}
use privmx_endpoint.Store.ChunkReader.{
  Files, get_decrypted_chunk, file_pos_to_file_chunk_index, file_pos_to_pos_in_file_chunk,
}
use privmx_endpoint.Store.ChunkReader.Refinement.{
  StoredFile, IsStored, IsReady, plain_chunk, get_decrypted_chunk-plain,
}
use privmx_endpoint.Store.FileReader.{FileReader, read_chunks, cut, read}

slice-step :
    (size i rounds : ℕ) (xs : Bytes)
    → slice (size * i) size xs ++ slice (size * (i + 1)) (size * rounds) xs
      ≡ slice (size * i) (size * suc rounds) xs
slice-step size i rounds xs = sym (
    ap (λ t. slice (size * i) t xs) {y = size + size * rounds} (omega arith)
    ∙ take-add size (size * rounds) (drop (size * i) xs)
    ∙ ap (λ l. slice (size * i) size xs ++ take (size * rounds) l)
        (drop-drop size (size * i) xs ∙ ap (λ t. drop t xs) (omega arith)))

rounds_of : ℕ → ℕ → ℕ → ℕ
rounds_of width pos size = (pos + size - 1) / width + 1 - pos / width

module _ (width pos size : ℕ) (some_width : 0 < width) (some_size : 0 < size) where
  last : ℕ
  last = (pos + size - 1) / width

  -- The last chunk is not in front of the first.
  in_order : pos / width < last + 1
  unfolding last
  in_order = lt_of_mul-lt-mul_left width (
      omega (arith, div-add-mod pos width, lt-mul-div-succ (pos + size - 1) {b = width} some_width))

  -- The chunks that are read lie around the range.
  range_covered : pos % width + size ≤ width * rounds_of width pos size
  unfolding rounds_of last
  range_covered = omega (
    arith,
    in_order,
    div-add-mod pos width,
    lt-mul-div-succ (pos + size - 1) {b = width} some_width,
    mul-sub width ((pos + size - 1) / width + 1) (pos / width),
  )

  range_ends : width * (pos / width + rounds_of width pos size) ≤ pos + size - 1 + width
  unfolding rounds_of last
  range_ends = omega (arith, mul-div-le (pos + size - 1) width, ap (λ t. width * t) together)
    where
      together :
          pos / width + ((pos + size - 1) / width + 1 - pos / width) ≡ (pos + size - 1) / width + 1
      together = omega (arith, in_order)

read_chunks_step :
    (c : Crypto) (server : Server) (rounds i : ℕ) (acc chunk : Bytes) (s s' : Files)
    → get_decrypted_chunk c server s i ≡ (s', ok chunk)
    → read_chunks c server (suc rounds) i acc s
      ≡ read_chunks c server rounds (i + 1) (acc ++ chunk) s'
unfolding read_chunks
read_chunks_step c server rounds i acc chunk s s' e =
    rw (e, read_chunks) (ap (λ t. read_chunks c server rounds (i + 1) (acc ++ chunk) t.0) e)

module _ (c : Crypto) (server : Server) (f : StoredFile) (h : IsStored c f) where
  abbrev size_of : ℕ
  size_of = f.encryptor.chunk_size

  -- The loop joins the chunks of a range that begins in the file.
  read_chunks-plain :
      (rounds i : ℕ) (acc : Bytes) (s : Files)
      → IsReady server f s
      → size_of * (i + rounds) < length f.plain + size_of
      → (s' : Files) × (read_chunks c server rounds i acc s
          ≡ (s', ok (acc ++ slice (size_of * i) (size_of * rounds) f.plain)))
        × IsReady server f s'
  unfolding read_chunks
  read_chunks-plain zero i acc s r lt = (s, λ j. (s, ok (nothing j)), r)
    where
      nothing : acc ≡ acc ++ slice (size_of * i) (size_of * 0) f.plain
      nothing =
          sym
            (ap (λ t. acc ++ slice (size_of * i) t f.plain) {y = 0} (omega arith) ∙ append-nil acc)
  read_chunks-plain (suc rounds) i acc s r lt =
      let (s', e, r') = get_decrypted_chunk-plain c server f h s i r (omega arith) in
      let (s'', e', r'') =
        read_chunks-plain rounds (i + 1) (acc ++ plain_chunk f i) s' r' (omega arith) in
      (
        s'',
        read_chunks_step c server rounds i acc (plain_chunk f i) s s' e
            ∙ e'
            ∙ ap (λ l. (s'', ok l))
                (append_assoc acc (plain_chunk f i)
                    (slice (size_of * (i + 1)) (size_of * rounds) f.plain)
                  ∙ ap (λ l. acc ++ l) (slice-step size_of i rounds f.plain)),
        r'',
      )

  -- The range of the joined chunks is the range of the plaintext.
  joined-slice :
      (pos size : ℕ)
      → 0 < size_of
      → 0 < size
      → pos + size ≤ length f.plain
      → substr
          (slice (size_of * (pos / size_of)) (size_of * rounds_of size_of pos size) f.plain)
          (pos % size_of)
          size
        ≡ ok (slice pos size f.plain)
  joined-slice pos size k m n =
      substr-eq joined (pos % size_of) size
        (omega (arith, whole, range_covered size_of pos size k m, length-slice start width f.plain))
      ∙ ap ok (
          slice-slice start width (pos % size_of) size f.plain (range_covered size_of pos size k m)
          ∙ ap (λ t. slice t size f.plain) whole)
    where
      start : ℕ
      start = size_of * (pos / size_of)

      width : ℕ
      width = size_of * rounds_of size_of pos size

      joined : Bytes
      joined = slice start width f.plain

      whole : start + pos % size_of ≡ pos
      whole = div-add-mod pos size_of

  -- A read that begins in the file, of some bytes that the file holds.
  read-inside :
      (pos size : ℕ) (s : Files)
      → IsReady server f s
      → 0 < size_of
      → 0 < size
      → pos + size ≤ length f.plain
      → (s' : Files) × (cut
            (read_chunks c server (rounds_of size_of pos size) (pos / size_of) [] s)
            (pos % size_of)
            size
          ≡ (s', ok (slice pos size f.plain)))
        × IsReady server f s'
  unfolding cut
  read-inside pos size s r k m n =
      let (s', e, r') =
        read_chunks-plain (rounds_of size_of pos size) (pos / size_of) [] s r
          (omega (arith, range_ends size_of pos size k m)) in
      (
        s',
        ap (λ t. cut t (pos % size_of) size) e ∙ ap (λ t. (s', t)) (joined-slice pos size k m n),
        r',
      )

  clipped-slice :
      (pos n : ℕ) → slice pos (min n (length f.plain - pos)) f.plain ≡ slice pos n f.plain
  clipped-slice pos n = elim (dec_le n (length f.plain - pos)) [
    | yes p ↦ ap (λ t. slice pos t f.plain) (omega arith)
    | no p ↦
        take_all _ (drop pos f.plain) (omega (arith, length-drop pos f.plain))
        ∙ sym (take_all n (drop pos f.plain) (omega (arith, length-drop pos f.plain)))
  ]

  -- Against a server that holds an encrypted file, a reader that is in step with it returns, for
  -- any position and length, exactly those bytes of the plaintext, cut where the file ends, and
  -- the objects stay in step. The chunk size is not 0, and the file's length and the sum of the
  -- position and the length stay below 2^64.
  pub read-plain :
      (r : FileReader) (pos n : ℕ) (s : Files)
      → IsReady server f s
      → r.plain_file_size ≡ length f.plain
      → 0 < f.encryptor.chunk_size
      → length f.plain < two64
      → pos + n < two64
      → (s' : Files) × (read c server r s pos n ≡ (s', ok (slice pos n f.plain)))
        × IsReady server f s'
  unfolding read file_pos_to_file_chunk_index file_pos_to_pos_in_file_chunk rounds_of
  read-plain r pos n s ready e k small fits = elim (dec_le (length f.plain) pos) [
    | yes past ↦ (
      s,
      rw (e, le→leb (length f.plain) pos past)
          (ap (λ t. (s, ok t))
            (sym (ap (take n) (drop_all pos f.plain past) ∙ take_all n [] (omega arith)))),
      ready,
    )
    | no before ↦ begins (omega arith)
  ]
    where
      size : ℕ
      size = min n (length f.plain - pos)

      size_read :
          pos < length f.plain
          → (if ltb (length f.plain) (u64 (pos + n)) then sub64 (length f.plain) pos else n) ≡ size
      size_read lt =
          rw (u64-eq_of_lt (pos + n) fits, sub64-eq (length f.plain) pos (omega arith) small)
            (ground arith)

      -- The read as a function of the width of a chunk.
      by_width : ℕ → Files × Result Bytes
      by_width w = cut (read_chunks c server (rounds_of w pos size) (pos / w) [] s) (pos % w) size

      read_by_width :
          pos < length f.plain
          → ¬ (size ≡ 0)
          → read c server r s pos n ≡ by_width s.encryptor.chunk_size
      read_by_width lt some_read = rw (
        e,
        size_read lt,
        lt→leb (length f.plain) pos lt,
        ==-false size 0 some_read,
        u64-eq_of_lt (pos + size) (omega arith),
        sub64-eq (pos + size) 1 (omega arith) (omega arith),
      )

      begins :
          pos < length f.plain
          → (s' : Files) × (read c server r s pos n ≡ (s', ok (slice pos n f.plain)))
            × IsReady server f s'
      begins lt = elim (ℕ_discrete size 0) [
        | yes none_read ↦ (
          s,
          rw (e, size_read lt, lt→leb (length f.plain) pos lt, (==_iff size 0).1 none_read)
              (ap (λ t. (s, ok t))
                (sym (sym (clipped-slice pos n) ∙ ap (λ t. slice pos t f.plain) none_read))),
          ready,
        )
        | no some_read ↦
            let (s', e', ready') = read-inside pos size s ready k (omega arith) (omega arith) in
            (
              s',
              read_by_width lt some_read
                  ∙ ap by_width (ap (λ x. x.chunk_size) ready.same_encryptor)
                  ∙ e'
                  ∙ ap (λ t. (s', ok t)) (clipped-slice pos n),
              ready',
            )
      ]
