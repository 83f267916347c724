-- ===== src/Store/ChunkStreamer/Stored.antt =====
-- What the server has after a whole upload.
use privmx_endpoint.Common.State.{◌>>=◌, ◌>>◌, get, pure, >>-ok}
use privmx_endpoint.Common.{
  ltb, ◌==◌, ==_iff, Bool-cases, two32, two64, u64, u64-eq_of_lt, ok, length, flatten,
  length-append, Bytes, ℕ, ◌+◌, ◌≤◌, ◌<◌, ◌≡◌, refl, ap, ◌∙◌, inl, inr, false, List, [], ◌∷◌, ◌++◌,
  arith,
}
use privmx_endpoint.Store.Crypto.{Crypto}
use privmx_endpoint.Store.ChunkStreamer.{
  Streamer, start, set_request_data, RequestApi, count_uploaded, prepare_and_send_chunk,
  check_uploaded, commit_file, sent_info, finalize,
}
use privmx_endpoint.Store.ChunkStreamer.Drain.{Accepts}
use privmx_endpoint.Store.ChunkStreamer.Upload.{parts}
use privmx_endpoint.Store.ChunkStreamer.Complete.{
  IsCommitted, complete_state, commit_file_complete, complete-IsCommitted,
}
use privmx_endpoint.Store.ChunkStreamer.Whole.{
  stored-snoc, flatten-snoc, IsUploading, stored, AreFull, with_last, send_chunks,
  send_chunks-IsUploading, opened-IsUploading, after, prepare-after, after-IsUploading,
  count-IsSending,
}

module _ (c : Crypto) (ivs : ℕ → Bytes) (key : Bytes) (chunk_size size : ℕ) (api : RequestApi)
    (a : Accepts api) (some_size : 0 < size) (file_size : ℕ) (k : file_size < two64)
    (request_id : Bytes) (file_index : ℕ) where
  abbrev Uploading : List Bytes → Streamer → Type 0
  Uploading =
      IsUploading c ivs key chunk_size size api a some_size file_size k request_id file_index

  abbrev stored_size : List Bytes → ℕ
  stored_size = stored c ivs key chunk_size size api a some_size file_size k request_id file_index

  check_uploaded-ok :
      (d : Bytes) (s : Streamer)
      → s.file_size ≤ s.uploaded_file_size
      → s.uploaded_file_size + length d < two64
      → check_uploaded d s ≡ (s, ok tt)
  unfolding check_uploaded
  check_uploaded-ok d s h fits = rw no (refl)
    where
      no : ltb (u64 (s.uploaded_file_size + length d)) s.file_size ≡ false
      no = rw (u64-eq_of_lt (s.uploaded_file_size + length d) fits) (ground arith)

  -- The end of `finalize`.
  finish-IsCommitted :
      (chunks : List Bytes) (d : Bytes) (s : Streamer)
      → Uploading chunks s
      → length (flatten chunks) ≡ file_size
      → file_size + length d < two64
      → stored_size chunks < two64
      → (t : Streamer) × ((check_uploaded d
              >> (commit_file api >> (get >>= λ t. pure (sent_info c t))))
            s
          ≡ (t, ok (sent_info c t)))
        × IsCommitted c ivs key chunk_size size api a some_size chunks request_id file_index t
  finish-IsCommitted chunks d s h e fits m = (
    complete_state c ivs key chunk_size size api a some_size chunks s,
    >>-ok (check_uploaded d) (commit_file api >> (get >>= λ t. pure (sent_info c t))) s (
          check_uploaded-ok d s (omega (arith, h.uploaded, h.same_file_size, e))
            (omega (arith, h.uploaded, fits, e)))
        ∙ >>-ok (commit_file api) (get >>= λ t. pure (sent_info c t)) s (
            commit_file_complete c ivs key chunk_size size api a some_size chunks s h.sending.buffer
              buffer_fits),
    complete-IsCommitted c ivs key chunk_size size api a some_size chunks s h.sending.buffer
        buffer_fits request_id file_index h.same_request h.same_file,
  )
    where
      buffer_fits : length s.stream.buf < two64
      buffer_fits = omega (
        arith,
        m,
        length-append (parts s.sent) s.stream.buf,
        ap length h.sending.buffer.sent_or_buffered,
      )

  counted_empty :
      (chunks : List Bytes) (d : Bytes) (s : Streamer)
      → Uploading chunks s
      → length d ≡ 0
      → length (flatten chunks) ≤ file_size
      → Uploading chunks (count_uploaded d s)
  unfolding count_uploaded
  counted_empty chunks d s h e l = record {
    sending =
        count-IsSending c ivs key chunk_size size api a some_size file_size k request_id file_index
          chunks d s h.sending;
    same_file_size = h.same_file_size;
    same_request = h.same_request;
    same_file = h.same_file;
    uploaded =
        ap (λ n. u64 (n + length d)) h.uploaded
        ∙ u64-eq_of_lt (length (flatten chunks) + length d) (omega arith)
        ∙ omega (arith, e);
  }

  -- `finalize` with the last chunk.
  finalize-IsCommitted :
      (chunks : List Bytes) (d : Bytes) (s : Streamer)
      → Uploading chunks s
      → length (flatten chunks) + length d ≡ file_size
      → file_size + length d < two64
      → length chunks + 1 < two32
      → stored_size (chunks ++ d ∷ []) < two64
      → (t : Streamer) × (finalize c api ivs d s ≡ (t, ok (sent_info c t)))
        × IsCommitted c ivs key chunk_size size api a some_size
            (with_last chunks d)
            request_id
            file_index
            t
  unfolding finalize
  finalize-IsCommitted chunks d s h e fits n m = elim (Bool-cases (length d == 0)) [
    | inl empty ↦ rw empty (
        finish-IsCommitted chunks d (count_uploaded d s)
          (counted_empty chunks d s h ((==_iff (length d) 0).0 empty) (omega (arith, e)))
          (omega (arith, e, (==_iff (length d) 0).0 empty)) fits
          (omega (
            arith,
            m,
            stored-snoc c ivs key chunk_size size api a some_size file_size k request_id file_index
                chunks d,
          )))
    | inr some_last ↦ rw some_last (
        let r = finish-IsCommitted (chunks ++ d ∷ []) d after_last uploaded_last total fits m in
        (
          r.0,
          >>-ok (prepare_and_send_chunk c api ivs d)
                (check_uploaded d >> (commit_file api >> (get >>= λ t. pure (sent_info c t))))
                (count_uploaded d s) prepared
              ∙ r.1,
          r.2,
        ))
  ]
    where
      total : length (flatten (chunks ++ d ∷ [])) ≡ file_size
      total =
          flatten-snoc c ivs key chunk_size size api a some_size file_size k request_id file_index
            chunks d
          ∙ e

      le : length (flatten chunks) + length d ≤ file_size
      le = omega (arith, e)

      after_last : Streamer
      after_last =
          after c ivs key chunk_size size api a some_size file_size k request_id file_index chunks d
            s h n m le

      prepared : prepare_and_send_chunk c api ivs d (count_uploaded d s) ≡ (after_last, ok tt)
      prepared =
          prepare-after c ivs key chunk_size size api a some_size file_size k request_id file_index
            chunks d s h n m le

      uploaded_last : Uploading (chunks ++ d ∷ []) after_last
      uploaded_last =
          after-IsUploading c ivs key chunk_size size api a some_size file_size k request_id
            file_index chunks d s h n m le

  -- Where the server accepts every request, an upload that sets a request, sends full chunks and
  -- finalizes with a last one (perhaps shorter or empty), of the declared length in all, ends
  -- without an error: the requests that the server has accepted make, joined in order, the
  -- encryption of the chunks, and the commit carries their tags, the number of requests, and the
  -- request and file index that were set. The request size is not 0, the file's size plus the last
  -- chunk's and the encrypted size stay below 2^64, and the number of chunks below 2^32.
  pub upload-IsCommitted :
      (chunks : List Bytes) (d : Bytes)
      → AreFull chunk_size chunks
      → length (flatten chunks) + length d ≡ file_size
      → file_size + length d < two64
      → length chunks + 1 < two32
      → stored_size (chunks ++ d ∷ []) < two64
      → (t : Streamer) × ((send_chunks c api ivs chunks >> finalize c api ivs d)
            (set_request_data (start chunk_size file_size size) request_id key file_index)
          ≡ (t, ok (sent_info c t)))
        × IsCommitted c ivs key chunk_size size api a some_size
            (with_last chunks d)
            request_id
            file_index
            t
  upload-IsCommitted chunks d full e fits n m =
      let r =
        send_chunks-IsUploading c ivs key chunk_size size api a some_size file_size k request_id
          file_index chunks [] beginning
          (opened-IsUploading c ivs key chunk_size size api a some_size file_size k request_id
            file_index)
          full (omega (arith, n))
          (omega (
            arith,
            m,
            stored-snoc c ivs key chunk_size size api a some_size file_size k request_id file_index
                chunks d,
          ))
          (omega (arith, e)) in
      let q = finalize-IsCommitted chunks d r.0 r.2 e fits n m in
      (q.0, >>-ok (send_chunks c api ivs chunks) (finalize c api ivs d) beginning r.1 ∙ q.1, q.2)
    where
      beginning : Streamer
      beginning = set_request_data (start chunk_size file_size size) request_id key file_index
