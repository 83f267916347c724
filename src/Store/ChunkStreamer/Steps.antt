-- ===== src/Store/ChunkStreamer/Steps.antt =====
-- One more chunk of an upload.
use privmx_endpoint.Common.State.{◌>>◌, modify, >>-ok}
use privmx_endpoint.Common.{
  ltb, two32, two64, u32, u64, u32-eq_of_lt, u64-eq_of_lt, ok, length, flatten, length-append,
  flatten-append, Bytes, ℕ, ◌+◌, ◌≤◌, ◌<◌, ◌≡◌, refl, sym, ap, ◌∙◌, false, List, [], ◌∷◌, ◌++◌,
  append-nil, append_assoc, arith,
}
use privmx_endpoint.Store.Crypto.{Crypto}
use privmx_endpoint.Store.ChunkEncryptor.{Chunk, encrypt}
use privmx_endpoint.Store.ChunkEncryptor.Sizes.{joined, stored_bytes, stored_hmacs}
use privmx_endpoint.Store.ChunkBufferedStream.{Stream}
use privmx_endpoint.Store.ChunkBufferedStream
use privmx_endpoint.Store.ChunkStreamer.{
  Streamer, RequestApi, prepare_chunk, prepare_and_send_chunk, write_stream, count_chunk,
  send_full_chunks_while_collected,
}
use privmx_endpoint.Store.ChunkStreamer.Drain.{
  Accepts, drained, cuts, send_full_chunks_while_collected-drained,
}
use privmx_endpoint.Store.ChunkStreamer.Upload.{
  parts, encryptor, sealed, IsBuffered, IsSending, encrypt_all-snoc, joined-append,
  prepare_chunk-encrypt,
}
use privmx_endpoint.Store.ChunkStreamer.Sending.{drained-IsBuffered, push-same}

-- What a step leaves alone.
pub record SameFile (s s' : Streamer) : Type 0 where
  pub same_uploaded : s'.uploaded_file_size ≡ s.uploaded_file_size
  pub same_file_size : s'.file_size ≡ s.file_size
  pub same_request : s'.request_id ≡ s.request_id
  pub same_file : s'.file_index ≡ s.file_index

drained-SameFile : (s : Streamer) → SameFile s (drained s)
unfolding drained
drained-SameFile s =
    rw (push-same s (cuts s.stream.chunk_size s.stream.buf _ 0)) (record {
      same_uploaded = refl;
      same_file_size = refl;
      same_request = refl;
      same_file = refl;
    })

drained-counts :
    (s : Streamer) → ((drained s).seq ≡ s.seq) × ((drained s).data_processed ≡ s.data_processed)
unfolding drained
drained-counts s = rw (push-same s (cuts s.stream.chunk_size s.stream.buf _ 0)) (refl, refl)

module _ (c : Crypto) (ivs : ℕ → Bytes) (key : Bytes) (chunk_size size : ℕ) (api : RequestApi)
    (a : Accepts api) (some_size : 0 < size) where
  -- The parts of the list with one more chunk.
  pub joined-snoc :
      (part : Chunk → Bytes) (chunks : List Bytes) (d : Bytes)
      → joined part (sealed c ivs key chunk_size (chunks ++ d ∷ []))
        ≡ joined part (sealed c ivs key chunk_size chunks)
          ++ part
              (encrypt c (encryptor c ivs key chunk_size) (length chunks) (ivs (length chunks)) d)
  joined-snoc part chunks d =
      ap (joined part) (encrypt_all-snoc c (encryptor c ivs key chunk_size) ivs 0 chunks d)
      ∙ joined-append part (sealed c ivs key chunk_size chunks) _
      ∙ ap (λ l. joined part (sealed c ivs key chunk_size chunks) ++ l) (append-nil _)
      ∙ ap
          (λ n.
            joined part (sealed c ivs key chunk_size chunks)
            ++ part (encrypt c (encryptor c ivs key chunk_size) n (ivs n) d))
          (omega arith)

  module _ (chunks : List Bytes) (d : Bytes) (s : Streamer)
      (h : IsSending c ivs key chunk_size size chunks s) (few : length chunks + 1 < two32)
      (small : length (stored_bytes (sealed c ivs key chunk_size (chunks ++ d ∷ []))) < two64) where
    abbrev chunk : Chunk
    chunk = prepare_chunk c s (ivs s.seq) d

    same_chunk :
        chunk ≡ encrypt c (encryptor c ivs key chunk_size) (length chunks) (ivs (length chunks)) d
    same_chunk =
        prepare_chunk-encrypt c s (ivs s.seq) d (omega (arith, h.counted, few))
        ∙ ap (λ e. encrypt c e s.seq (ivs s.seq) d)
            (λ i. record { key = h.buffer.same_key i; chunk_size = h.buffer.same_chunk_size i })
        ∙ ap (λ n. encrypt c (encryptor c ivs key chunk_size) n (ivs n) d) h.counted

    all_bytes :
        parts s.sent ++ (s.stream.buf ++ chunk.bytes)
        ≡ stored_bytes (sealed c ivs key chunk_size (chunks ++ d ∷ []))
    all_bytes =
        sym (append_assoc (parts s.sent) s.stream.buf chunk.bytes)
        ∙ ap (λ l. l ++ chunk.bytes) h.buffer.sent_or_buffered
        ∙ ap (λ x. stored_bytes (sealed c ivs key chunk_size chunks) ++ x.bytes) same_chunk
        ∙ sym (joined-snoc (λ x. x.bytes) chunks d)

    buffer_fits : length s.stream.buf + length chunk.bytes < two64
    buffer_fits = omega (
      arith,
      small,
      ap length all_bytes,
      length-append (parts s.sent) (s.stream.buf ++ chunk.bytes),
      length-append s.stream.buf chunk.bytes,
    )

    -- The stream with the chunk in its buffer.
    abbrev filled : Stream
    filled = record s.stream {
      buf = s.stream.buf ++ chunk.bytes;
      buf_size = u64 (s.stream.buf_size + length chunk.bytes);
      total_data_size = u64 (s.stream.total_data_size + length chunk.bytes);
    }

    abbrev hashed_state : Streamer
    hashed_state = record s { checksums = s.checksums ++ chunk.hmac }

    abbrev filled_state : Streamer
    filled_state = record hashed_state { stream = filled }

    filled-IsBuffered : IsBuffered c ivs key chunk_size size (chunks ++ d ∷ []) filled_state
    filled-IsBuffered = record {
      same_key = h.buffer.same_key;
      same_chunk_size = h.buffer.same_chunk_size;
      same_size = h.buffer.same_size;
      buffered =
          u64-eq_of_lt _ (omega (arith, h.buffer.buffered, buffer_fits))
          ∙ omega (arith, h.buffer.buffered, length-append s.stream.buf chunk.bytes);
      unlimited = h.buffer.unlimited;
      hashed =
          ap (λ l. l ++ chunk.hmac) h.buffer.hashed
          ∙ ap (λ x. stored_hmacs (sealed c ivs key chunk_size chunks) ++ x.hmac) same_chunk
          ∙ sym (joined-snoc (λ x. x.hmac) chunks d);
      sent_or_buffered = all_bytes;
      numbered = h.buffer.numbered;
      next_number = h.buffer.next_number;
    }

    write_stream-filled : write_stream chunk.bytes hashed_state ≡ (filled_state, ok tt)
    unfolding write_stream ChunkBufferedStream.write
    write_stream-filled = rw h.buffer.unlimited

    -- The state after the chunk.
    pub next_state : Streamer
    unfolding count_chunk
    next_state = count_chunk d (drained filled_state)

    pub next-SameFile : SameFile s next_state
    unfolding next_state
    next-SameFile = record {
      same_uploaded = (drained-SameFile filled_state).same_uploaded;
      same_file_size = (drained-SameFile filled_state).same_file_size;
      same_request = (drained-SameFile filled_state).same_request;
      same_file = (drained-SameFile filled_state).same_file;
    }

    pub next-IsSending :
        length (flatten (chunks ++ d ∷ [])) < two64
        → IsSending c ivs key chunk_size size (chunks ++ d ∷ []) next_state
    unfolding next_state
    next-IsSending total =
        let b =
          drained-IsBuffered c ivs key chunk_size size (chunks ++ d ∷ []) some_size filled_state
            filled-IsBuffered in
        record {
          buffer = record {
            same_key = b.0.same_key;
            same_chunk_size = b.0.same_chunk_size;
            same_size = b.0.same_size;
            buffered = b.0.buffered;
            unlimited = b.0.unlimited;
            hashed = b.0.hashed;
            sent_or_buffered = b.0.sent_or_buffered;
            numbered = b.0.numbered;
            next_number = b.0.next_number;
          };
          counted =
              ap (λ n. u32 (n + 1)) ((drained-counts filled_state).0 ∙ h.counted)
              ∙ u32-eq_of_lt (length chunks + 1) few
              ∙ sym (length-append chunks (d ∷ []));
          processed =
              ap (λ n. u64 (n + length d)) ((drained-counts filled_state).1 ∙ h.processed)
              ∙ u64-eq_of_lt _ (omega (arith, total, more))
              ∙ sym more;
          less_than_one = b.1;
        }
      where
        more : length (flatten (chunks ++ d ∷ [])) ≡ length (flatten chunks) + length d
        more =
            ap length (flatten-append chunks (d ∷ []))
            ∙ length-append (flatten chunks) (flatten (d ∷ []))
            ∙ ap (λ l. length (flatten chunks) + length l) (append-nil d)

    pub prepare_and_send_chunk-next :
        length (flatten chunks) + length d ≤ s.file_size
        → s.file_size < two64
        → prepare_and_send_chunk c api ivs d s ≡ (next_state, ok tt)
    unfolding next_state prepare_and_send_chunk
    prepare_and_send_chunk-next fits k = rw not_too_much (
        >>-ok (write_stream chunk.bytes)
          (send_full_chunks_while_collected api >> modify (count_chunk d)) hashed_state
          write_stream-filled
        ∙ >>-ok (send_full_chunks_while_collected api) (modify (count_chunk d)) filled_state (
            send_full_chunks_while_collected-drained api a filled_state filled-IsBuffered.buffered
              (omega (arith, length-append s.stream.buf chunk.bytes, buffer_fits))))
      where
        not_too_much : ltb s.file_size (u64 (s.data_processed + length d)) ≡ false
        not_too_much =
            rw (h.processed, u64-eq_of_lt (length (flatten chunks) + length d) (omega arith))
              (ground arith)
