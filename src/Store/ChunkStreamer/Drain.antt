-- ===== src/Store/ChunkStreamer/Drain.antt =====
-- What the streamer sends from its buffer: the full chunks, in order, and nothing is lost.
use native.Mathlib.Nat.{mul-div-le}
use privmx_endpoint.Common.State.{◌>>◌, lift, pure, >>=-ok, >>-ok}
use privmx_endpoint.Common.{
  ltb, if◌then◌else◌, Bool-cases, two64, u64, u64-eq_of_lt, sub64-eq, ok, length, take, drop,
  flatten, take-append-drop, drop-drop, take-add, Bytes, substr-eq, substr_from-eq, ℕ, zero, suc,
  ◌+◌, ◌-◌, ◌*◌, ◌/◌, ◌≤◌, ◌<◌, ◌≡◌, refl, sym, ap, ◌∙◌, ◌⊎◌, inl, inr, true, false, List, [], ◌∷◌,
  ◌++◌, arith, slice,
}
use privmx_endpoint.Store.ChunkBufferedStream.{
  Stream, get_number_of_full_chunks, get_full_chunk, free_full_chunks,
}
use privmx_endpoint.Store.ChunkStreamer.{
  Streamer, ChunkModel, RequestApi, CommitFileModel, send_chunk_to_server, send_full_chunks,
  free_stream, send_full_chunks_while_collected,
}

-- A server that accepts every request.
pub record Accepts (api : RequestApi) : Type 0 where
  pub accepts_chunk : (m : ChunkModel) → api.send_chunk m ≡ ok tt
  pub accepts_commit : (m : CommitFileModel) → api.commit_file m ≡ ok tt

-- The streamer after the server has accepted a chunk, and a list of chunks.
unfoldable pub push_part : Streamer → Bytes → Streamer
push_part s d = record s {
  server_seq = u64 (s.server_seq + 1);
  sent =
      s.sent
      ++ record {
        request_id = s.request_id;
        file_index = s.file_index;
        seq = s.server_seq;
        part = d;
      }
        ∷ [];
}

unfoldable pub push_parts : Streamer → List Bytes → Streamer
push_parts s [] = s
push_parts s (d ∷ ds) = push_parts (push_part s d) ds

-- The chunks of a buffer from number `i` on.
unfoldable pub cuts : ℕ → Bytes → ℕ → ℕ → List Bytes
cuts size buf zero i = []
cuts size buf (suc rounds) i = slice (size * i) size buf ∷ cuts size buf rounds (i + 1)

flatten-cuts :
    (size : ℕ) (buf : Bytes) (rounds i : ℕ)
    → flatten (cuts size buf rounds i) ≡ slice (size * i) (size * rounds) buf
unfolding cuts
flatten-cuts size buf zero i = sym (ap (λ t. slice (size * i) t buf) {y = 0} (omega arith))
flatten-cuts size buf (suc rounds) i = rw (flatten-cuts size buf rounds (i + 1)) (
    sym (
      ap (λ t. slice (size * i) t buf) {y = size + size * rounds} (omega arith)
      ∙ take-add size (size * rounds) (drop (size * i) buf)
      ∙ ap (λ l. slice (size * i) size buf ++ take (size * rounds) l)
          (drop-drop size (size * i) buf ∙ ap (λ t. drop t buf) (omega arith))))

-- The full chunks and what is left make the buffer.
pub flatten-cuts-drop :
    (size : ℕ) (buf : Bytes) (n : ℕ) → flatten (cuts size buf n 0) ++ drop (size * n) buf ≡ buf
flatten-cuts-drop size buf n =
    ap (λ l. l ++ drop (size * n) buf)
      (flatten-cuts size buf n 0 ∙ ap (λ t. slice t (size * n) buf) {y = 0} (omega arith))
    ∙ take-append-drop (size * n) buf

-- The buffer without its full chunks.
unfoldable pub freed : Stream → Stream
unfolding get_number_of_full_chunks
freed b = record b {
  buf = drop (b.chunk_size * get_number_of_full_chunks b) b.buf;
  buf_size = b.buf_size - b.chunk_size * get_number_of_full_chunks b;
}

-- The streamer after its full chunks have been sent.
unfoldable pub drained : Streamer → Streamer
unfolding push_parts cuts
drained s =
    record (push_parts s
      (cuts s.stream.chunk_size s.stream.buf (get_number_of_full_chunks s.stream) 0)) {
        stream = freed s.stream;
      }

module _ (api : RequestApi) (a : Accepts api) where
  pub send_chunk_to_server-push :
      (d : Bytes) (s : Streamer) → send_chunk_to_server api d s ≡ (push_part s d, ok tt)
  unfolding send_chunk_to_server push_part
  send_chunk_to_server-push d s = rw (send_chunk_to_server, a.accepts_chunk _)

  send_full_chunks-push :
      (b : Stream) (rounds i : ℕ) (s : Streamer)
      → b.chunk_size * (i + rounds) ≤ length b.buf
      → length b.buf < two64
      → send_full_chunks api b rounds i s ≡ (push_parts s (cuts b.chunk_size b.buf rounds i), ok tt)
  unfolding send_full_chunks push_parts cuts get_full_chunk
  send_full_chunks-push b zero i s h k = refl
  send_full_chunks-push b (suc rounds) i s h k =
      >>=-ok (lift (get_full_chunk b i))
        (λ d. send_chunk_to_server api d >> send_full_chunks api b rounds (i + 1)) s
        (rw (
          u64-eq_of_lt (b.chunk_size * i) (omega arith),
          substr-eq b.buf (b.chunk_size * i) b.chunk_size (omega arith),
        ))
      ∙ >>-ok (send_chunk_to_server api (slice (b.chunk_size * i) b.chunk_size b.buf))
          (send_full_chunks api b rounds (i + 1)) s
          (send_chunk_to_server-push (slice (b.chunk_size * i) b.chunk_size b.buf) s)
      ∙ send_full_chunks-push b rounds (i + 1)
          (push_part s (slice (b.chunk_size * i) b.chunk_size b.buf)) (omega arith) k

  push_parts-stream : (s : Streamer) (ds : List Bytes) → (push_parts s ds).stream ≡ s.stream
  unfolding push_parts push_part
  push_parts-stream s [] = refl
  push_parts-stream s (d ∷ ds) = push_parts-stream (push_part s d) ds

  free_full_chunks-freed :
      (b : Stream)
      → b.buf_size ≡ length b.buf
      → length b.buf < two64
      → free_full_chunks b ≡ ok (freed b)
  unfolding free_full_chunks freed
  free_full_chunks-freed b e k =
      rw (u64-eq_of_lt full (omega (arith, fits)), substr_from-eq b.buf full fits)
        (ap (λ t. ok (record b { buf = drop full b.buf; buf_size = t }))
          (sub64-eq b.buf_size full (omega (arith, fits)) (omega arith)))
    where
      full : ℕ
      full = b.chunk_size * (b.buf_size / b.chunk_size)

      fits : full ≤ length b.buf
      fits = omega (arith, mul-div-le b.buf_size b.chunk_size)

  free_stream_ok :
      (t : Streamer) (b b' : Stream)
      → t.stream ≡ b
      → free_full_chunks b ≡ ok b'
      → free_stream t ≡ (record t { stream = b' }, ok tt)
  unfolding free_stream
  free_stream_ok t b b' e f = rw (free_stream, freed_here)
    where
      freed_here : free_full_chunks t.stream ≡ ok b'
      freed_here = ap free_full_chunks e ∙ f

  freed-none : (b : Stream) → get_number_of_full_chunks b ≡ 0 → b ≡ freed b
  unfolding freed
  freed-none b e i = record b { buf = drop (nothing i) b.buf; buf_size = same i }
    where
      nothing : 0 ≡ b.chunk_size * get_number_of_full_chunks b
      nothing = rw e (omega arith)

      same : b.buf_size ≡ b.buf_size - b.chunk_size * get_number_of_full_chunks b
      same = omega (arith, nothing)

  -- Where the server accepts every request and the buffer's size is its length, below 2^64, the
  -- streamer sends the full chunks of its buffer in order and keeps the rest of it.
  pub send_full_chunks_while_collected-drained :
      (s : Streamer)
      → s.stream.buf_size ≡ length s.stream.buf
      → length s.stream.buf < two64
      → send_full_chunks_while_collected api s ≡ (drained s, ok tt)
  unfolding send_full_chunks_while_collected drained
  send_full_chunks_while_collected-drained s e k =
      >>-ok (send_full_chunks api s.stream n 0) (if ltb 0 n then free_stream else pure tt) s
        (send_full_chunks-push s.stream n 0 s fits k)
      ∙ free (Bool-cases (ltb 0 n))
    where
      n : ℕ
      n = get_number_of_full_chunks s.stream

      fits : s.stream.chunk_size * (0 + n) ≤ length s.stream.buf
      fits =
          unfold get_number_of_full_chunks in
          omega (arith, mul-div-le s.stream.buf_size s.stream.chunk_size)

      sent : Streamer
      sent = push_parts s (cuts s.stream.chunk_size s.stream.buf n 0)

      same_stream : sent.stream ≡ s.stream
      same_stream = push_parts-stream s (cuts s.stream.chunk_size s.stream.buf n 0)

      free :
          (ltb 0 n ≡ true) ⊎ (ltb 0 n ≡ false)
          → (if ltb 0 n then free_stream else pure tt) sent ≡ (drained s, ok tt)
      free (inl some_full) = rw some_full (
          free_stream_ok sent s.stream (freed s.stream) same_stream
            (free_full_chunks-freed s.stream e k))
      free (inr none_full) = rw none_full (λ i. (
        record sent { stream = (same_stream ∙ freed-none s.stream (ground (arith, none_full))) i },
        ok tt,
      ))
