-- ===== src/Store/ChunkStreamer/Complete.antt =====
-- A whole upload: the chunks of a file, the last one, and the commit.
use privmx_endpoint.Common.State.{◌>>◌, >>-ok, >>=-ok}
use privmx_endpoint.Common.{
  if◌then◌else◌, ==_iff, Bool-cases, two64, u64, sub64-eq, ok, length, length-append, length-drop,
  take_all, drop_all, Bytes, substr-eq, substr_from-eq, ℕ, ◌-◌, ◌*◌, ◌<◌, min, ◌≡◌, refl, sym, ap,
  ◌∙◌, inl, inr, some, List, [], ◌∷◌, ◌++◌, append-nil, arith,
}
use privmx_endpoint.Store.Crypto.{Crypto}
use privmx_endpoint.Store.ChunkEncryptor.Sizes.{stored_bytes, stored_hmacs}
use privmx_endpoint.Store.ChunkBufferedStream.{
  Stream, get_number_of_full_chunks, read_chunk, is_empty,
}
use privmx_endpoint.Store.ChunkStreamer.{
  Streamer, ChunkModel, RequestApi, CommitFileModel, send_chunk_to_server,
  send_last_chunk_if_non_empty, commit_file, commit_request, commit_model, read_stream,
  send_full_chunks_while_collected,
}
use privmx_endpoint.Store.ChunkStreamer.Drain.{
  Accepts, push_part, drained, freed, cuts, send_chunk_to_server-push,
  send_full_chunks_while_collected-drained,
}
use privmx_endpoint.Store.ChunkStreamer.Upload.{parts, parts-append, sealed, IsBuffered}
use privmx_endpoint.Store.ChunkStreamer.Sending.{push-same, drained-IsBuffered}

module _ (c : Crypto) (ivs : ℕ → Bytes) (key : Bytes) (chunk_size size : ℕ) (api : RequestApi)
    (a : Accepts api) (some_size : 0 < size) (chunks : List Bytes) where
  -- The server holds the encryption of the chunks, and its commit names their tags.
  pub record IsCommitted (request_id : Bytes) (file_index : ℕ) (s : Streamer) : Type 0 where
    pub received : parts s.sent ≡ stored_bytes (sealed c ivs key chunk_size chunks)
    pub commit : CommitFileModel
    pub is_commit : s.committed ≡ some commit
    pub commit_checksum : commit.checksum ≡ stored_hmacs (sealed c ivs key chunk_size chunks)
    pub commit_seq : commit.seq ≡ u64 (length s.sent)
    pub commit_request_id : commit.request_id ≡ request_id
    pub commit_file_index : commit.file_index ≡ file_index

  -- The streamer without what is in its buffer.
  abbrev emptied : Streamer → Streamer
  emptied s = record s { stream = record s.stream { buf = []; buf_size = 0 } }

  last_state : Streamer → Streamer
  last_state s = if is_empty s.stream then s else push_part (emptied s) s.stream.buf

  read_chunk-all :
      (b : Stream)
      → b.buf_size ≡ length b.buf
      → length b.buf < b.chunk_size
      → length b.buf < two64
      → read_chunk b ≡ ok (record b { buf = []; buf_size = 0 }, b.buf)
  unfolding read_chunk
  read_chunk-all b e k fits =
      rw
        (
          substr-eq b.buf 0 b.chunk_size (omega arith),
          take_all b.chunk_size b.buf (omega arith),
          least,
          substr_from-eq b.buf (length b.buf) (omega arith),
          drop_all (length b.buf) b.buf (omega arith),
          sub64-eq b.buf_size (length b.buf) (omega (arith, e)) (omega (arith, e, fits)),
        )
        (λ i. ok (record b { buf = []; buf_size = none_left i }, b.buf))
    where
      least : min b.buf_size b.chunk_size ≡ length b.buf
      least = omega arith

      none_left : b.buf_size - length b.buf ≡ 0
      none_left = omega arith

  read_stream-emptied :
      (s : Streamer)
      → s.stream.buf_size ≡ length s.stream.buf
      → length s.stream.buf < s.stream.chunk_size
      → length s.stream.buf < two64
      → read_stream s ≡ (emptied s, ok s.stream.buf)
  unfolding read_stream
  read_stream-emptied s e k fits = rw (read_stream, read_chunk-all s.stream e k fits) refl

  send_last-state :
      (s : Streamer)
      → s.stream.buf_size ≡ length s.stream.buf
      → length s.stream.buf < s.stream.chunk_size
      → length s.stream.buf < two64
      → send_last_chunk_if_non_empty api s ≡ (last_state s, ok tt)
  unfolding last_state send_last_chunk_if_non_empty
  send_last-state s e k fits = elim (Bool-cases (is_empty s.stream)) [
    | inl t ↦ rw t refl
    | inr f ↦ rw f (
        >>=-ok read_stream (send_chunk_to_server api) s (read_stream-emptied s e k fits)
        ∙ send_chunk_to_server-push api a s.stream.buf (emptied s))
  ]

  -- What has been sent by then is everything.
  last-parts :
      (s : Streamer)
      → s.stream.buf_size ≡ length s.stream.buf
      → parts (last_state s).sent ≡ parts s.sent ++ s.stream.buf
  unfolding last_state push_part is_empty
  last-parts s e = elim (Bool-cases (is_empty s.stream)) [
    | inl t ↦ rw t (
        sym (append-nil (parts s.sent))
        ∙ ap (λ l. parts s.sent ++ l)
            (sym (nothing (omega (arith, e, (==_iff s.stream.buf_size 0).0 t)))))
    | inr f ↦ rw f (parts-append s.sent _ ∙ ap (λ l. parts s.sent ++ l) (append-nil s.stream.buf))
  ]
    where
      nothing : length s.stream.buf ≡ 0 → s.stream.buf ≡ []
      nothing z = sym (take_all 0 s.stream.buf (omega arith))

  committed_state : Streamer → Streamer
  committed_state s = record s { committed = some (commit_model s) }

  commit_request-state : (s : Streamer) → commit_request api s ≡ (committed_state s, ok tt)
  unfolding commit_request committed_state
  commit_request-state s = rw (commit_request, a.accepts_commit (commit_model s)) refl

  -- The streamer after the commit.
  pub complete_state : Streamer → Streamer
  complete_state s = committed_state (last_state (drained s))

  drained-origin :
      (s : Streamer)
      → ((drained s).request_id ≡ s.request_id) × ((drained s).file_index ≡ s.file_index)
  unfolding drained
  drained-origin s = rw (push-same s (cuts s.stream.chunk_size s.stream.buf _ 0)) (refl, refl)

  -- What the last request leaves alone.
  last-origin :
      (s : Streamer)
      → ((last_state s).request_id ≡ s.request_id)
        × ((last_state s).file_index ≡ s.file_index)
        × ((last_state s).checksums ≡ s.checksums)
  unfolding last_state push_part
  last-origin s = elim (Bool-cases (is_empty s.stream)) [
    | inl t ↦ rw t (refl, refl, refl)
    | inr f ↦ rw f (refl, refl, refl)
  ]

  last-number :
      (s : Streamer)
      → s.server_seq ≡ u64 (length s.sent)
      → (last_state s).server_seq ≡ u64 (length (last_state s).sent)
  unfolding last_state push_part u64
  last-number s e = elim (Bool-cases (is_empty s.stream)) [
    | inl t ↦ rw t e
    | inr f ↦ rw f (omega (arith, e, length-append s.sent (pushed ∷ [])))
  ]
    where
      pushed : ChunkModel
      pushed = record {
        request_id = s.request_id;
        file_index = s.file_index;
        seq = s.server_seq;
        part = s.stream.buf;
      }

  module _ (s : Streamer) (h : IsBuffered c ivs key chunk_size size chunks s)
      (fits : length s.stream.buf < two64) where
    rest :
        IsBuffered c ivs key chunk_size size chunks (drained s)
        × (length (drained s).stream.buf < size)
    rest = drained-IsBuffered c ivs key chunk_size size chunks some_size s h

    rest_fits : length (drained s).stream.buf < two64
    unfolding drained freed
    rest_fits = omega (
      arith,
      length-drop (s.stream.chunk_size * get_number_of_full_chunks s.stream) s.stream.buf,
      fits,
    )

    pub commit_file_complete : commit_file api s ≡ (complete_state s, ok tt)
    unfolding commit_file complete_state
    commit_file_complete =
        >>-ok (send_full_chunks_while_collected api)
          (send_last_chunk_if_non_empty api >> commit_request api) s
          (send_full_chunks_while_collected-drained api a s h.buffered fits)
        ∙ >>-ok (send_last_chunk_if_non_empty api) (commit_request api) (drained s) (
            send_last-state (drained s) rest.0.buffered (omega (arith, rest.1, rest.0.same_size))
              rest_fits)
        ∙ commit_request-state (last_state (drained s))

    pub complete-IsCommitted :
        (request_id : Bytes) (file_index : ℕ)
        → s.request_id ≡ request_id
        → s.file_index ≡ file_index
        → IsCommitted request_id file_index (complete_state s)
    unfolding complete_state committed_state commit_model
    complete-IsCommitted request_id file_index r f = record {
      received = last-parts (drained s) rest.0.buffered ∙ rest.0.sent_or_buffered;
      commit = commit_model (last_state (drained s));
      is_commit = refl;
      commit_checksum = (last-origin (drained s)).2 ∙ rest.0.hashed;
      commit_seq = last-number (drained s) rest.0.next_number;
      commit_request_id = (last-origin (drained s)).0 ∙ (drained-origin s).0 ∙ r;
      commit_file_index = (last-origin (drained s)).1 ∙ (drained-origin s).1 ∙ f;
    }
