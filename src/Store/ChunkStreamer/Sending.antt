-- ===== src/Store/ChunkStreamer/Sending.antt =====
-- Draining the buffer keeps what has been sent and what is buffered together.
use native.Mathlib.Nat.{mul-div-le, lt-mul-div-succ}
use mathlib.Core.Path.{subst}
use privmx_endpoint.Common.{
  u64, length, drop, flatten, length-append, length-drop, Bytes, ℕ, zero, suc, ◌+◌, ◌*◌, ◌≤◌, ◌<◌,
  ◌≡◌, refl, sym, ap, ◌∙◌, List, [], ◌∷◌, ◌++◌, append-nil, append_assoc, arith, length-slice,
}
use privmx_endpoint.Store.ChunkBufferedStream.{get_number_of_full_chunks}
use privmx_endpoint.Store.Crypto.{Crypto}
use privmx_endpoint.Store.ChunkStreamer.{Streamer}
use privmx_endpoint.Store.ChunkStreamer.Drain.{
  push_part, push_parts, cuts, flatten-cuts-drop, drained, freed,
}
use privmx_endpoint.Store.ChunkStreamer.Upload.{
  parts, parts-append, AreNumbered, AreNumbered-snoc, IsBuffered,
}

parts-push :
    (s : Streamer) (ds : List Bytes) → parts (push_parts s ds).sent ≡ parts s.sent ++ flatten ds
unfolding push_parts push_part
parts-push s [] = sym (append-nil (parts s.sent))
parts-push s (d ∷ ds) =
    parts-push (push_part s d) ds
    ∙ ap (λ l. l ++ flatten ds) (parts-append s.sent _ ∙ ap (λ l. parts s.sent ++ l) (append-nil d))
    ∙ append_assoc (parts s.sent) d (flatten ds)

-- Every list has the length given.
abbrev AllLong : ℕ → List Bytes → Type 0
AllLong size [] = Unit {0}
AllLong size (d ∷ ds) = (length d ≡ size) × AllLong size ds

cuts-long :
    (size : ℕ) (buf : Bytes) (rounds i : ℕ)
    → size * (i + rounds) ≤ length buf
    → AllLong size (cuts size buf rounds i)
unfolding cuts
cuts-long size buf zero i h = tt
cuts-long size buf (suc rounds) i h = (
  omega (arith, length-slice (size * i) size buf),
  cuts-long size buf rounds (i + 1) (omega arith),
)

push-numbered :
    (size : ℕ) (s : Streamer) (ds : List Bytes)
    → AreNumbered size 0 s.sent
    → s.server_seq ≡ u64 (length s.sent)
    → AllLong size ds
    → AreNumbered size 0 (push_parts s ds).sent
      × ((push_parts s ds).server_seq ≡ u64 (length (push_parts s ds).sent))
unfolding push_parts push_part
push-numbered size s [] h e l = (h, e)
push-numbered size s (d ∷ ds) h e l =
    push-numbered size (push_part s d) ds
      (AreNumbered-snoc size 0 s.sent _ h (e ∙ ap u64 (omega arith)) l.0)
      (ap (λ n. u64 (n + 1)) e ∙ next (length s.sent) ∙ ap u64 (sym (length-append s.sent _))) l.1
  where
    next : (n : ℕ) → u64 (u64 n + 1) ≡ u64 (n + 1)
    next n = unfold u64 in omega arith

-- Only the requests and their number change.
pub push-same :
    (s : Streamer) (ds : List Bytes)
    → push_parts s ds
      ≡ record s { server_seq = (push_parts s ds).server_seq; sent = (push_parts s ds).sent }
unfolding push_parts push_part
push-same s [] = refl
push-same s (d ∷ ds) = push-same (push_part s d) ds

module _ (c : Crypto) (ivs : ℕ → Bytes) (key : Bytes) (chunk_size size : ℕ) (chunks : List Bytes)
    (some_size : 0 < size) where
  pub drained-IsBuffered :
      (s : Streamer)
      → IsBuffered c ivs key chunk_size size chunks s
      → IsBuffered c ivs key chunk_size size chunks (drained s)
        × (length (drained s).stream.buf < size)
  unfolding drained freed
  drained-IsBuffered s h = (
    rw same (record {
      same_key = h.same_key;
      same_chunk_size = h.same_chunk_size;
      same_size = h.same_size;
      buffered = omega (arith, h.buffered, length-drop full s.stream.buf);
      unlimited = h.unlimited;
      hashed = h.hashed;
      sent_or_buffered =
          ap (λ l. l ++ drop full s.stream.buf) (parts-push s ds)
          ∙ append_assoc (parts s.sent) (flatten ds) (drop full s.stream.buf)
          ∙ ap (λ l. parts s.sent ++ l) (flatten-cuts-drop s.stream.chunk_size s.stream.buf n)
          ∙ h.sent_or_buffered;
      numbered = (push-numbered size s ds h.numbered h.next_number long).0;
      next_number = (push-numbered size s ds h.numbered h.next_number long).1;
    }),
    omega (arith, h.buffered, h.same_size, length-drop full s.stream.buf, below),
  )
    where
      n : ℕ
      n = get_number_of_full_chunks s.stream

      full : ℕ
      full = s.stream.chunk_size * n

      ds : List Bytes
      ds = cuts s.stream.chunk_size s.stream.buf n 0

      below : s.stream.buf_size < full + s.stream.chunk_size
      below =
          unfold get_number_of_full_chunks in
          omega (
            arith,
            lt-mul-div-succ s.stream.buf_size {b = s.stream.chunk_size}
                (omega (arith, h.same_size, some_size)),
          )

      fits : full ≤ length s.stream.buf
      fits =
          unfold get_number_of_full_chunks in
          omega (arith, h.buffered, mul-div-le s.stream.buf_size s.stream.chunk_size)

      same :
          push_parts s ds
          ≡ record s { server_seq = (push_parts s ds).server_seq; sent = (push_parts s ds).sent }
      same = push-same s ds

      long : AllLong size ds
      long =
          subst (λ z. AllLong z ds) h.same_size
            (cuts-long s.stream.chunk_size s.stream.buf n 0 (omega (arith, fits)))
