-- ===== src/Store/ChunkStreamer/Whole.antt =====
-- A whole upload: full chunks one by one, then the last one, which may be shorter or empty.
use mathlib.Core.Path.{subst}
use privmx_endpoint.Common.State.{M, ◌>>◌, pure, modify, >>-ok}
use privmx_endpoint.Common.{
  ◌==◌, if◌then◌else◌, ==_iff, two32, two64, u64, u64-eq_of_lt, ok, length, flatten, length-append,
  flatten-append, Bytes, ℕ, ◌+◌, ◌≤◌, ◌<◌, ◌≡◌, refl, sym, ap, ◌∙◌, List, [], ◌∷◌, ◌++◌, append-nil,
  append_assoc, arith,
}
use privmx_endpoint.Store.Crypto.{Crypto}
use privmx_endpoint.Store.ChunkEncryptor.Sizes.{encrypt_all, stored_bytes}
use privmx_endpoint.Store.ChunkStreamer.{
  Streamer, RequestApi, start, set_request_data, send_chunk, count_uploaded, prepare_and_send_chunk,
}
use privmx_endpoint.Store.ChunkStreamer.Drain.{Accepts}
use privmx_endpoint.Store.ChunkStreamer.Upload.{sealed, IsSending}
use privmx_endpoint.Store.ChunkStreamer.Steps.{
  SameFile, joined-snoc, next_state, next-SameFile, next-IsSending, prepare_and_send_chunk-next,
}

-- The calls for a list of full chunks.
unfoldable pub send_chunks : Crypto → RequestApi → (ℕ → Bytes) → List Bytes → M Streamer (Unit {0})
send_chunks c api ivs [] = pure tt
send_chunks c api ivs (d ∷ ds) = send_chunk c api ivs d >> send_chunks c api ivs ds

-- Every chunk has the chunk's size.
abbrev pub AreFull : ℕ → List Bytes → Type 0
AreFull chunk_size [] = Unit {0}
AreFull chunk_size (d ∷ ds) = (length d ≡ chunk_size) × AreFull chunk_size ds

-- The chunks of a file: an empty last one is none.
abbrev pub with_last : List Bytes → Bytes → List Bytes
with_last chunks d = if length d == 0 then chunks else chunks ++ d ∷ []

module _ (c : Crypto) (ivs : ℕ → Bytes) (key : Bytes) (chunk_size size : ℕ) (api : RequestApi)
    (a : Accepts api) (some_size : 0 < size) (file_size : ℕ) (k : file_size < two64)
    (request_id : Bytes) (file_index : ℕ) where
  abbrev pub stored : List Bytes → ℕ
  stored chunks = length (stored_bytes (sealed c ivs key chunk_size chunks))

  -- The state of an upload of a file after some chunks.
  pub record IsUploading (chunks : List Bytes) (s : Streamer) : Type 0 where
    pub sending : IsSending c ivs key chunk_size size chunks s
    pub same_file_size : s.file_size ≡ file_size
    pub same_request : s.request_id ≡ request_id
    pub same_file : s.file_index ≡ file_index
    pub uploaded : s.uploaded_file_size ≡ length (flatten chunks)

  pub stored-snoc : (chunks : List Bytes) (d : Bytes) → stored chunks ≤ stored (chunks ++ d ∷ [])
  stored-snoc chunks d = omega (
    arith,
    ap length (joined-snoc c ivs key chunk_size size api a some_size (λ x. x.bytes) chunks d),
    length-append (stored_bytes (sealed c ivs key chunk_size chunks)) _,
  )

  stored-prefix : (xs ys : List Bytes) → stored xs ≤ stored (xs ++ ys)
  stored-prefix xs [] = omega (arith, ap stored (append-nil xs))
  stored-prefix xs (y ∷ ys) = omega (
    arith,
    stored-snoc xs y,
    stored-prefix (xs ++ y ∷ []) ys,
    ap stored (append_assoc xs (y ∷ []) ys),
  )

  pub flatten-snoc :
      (chunks : List Bytes) (d : Bytes)
      → length (flatten (chunks ++ d ∷ [])) ≡ length (flatten chunks) + length d
  flatten-snoc chunks d =
      ap length (flatten-append chunks (d ∷ []))
      ∙ length-append (flatten chunks) (flatten (d ∷ []))
      ∙ ap (λ l. length (flatten chunks) + length l) (append-nil d)

  pub count-IsSending :
      (chunks : List Bytes) (d : Bytes) (s : Streamer)
      → IsSending c ivs key chunk_size size chunks s
      → IsSending c ivs key chunk_size size chunks (count_uploaded d s)
  unfolding count_uploaded
  count-IsSending chunks d s h = record {
    buffer = record {
      same_key = h.buffer.same_key;
      same_chunk_size = h.buffer.same_chunk_size;
      same_size = h.buffer.same_size;
      buffered = h.buffer.buffered;
      unlimited = h.buffer.unlimited;
      hashed = h.buffer.hashed;
      sent_or_buffered = h.buffer.sent_or_buffered;
      numbered = h.buffer.numbered;
      next_number = h.buffer.next_number;
    };
    counted = h.counted;
    processed = h.processed;
    less_than_one = h.less_than_one;
  }

  module _ (chunks : List Bytes) (d : Bytes) (s : Streamer) (h : IsUploading chunks s)
      (few : length chunks + 1 < two32) (small : stored (chunks ++ d ∷ []) < two64)
      (fits : length (flatten chunks) + length d ≤ file_size) where
    pub counted : IsSending c ivs key chunk_size size chunks (count_uploaded d s)
    counted = count-IsSending chunks d s h.sending

    unfoldable pub after : Streamer
    unfolding count_uploaded
    after =
        next_state c ivs key chunk_size size api a some_size chunks d (count_uploaded d s) counted
          few small

    pub prepare-after : prepare_and_send_chunk c api ivs d (count_uploaded d s) ≡ (after, ok tt)
    unfolding after count_uploaded
    prepare-after =
        prepare_and_send_chunk-next c ivs key chunk_size size api a some_size chunks d
          (count_uploaded d s) counted few small (omega (arith, h.same_file_size, fits))
          (omega (arith, h.same_file_size, k))

    pub after-IsUploading : IsUploading (chunks ++ d ∷ []) after
    unfolding after count_uploaded
    after-IsUploading = record {
      sending =
          next-IsSending c ivs key chunk_size size api a some_size chunks d (count_uploaded d s)
            counted few small (omega (arith, flatten-snoc chunks d, fits, k));
      same_file_size = same.same_file_size ∙ h.same_file_size;
      same_request = same.same_request ∙ h.same_request;
      same_file = same.same_file ∙ h.same_file;
      uploaded =
          same.same_uploaded
          ∙ ap (λ n. u64 (n + length d)) h.uploaded
          ∙ u64-eq_of_lt _ (omega (arith, fits, k))
          ∙ sym (flatten-snoc chunks d);
    }
      where
        same : SameFile (count_uploaded d s) after
        same =
            next-SameFile c ivs key chunk_size size api a some_size chunks d (count_uploaded d s)
              counted few small

    send_chunk-after : length d ≡ chunk_size → send_chunk c api ivs d s ≡ (after, ok tt)
    unfolding send_chunk
    send_chunk-after e =
        rw ((==_iff (length d) s.chunk_size).1 (omega (arith, e, h.sending.buffer.same_chunk_size)))
          (>>-ok (modify (count_uploaded d)) (prepare_and_send_chunk c api ivs d) s refl
            ∙ prepare-after)

  -- The chunks of a list, one after another.
  pub send_chunks-IsUploading :
      (ds chunks : List Bytes) (s : Streamer)
      → IsUploading chunks s
      → AreFull chunk_size ds
      → length (chunks ++ ds) < two32
      → stored (chunks ++ ds) < two64
      → length (flatten (chunks ++ ds)) ≤ file_size
      → (t : Streamer) × (send_chunks c api ivs ds s ≡ (t, ok tt)) × IsUploading (chunks ++ ds) t
  unfolding send_chunks
  send_chunks-IsUploading [] chunks s h f n m t =
      (s, refl, subst (λ l. IsUploading l s) (sym (append-nil chunks)) h)
  send_chunks-IsUploading (d ∷ ds) chunks s h f n m t =
      let r =
        send_chunks-IsUploading ds (chunks ++ d ∷ []) (after chunks d s h few small fits)
          (after-IsUploading chunks d s h few small fits) f.1 (omega (arith, n, ap length assoc))
          (omega (arith, m, ap stored assoc))
          (omega (arith, t, ap (λ l. length (flatten l)) assoc)) in
      (
        r.0,
        >>-ok (send_chunk c api ivs d) (send_chunks c api ivs ds) s
              (send_chunk-after chunks d s h few small fits f.0)
            ∙ r.1,
        subst (λ l. IsUploading l r.0) assoc r.2,
      )
    where
      assoc : (chunks ++ d ∷ []) ++ ds ≡ chunks ++ d ∷ ds
      assoc = append_assoc chunks (d ∷ []) ds

      few : length chunks + 1 < two32
      few = omega (arith, n, length-append chunks (d ∷ ds))

      small : stored (chunks ++ d ∷ []) < two64
      small = omega (arith, m, stored-prefix (chunks ++ d ∷ []) ds, ap stored assoc)

      fits : length (flatten chunks) + length d ≤ file_size
      fits = omega (
        arith,
        t,
        ap length (flatten-append chunks (d ∷ ds)),
        length-append (flatten chunks) (d ++ flatten ds),
        length-append d (flatten ds),
      )

  -- The request after it has been set up.
  abbrev pub opened : Streamer
  opened = set_request_data (start chunk_size file_size size) request_id key file_index

  pub opened-IsUploading : IsUploading [] opened
  unfolding start set_request_data encrypt_all u64
  opened-IsUploading = record {
    sending = record {
      buffer = record {
        same_key = refl;
        same_chunk_size = refl;
        same_size = refl;
        buffered = refl;
        unlimited = refl;
        hashed = refl;
        sent_or_buffered = refl;
        numbered = tt;
        next_number = refl;
      };
      counted = refl;
      processed = refl;
      less_than_one = some_size;
    };
    same_file_size = refl;
    same_request = refl;
    same_file = refl;
    uploaded = refl;
  }
