-- ===== src/Store/RandomWrite/Chunks.antt =====
-- The loop of write over the chunks makes the encrypted chunks of the written plaintext.
use privmx_endpoint.Common.{
  ◌==◌, if◌then◌else◌, ok, length, Bytes, substr, substr-eq, ℕ, zero, suc, ◌+◌, ◌-◌, ◌%◌, ◌≤◌, ◌≡◌,
  refl, sym, ap, ◌∙◌, inl, Bool, false, List, [], ◌∷◌, arith,
}
use privmx_endpoint.Store.Crypto.{Crypto}
use privmx_endpoint.Store.ChunkEncryptor.{encrypt}
use privmx_endpoint.Store.ChunkDataProvider.{Server, Provider}
use privmx_endpoint.Store.ChunkDataProvider.Coherence.{mul-le}
use privmx_endpoint.Store.ChunkDataProvider.Update.{written}
use privmx_endpoint.Store.ChunkReader.Refinement.{StoredFile, IsStored, plain_chunk}
use privmx_endpoint.Store.UpdateChanges.{UpdateChunkData}
use privmx_endpoint.Store.RandomWrite.{
  FileHandler, size_change, create_update_chunk, write_chunks, with_provider,
}
use privmx_endpoint.Store.RandomWrite.Patching.{IsTight, IsHeld, create_update_chunk-written}
use privmx_endpoint.Store.RandomWrite.Rounds.{
  Spans, Reached, place, piece, chunk_offset_eq, room_eq, done_inside, place_in_chunk, length-piece,
  place_inside, chunk_content, next-Reached,
}

-- The changed chunk `i`: encrypted under its vector, with the change of the file's size that it makes.
pub record IsMade (c : Crypto) (f f' : StoredFile) (ivs : ℕ → Bytes) (stop : ℕ) (truncate : Bool)
    (i : ℕ) (u : UpdateChunkData) : Type 0 where
  pub inside : i ≤ stop
  pub index : u.chunk_index ≡ i
  pub chunk : u.chunk ≡ encrypt c f.encryptor i (ivs i) (plain_chunk f' i)
  pub change :
      u.plainfile_size_change
      ≡ size_change f.encryptor.chunk_size i
          (length (plain_chunk f' i))
          (length (plain_chunk f i))
          (length f.plain)
          (if i == stop then truncate else false)

-- The changed chunks with the indices from `i` up to `stop`, as the file `f` becomes `f'`.
abbrev pub AreMade :
    Crypto → StoredFile → StoredFile → (ℕ → Bytes) → ℕ → Bool → ℕ → List UpdateChunkData → Type 0
AreMade c f f' ivs stop truncate i [] = i ≡ stop + 1
AreMade c f f' ivs stop truncate i (u ∷ us) =
    IsMade c f f' ivs stop truncate i u × AreMade c f f' ivs stop truncate (i + 1) us

-- The file whose plaintext has the text written in.
abbrev pub with_text : StoredFile → ℕ → Bytes → Bool → StoredFile
with_text f offset to_send truncate = record f { plain = written f.plain offset to_send truncate }

module _ (c : Crypto) (server : Server) (f : StoredFile) (stored : IsStored c f) (tight : IsTight f)
    (ivs : ℕ → Bytes) (n offset start stop : ℕ) (to_send : Bytes) (truncate : Bool)
    (v : Spans f n offset start stop to_send) where
  Made : ℕ → ℕ → ℕ → FileHandler → Type 0
  Made rounds i d h =
      (p : Provider) × (us : List UpdateChunkData) × (write_chunks c server ivs offset start stop
          to_send truncate rounds i d h
        ≡ (with_provider h p, ok us))
      × AreMade c f (with_text f offset to_send truncate) ivs stop truncate i us
      × IsHeld server f n (with_provider h p)

  -- A round whose calls succeed, and the rest.
  round_eq :
      (rounds i d : ℕ) (h h' : FileHandler) (at room : ℕ) (text : Bytes) (p : Provider)
      (u : UpdateChunkData) (us : List UpdateChunkData)
      → (if i == start then offset % h.files.encryptor.chunk_size else 0) ≡ at
      → (if i == start
          then h.plain_chunk_size - offset % h.plain_chunk_size
          else h.plain_chunk_size)
        ≡ room
      → substr to_send d room ≡ ok text
      → create_update_chunk c server h (ivs i) i at text (if i == stop then truncate else false)
        ≡ (p, ok u)
      → write_chunks c server ivs offset start stop to_send truncate rounds
          (i + 1)
          (d + length text)
          (with_provider h p)
        ≡ (h', ok us)
      → write_chunks c server ivs offset start stop to_send truncate (suc rounds) i d h
        ≡ (h', ok (u ∷ us))
  unfolding write_chunks
  round_eq rounds i d h h' at room text p u us e1 e2 e3 e4 e5 =
      rw (write_chunks, e2, e3, e1, e4, e1, e4, e5) refl

  write_chunks_step :
      (rounds i d : ℕ) (h : FileHandler)
      → i ≤ stop
      → (reached : Reached f n offset start stop to_send truncate v i d) → IsHeld server f n h
      → ((h' : FileHandler)
          → IsHeld server f n h'
          → Made rounds
              (i + 1)
              (d + length (piece f n offset start stop to_send truncate v i d))
              h')
      → Made (suc rounds) i d h
  unfolding Made
  write_chunks_step rounds i d h last reached o rest =
      let (p, u, e, index, chunk, change, o') =
        create_update_chunk-written c server f stored tight n h i o (omega (arith, v.few))
          (omega (arith, v.asked, mul-le f.encrypted_size i stop last)) (ivs i)
          (place f n offset start stop to_send truncate v i d)
          (piece f n offset start stop to_send truncate v i d)
          (if i == stop then truncate else false)
          (place_in_chunk f n offset start stop to_send truncate v i d reached last)
          (omega (
            arith,
            length-piece f n offset start stop to_send truncate v i d reached last,
            place_inside f n offset start stop to_send truncate v i d reached last,
          ))
          v.in_words in
      let content = chunk_content f n offset start stop to_send truncate v i d reached last in
      let (p', us, e', made, o'') = rest (with_provider h p) o' in
      (
        p',
        u ∷ us,
        round_eq rounds i d h (with_provider h p') _ _ _ p u us
            (rw o.same_encryptor
              (chunk_offset_eq f n offset start stop to_send truncate v i d reached last))
            (rw o.same_width (room_eq f n offset start stop to_send truncate v i d reached last))
            (substr-eq to_send d _
              (done_inside f n offset start stop to_send truncate v i d reached last))
            e e',
        (
          record {
            inside = last;
            index = index;
            chunk = chunk ∙ ap (encrypt c f.encryptor i (ivs i)) (sym content);
            change =
                change
                ∙ ap
                    (λ l.
                      size_change f.encryptor.chunk_size i (length l) (length (plain_chunk f i))
                        (length f.plain) (if i == stop then truncate else false))
                    (sym content);
          },
          made,
        ),
        o'',
      )

  loop-Made :
      (rounds i d : ℕ) (h : FileHandler)
      → i + rounds ≡ stop + 1
      → (i ≤ stop → Reached f n offset start stop to_send truncate v i d)
      → IsHeld server f n h
      → Made rounds i d h
  unfolding Made write_chunks
  loop-Made zero i d h e reached o = (h.files.provider, [], refl, omega (arith, e), o)
  loop-Made (suc rounds) i d h e reached o =
      write_chunks_step rounds i d h (omega (arith, e)) (reached (omega (arith, e))) o (λ h' o'.
        loop-Made rounds (i + 1) _ h' (omega (arith, e))
          (λ k.
            next-Reached f n offset start stop to_send truncate v i d (reached (omega (arith, e)))
              (omega (arith, e)) (omega (arith, k)))
          o')

  -- For a handler in step with a stored file, the loop of write over the chunks from the first to
  -- the last that the text meets ends without an error: it returns for each of them, in order, the
  -- encryption of that chunk of the plaintext with the text written in (and cut behind it where
  -- truncate is set), with the change of the file's size that it makes, and the handler stays in
  -- step, only its provider being another. The text begins at or in front of the file's end, the
  -- chunk size is not 0, and the places and numbers of the chunks fit the machine words.
  pub write_chunks-AreMade :
      (h : FileHandler)
      → IsHeld server f n h
      → (p : Provider) × (us : List UpdateChunkData) × (write_chunks c server ivs offset start stop
            to_send truncate
            (stop + 1 - start)
            start
            0
            h
          ≡ (with_provider h p, ok us))
        × AreMade c f (with_text f offset to_send truncate) ivs stop truncate start us
        × IsHeld server f n (with_provider h p)
  unfolding Made
  write_chunks-AreMade h o =
      loop-Made (stop + 1 - start) start 0 h (omega (arith, v.ordered)) (λ k. inl (refl, refl)) o
