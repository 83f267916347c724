-- ===== src/Store/RandomWrite/Patching.antt =====
-- The changed chunk is the encryption of the old chunk with the piece written in.
use privmx_endpoint.Common.{
  ltb, if◌then◌else◌, lt→ltb, le→ltb, two32, two64, u64-eq_of_lt, ok, length, take, drop, replicate,
  take_all, drop_all, Bytes, ℕ, zero, suc, ◌+◌, ◌-◌, ◌*◌, ◌/◌, ◌≤◌, ◌<◌, ◌≡◌, refl, sym, ap, ◌∙◌,
  Bool, true, false, not, ◌&&◌, [], ◌++◌, append-nil, arith, dec_lt, slice, length-slice, ==-false,
}
use privmx_endpoint.Store.Crypto.{Crypto}
use privmx_endpoint.Store.ChunkEncryptor.{encrypt}
use privmx_endpoint.Store.HmacList.Lookup.{get_hash-inside}
use privmx_endpoint.Store.ChunkDataProvider.{Server, Provider, get_chunk}
use privmx_endpoint.Store.ChunkDataProvider.Coherence.{
  IsSized, IsCoherent, Serves, kept, get_chunk-slice_within,
}
use privmx_endpoint.Store.ChunkDataProvider.Update.{written}
use privmx_endpoint.Store.ChunkReader.Refinement.{StoredFile, IsStored, plain_chunk, stored_chunk}
use privmx_endpoint.Store.UpdateChanges.{UpdateChunkData}
use privmx_endpoint.Store.RandomWrite.{
  FileHandler, size_change, patch_chunk, prev_chunk, new_update_chunk, create_update_chunk,
  with_provider,
}

patch_head :
    (prev : Bytes) (at : ℕ)
    → at ≤ length prev
    → (if ltb 0 at
        then take at prev ++ (if ltb (length prev) at then replicate (at - length prev) 0 else [])
        else [])
      ≡ take at prev
patch_head prev zero h = refl
patch_head prev (suc at) h =
    rw (lt→ltb 0 (suc at) (omega arith), le→ltb (length prev) (suc at) h)
      (append-nil (take (suc at) prev))

patch_tail :
    (prev : Bytes) (end : ℕ)
    → (if ltb end (length prev) && not false then drop end prev else []) ≡ drop end prev
patch_tail prev end = ground (arith, drop_all end prev)

if_not : (b : Bool) (l : Bytes) → (if b && not true then l else []) ≡ []
if_not true l = refl
if_not false l = refl

-- Within the old plaintext or at its end, the piece is written over it.
pub patch_chunk-written :
    (prev : Bytes) (at : ℕ) (new : Bytes) (truncate : Bool)
    → at ≤ length prev
    → patch_chunk prev at new truncate ≡ written prev at new truncate
unfolding patch_chunk
patch_chunk-written prev at new true h = rw (patch_head prev at h) (
    ap (λ l. take at prev ++ (new ++ l))
      (if_not (ltb (at + length new) (length prev)) (drop (at + length new) prev))
    ∙ ap (λ l. take at prev ++ l) (append-nil new))
patch_chunk-written prev at new false h =
    rw (patch_head prev at h, patch_tail prev (at + length new)) refl

-- Chunks are stored up to the end of the plaintext, and nothing behind it.
pub record IsTight (f : StoredFile) : Type 0 where
  pub begins :
      (i : ℕ) → f.encryptor.chunk_size * i < length f.plain → f.encrypted_size * i < length f.stored
  pub ends :
      (i : ℕ) → length f.plain ≤ f.encryptor.chunk_size * i → length f.stored ≤ f.encrypted_size * i

-- The handler is in step with the file on the server; chunks are asked for up to `n` bytes.
pub record IsHeld (server : Server) (f : StoredFile) (n : ℕ) (h : FileHandler) : Type 0 where
  pub same_encryptor : h.files.encryptor ≡ f.encryptor
  pub same_hashes : h.files.hash_list ≡ f.hash_list
  pub same_version : h.version ≡ f.version
  pub same_size : h.files.provider.encrypted_chunk_size ≡ f.encrypted_size
  pub same_width : h.plain_chunk_size ≡ f.encryptor.chunk_size
  pub same_length : h.plain_file_size ≡ length f.plain
  pub serves : Serves server h.files.provider.file_id f.version f.stored
  pub sized : IsSized h.files.provider n
  pub coherent :
      h.files.provider.file_version ≡ f.version
      → IsCoherent h.files.provider f.stored h.files.provider.last_server_chunk_number

module _ (c : Crypto) (server : Server) (f : StoredFile) (stored : IsStored c f) (tight : IsTight f)
    (n : ℕ) where
  prev_chunk-plain :
      (h : FileHandler) (i : ℕ)
      → IsHeld server f n h
      → prev_chunk c h.files i (stored_chunk f i) ≡ ok (plain_chunk f i)
  unfolding prev_chunk
  prev_chunk-plain h i o = elim (dec_lt (f.encryptor.chunk_size * i) (length f.plain)) [
    | yes inside ↦ rw (
      ==-false (length (stored_chunk f i)) 0 (λ e. omega (
        arith,
        e,
        length-slice (f.encrypted_size * i) f.encrypted_size f.stored,
        tight.begins i inside,
        o.sized.some_bytes,
        o.same_size,
      )),
      o.same_hashes,
      o.same_encryptor,
      get_hash-inside f.hash_list i (stored.hashed i inside)
          (omega (arith, stored.hashed i inside, stored.fits)) stored.whole,
      stored.decrypts i inside,
    )
    | no outside ↦
        rw
          (
            drop_all (f.encrypted_size * i) f.stored (tight.ends i (omega arith)),
            take_all {A = ℕ} f.encrypted_size [] (omega arith),
          )
          (ap ok (
            sym (
              ap (take f.encryptor.chunk_size)
                (drop_all (f.encryptor.chunk_size * i) f.plain (omega arith))
              ∙ take_all {A = ℕ} f.encryptor.chunk_size [] (omega arith))))
  ]

  module _ (h : FileHandler) (i : ℕ) (o : IsHeld server f n h) (small : i < two32)
      (inside : f.encrypted_size * i ≤ n) where
    abbrev fetched : Provider
    fetched =
        kept (record h.files.provider { file_version = f.version }) f.stored
          (h.files.provider.encrypted_chunk_size * i / h.files.provider.server_chunk_size)

    got_stored : get_chunk server h.files.provider i h.version ≡ (fetched, ok (stored_chunk f i))
    got_stored =
        ap (get_chunk server h.files.provider i) o.same_version
        ∙ get_chunk-slice_within server h.files.provider f.stored i f.version o.sized o.serves
            o.coherent small (rw o.same_size inside)
        ∙ ap (λ e. (fetched, ok (slice (e * i) e f.stored))) o.same_size

    fetched-IsHeld : IsHeld server f n (with_provider h fetched)
    fetched-IsHeld = record {
      same_encryptor = o.same_encryptor;
      same_hashes = o.same_hashes;
      same_version = o.same_version;
      same_size = o.same_size;
      same_width = o.same_width;
      same_length = o.same_length;
      serves = o.serves;
      sized = record {
        per_server_chunk = o.sized.per_server_chunk;
        server_size = o.sized.server_size;
        some_chunks = o.sized.some_chunks;
        some_bytes = o.sized.some_bytes;
        in_words = o.sized.in_words;
        in_numbers = o.sized.in_numbers;
      };
      coherent = λ e. refl;
    }

    -- For a handler in step with a stored file, createUpdateChunk returns, with the chunk's index,
    -- the encryption of the chunk's plaintext (empty behind the file's end) with the piece written
    -- in, and cut behind it where truncate is set, and the change of the file's size that this
    -- makes; the handler stays in step, only its provider being another. The piece begins within
    -- the old plaintext or at its end and fits the chunk, and the place and number of the chunk
    -- fit the machine words.
    pub create_update_chunk-written :
        (iv : Bytes) (at : ℕ) (new : Bytes) (truncate : Bool)
        → at ≤ length (plain_chunk f i)
        → at + length new ≤ f.encryptor.chunk_size
        → f.encryptor.chunk_size < two64
        → (p : Provider) × (u : UpdateChunkData) × (create_update_chunk c server h iv i at new
              truncate
            ≡ (p, ok u))
          × (u.chunk_index ≡ i)
          × (u.chunk ≡ encrypt c f.encryptor i iv (written (plain_chunk f i) at new truncate))
          × (u.plainfile_size_change
              ≡ size_change f.encryptor.chunk_size i
                  (length (written (plain_chunk f i) at new truncate))
                  (length (plain_chunk f i))
                  (length f.plain)
                  truncate)
          × IsHeld server f n (with_provider h p)
    unfolding create_update_chunk new_update_chunk
    create_update_chunk-written iv at new truncate in_chunk fits words = (
      fetched,
      new_update_chunk c h iv i at new truncate (stored_chunk f i) (plain_chunk f i),
      rw
          (
            got_stored,
            prev_chunk-plain h i o,
            u64-eq_of_lt (at + length new) (omega arith),
            le→ltb h.plain_chunk_size (at + length new) (omega (arith, o.same_width)),
          )
          refl,
      refl,
      rw (o.same_encryptor, patch_chunk-written (plain_chunk f i) at new truncate in_chunk) refl,
      rw
          (
            o.same_width,
            o.same_length,
            patch_chunk-written (plain_chunk f i) at new truncate in_chunk,
          )
          refl,
      fetched-IsHeld,
    )
