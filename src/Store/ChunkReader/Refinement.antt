-- ===== src/Store/ChunkReader/Refinement.antt =====
-- Against a server that holds an encrypted file, the reader returns the chunks of its plaintext.
use privmx_endpoint.Common.{
  ==_iff, two32, ok, length, Bytes, ℕ, ◌*◌, ◌/◌, ◌≤◌, ◌<◌, ◌≡◌, refl, ap, ◌∙◌, Option, none, some,
  arith, ℕ_discrete, slice, ==-false,
}
use privmx_endpoint.Store.Crypto.{Crypto}
use privmx_endpoint.Store.ChunkEncryptor.{ChunkEncryptor, decrypt}
use privmx_endpoint.Store.HmacList.{HmacList}
use privmx_endpoint.Store.HmacList.Invariant.{Fits}
use privmx_endpoint.Store.HmacList.Lookup.{get_hash-inside}
use privmx_endpoint.Store.ChunkDataProvider.{Server, Provider, get_chunk}
use privmx_endpoint.Store.ChunkDataProvider.Coherence.{
  IsSized, IsCoherent, Serves, kept, get_chunk-slice,
}
use privmx_endpoint.Store.ChunkReader.{
  Files, DecryptedChunk, get_decrypted_chunk, fetch_chunk, kept_chunk,
}

-- A file: its plaintext, what the server stores of it and under which version, and the key and the
-- checksums that the client has of it.
pub record StoredFile : Type 0 where
  pub plain : Bytes
  pub stored : Bytes
  pub version : ℕ
  pub encryptor : ChunkEncryptor
  pub hash_list : HmacList
  pub encrypted_size : ℕ

-- Chunk `i` of the plaintext, of the stored bytes and of the checksums.
abbrev pub plain_chunk : StoredFile → ℕ → Bytes
plain_chunk f i = slice (f.encryptor.chunk_size * i) f.encryptor.chunk_size f.plain

abbrev pub stored_chunk : StoredFile → ℕ → Bytes
stored_chunk f i = slice (f.encrypted_size * i) f.encrypted_size f.stored

abbrev pub chunk_hash : StoredFile → ℕ → Bytes
chunk_hash f i = slice (32 * i) 32 f.hash_list.hashes

-- The stored bytes are the encryption of the plaintext, chunk by chunk.
pub record IsStored (c : Crypto) (f : StoredFile) : Type 0 where
  pub whole : length f.hash_list.hashes ≡ 32 * f.hash_list.size
  pub fits : Fits f.hash_list
  pub few : f.hash_list.size ≤ two32
  pub hashed : (i : ℕ) → f.encryptor.chunk_size * i < length f.plain → i < f.hash_list.size
  pub there :
      (i : ℕ) → f.encryptor.chunk_size * i < length f.plain → f.encrypted_size * i ≤ length f.stored
  pub decrypts :
      (i : ℕ)
      → f.encryptor.chunk_size * i < length f.plain
      → decrypt c f.encryptor i (record { bytes = stored_chunk f i; hmac = chunk_hash f i })
        ≡ ok (plain_chunk f i)

-- The kept decrypted chunk is the plaintext's.
abbrev IsPlain : StoredFile → Option DecryptedChunk → Type 0
IsPlain f none = Unit {0}
IsPlain f (some d) = d.decrypted ≡ plain_chunk f d.index

-- The client's objects are in step with the file on the server.
pub record IsReady (server : Server) (f : StoredFile) (s : Files) : Type 0 where
  pub same_encryptor : s.encryptor ≡ f.encryptor
  pub same_hashes : s.hash_list ≡ f.hash_list
  pub same_version : s.reader.version ≡ f.version
  pub same_size : s.provider.encrypted_chunk_size ≡ f.encrypted_size
  pub serves : Serves server s.provider.file_id f.version f.stored
  pub sized : IsSized s.provider (length f.stored)
  pub coherent :
      s.provider.file_version ≡ f.version
      → IsCoherent s.provider f.stored s.provider.last_server_chunk_number
  pub plain : IsPlain f s.reader.last_chunk

module _ (c : Crypto) (server : Server) (f : StoredFile) (h : IsStored c f) where
  module _ (s : Files) (i : ℕ) (r : IsReady server f s)
      (inside : f.encryptor.chunk_size * i < length f.plain) where
    -- The provider after the chunk has been fetched.
    abbrev fetched : Provider
    fetched =
        kept (record s.provider { file_version = f.version }) f.stored
          (s.provider.encrypted_chunk_size * i / s.provider.server_chunk_size)

    got_stored : get_chunk server s.provider i s.reader.version ≡ (fetched, ok (stored_chunk f i))
    got_stored =
        ap (get_chunk server s.provider i) r.same_version
        ∙ get_chunk-slice server s.provider f.stored i f.version r.sized r.serves r.coherent
            (omega (arith, h.hashed i inside, h.few)) (rw r.same_size (h.there i inside))
        ∙ ap (λ e. (fetched, ok (slice (e * i) e f.stored))) r.same_size

    fetch-plain : fetch_chunk c server s i ≡ (fetched, ok (plain_chunk f i))
    unfolding fetch_chunk
    fetch-plain = rw (
      got_stored,
      r.same_hashes,
      r.same_encryptor,
      get_hash-inside f.hash_list i (h.hashed i inside) (omega (arith, h.hashed i inside, h.fits))
          h.whole,
      h.decrypts i inside,
    )

    fetched-IsReady : IsReady server f (record s { provider = fetched })
    fetched-IsReady = record {
      same_encryptor = r.same_encryptor;
      same_hashes = r.same_hashes;
      same_version = r.same_version;
      same_size = r.same_size;
      serves = r.serves;
      sized = record {
        per_server_chunk = r.sized.per_server_chunk;
        server_size = r.sized.server_size;
        some_chunks = r.sized.some_chunks;
        some_bytes = r.sized.some_bytes;
        in_words = r.sized.in_words;
        in_numbers = r.sized.in_numbers;
      };
      coherent = λ e. refl;
      plain = r.plain;
    }

  -- For a reader in step with a stored file and a chunk that begins in the file, getDecryptedChunk
  -- returns that chunk of the plaintext, whether it is kept or fetched, and the reader stays in
  -- step.
  pub get_decrypted_chunk-plain :
      (s : Files) (i : ℕ)
      → IsReady server f s
      → f.encryptor.chunk_size * i < length f.plain
      → (s' : Files) × (get_decrypted_chunk c server s i ≡ (s', ok (plain_chunk f i)))
        × IsReady server f s'
  unfolding get_decrypted_chunk
  get_decrypted_chunk-plain s i r inside = go s.reader.last_chunk refl r.plain
    where
      Goal : Type 0
      Goal =
          (s' : Files) × (get_decrypted_chunk c server s i ≡ (s', ok (plain_chunk f i)))
          × IsReady server f s'

      missing : kept_chunk s.reader.last_chunk i ≡ none → Goal
      missing e = (
        record s {
          provider = fetched s i r inside;
          reader = record {
            version = s.reader.version;
            last_chunk = some (record { decrypted = plain_chunk f i; index = i });
          };
        },
        rw (e, get_decrypted_chunk, fetch-plain s i r inside) refl,
        record {
          same_encryptor = r.same_encryptor;
          same_hashes = r.same_hashes;
          same_version = r.same_version;
          same_size = r.same_size;
          serves = r.serves;
          sized = (fetched-IsReady s i r inside).sized;
          coherent = λ e'. refl;
          plain = refl;
        },
      )

      hit :
          (b : Bytes)
          → kept_chunk s.reader.last_chunk i ≡ some b
          → get_decrypted_chunk c server s i ≡ (s, ok b)
      hit b e = rw (e, get_decrypted_chunk) refl

      go : (o : Option DecryptedChunk) → s.reader.last_chunk ≡ o → IsPlain f o → Goal
      go none e q = missing (unfold kept_chunk in rw e refl)
      go (some d) e q = elim (ℕ_discrete d.index i) [
        | yes same ↦ (
          s,
          hit d.decrypted (unfold kept_chunk in rw (e, (==_iff d.index i).1 same) refl)
              ∙ ap (λ t. (s, ok t)) (q ∙ ap (plain_chunk f) same),
          r,
        )
        | no other ↦ missing (unfold kept_chunk in rw (e, ==-false d.index i other) refl)
      ]
