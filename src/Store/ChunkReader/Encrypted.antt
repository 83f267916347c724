-- ===== src/Store/ChunkReader/Encrypted.antt =====
-- A file that has been encrypted chunk by chunk is one that the reader can read.
use privmx_endpoint.Common.{
  two32, length, length-append, Bytes, ℕ, ◌+◌, ◌*◌, ◌≤◌, ◌<◌, ◌≡◌, refl, ap, none, List, [], ◌∷◌,
  arith, slice, length-slice,
}
use privmx_endpoint.Store.Crypto.{Crypto, IsSound}
use privmx_endpoint.Store.ChunkEncryptor.{Chunk, ChunkEncryptor, encrypt}
use privmx_endpoint.Store.ChunkEncryptor.Sizes.{
  split_chunks, encrypt_all, stored_bytes, stored_hmacs, encrypted_length, encrypt-length,
}
use privmx_endpoint.Store.ChunkEncryptor.Positions.{chunk_at, decrypts_at}
use privmx_endpoint.Store.ChunkReader.Refinement.{StoredFile, IsStored}

module _ (c : Crypto) (s : IsSound c) (e : ChunkEncryptor) (ivs : ℕ → Bytes)
    (long : (n : ℕ) → length (ivs n) ≡ 16) where
  abbrev pub encrypted_chunks : Bytes → List Chunk
  encrypted_chunks msg = encrypt_all c e ivs 0 (split_chunks (length msg) e.chunk_size msg)

  -- The file as the server and the client have it after its encryption.
  abbrev pub encrypted_file : Bytes → ℕ → StoredFile
  encrypted_file msg version = record {
    plain = msg;
    stored = stored_bytes (encrypted_chunks msg);
    version = version;
    encryptor = e;
    hash_list = record {
      top_hash_key = e.key;
      top_hash = none;
      size = length (encrypted_chunks msg);
      hashes = stored_hmacs (encrypted_chunks msg);
    };
    encrypted_size = encrypted_length e.chunk_size;
  }

  hmac_length : (j : ℕ) (x : Bytes) → length (encrypt c e j (ivs j) x).hmac ≡ 32
  unfolding encrypt
  hmac_length j x = s.hmac_length _ _

  hmacs-whole :
      (k : ℕ) (xs : List Bytes)
      → length (stored_hmacs (encrypt_all c e ivs k xs)) ≡ 32 * length (encrypt_all c e ivs k xs)
  unfolding encrypt_all
  hmacs-whole k [] = refl
  hmacs-whole k (x ∷ xs) = omega (
    arith,
    hmac_length k x,
    hmacs-whole (k + 1) xs,
    length-append (encrypt c e k (ivs k) x).hmac (stored_hmacs (encrypt_all c e ivs (k + 1) xs)),
  )

  -- A file encrypted chunk by chunk has what the reader relies on: a checksum and a place in the
  -- stored bytes for each chunk, and every chunk cut from them decrypts, with its checksum, to
  -- that chunk of the plaintext. The cryptographic service is sound, every vector has 16 bytes,
  -- the chunk size is not 0, and there are at most 2^32 chunks.
  pub encrypted_file-IsStored :
      (msg : Bytes) (version : ℕ)
      → 0 < e.chunk_size
      → length (encrypted_chunks msg) ≤ two32
      → IsStored c (encrypted_file msg version)
  encrypted_file-IsStored msg version some_width few = record {
    whole = hmacs-whole 0 (split_chunks (length msg) e.chunk_size msg);
    fits = omega (arith, few);
    few = few;
    hashed = λ i h.
        (omega (
          arith,
          ap length (chunk_at c s e ivs long i msg some_width h).1,
          hmac_length i (slice (e.chunk_size * i) e.chunk_size msg),
          hmacs-whole 0 (split_chunks (length msg) e.chunk_size msg),
          length-slice (32 * i) 32 (stored_hmacs (encrypted_chunks msg)),
        ));
    there = λ i h. omega (
      arith,
      ap length (chunk_at c s e ivs long i msg some_width h).0,
      encrypt-length c s e i (ivs i) (slice (e.chunk_size * i) e.chunk_size msg) (long i),
      length-slice (encrypted_length e.chunk_size * i) (encrypted_length e.chunk_size)
          (stored_bytes (encrypted_chunks msg)),
    );
    decrypts = λ i h. decrypts_at c s e ivs long i msg some_width h;
  }
