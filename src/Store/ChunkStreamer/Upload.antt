-- ===== src/Store/ChunkStreamer/Upload.antt =====
-- The upload of a file: what the server has been sent is the encryption of the file's chunks, in order,
-- up to what is still in the buffer.
use privmx_endpoint.Common.{
  two32, u64, u32-eq_of_lt, length, flatten, Bytes, ℕ, ◌+◌, ◌<◌, ◌≡◌, refl, sym, ap, ◌∙◌, false,
  List, [], ◌∷◌, ◌++◌, append_assoc, arith,
}
use privmx_endpoint.Store.Crypto.{Crypto}
use privmx_endpoint.Store.ChunkEncryptor.{
  Chunk, ChunkEncryptor, encrypt, chunk_key, chunk_index_to_be,
}
use privmx_endpoint.Store.ChunkEncryptor.Sizes.{encrypt_all, joined, stored_bytes, stored_hmacs}
use privmx_endpoint.Store.ChunkStreamer.{Streamer, ChunkModel, prepare_chunk, get_seq_be}

-- The bytes of accepted requests.
abbrev pub parts : List ChunkModel → Bytes
parts [] = []
parts (m ∷ ms) = m.part ++ parts ms

pub parts-append : (xs ys : List ChunkModel) → parts (xs ++ ys) ≡ parts xs ++ parts ys
parts-append [] ys = refl
parts-append (x ∷ xs) ys = rw (parts-append xs ys, append_assoc x.part (parts xs) (parts ys))

-- They are numbered from `k` on, each has `size` bytes, and all belong to one file of one request.
abbrev pub AreNumbered : ℕ → ℕ → List ChunkModel → Type 0
AreNumbered size k [] = Unit {0}
AreNumbered size k (m ∷ ms) = (m.seq ≡ u64 k) × (length m.part ≡ size) × AreNumbered size (k + 1) ms

pub AreNumbered-snoc :
    (size k : ℕ) (xs : List ChunkModel) (m : ChunkModel)
    → AreNumbered size k xs
    → m.seq ≡ u64 (k + length xs)
    → length m.part ≡ size
    → AreNumbered size k (xs ++ m ∷ [])
AreNumbered-snoc size k [] m h e f = (e ∙ ap u64 (omega arith), f, tt)
AreNumbered-snoc size k (x ∷ xs) m h e f =
    (h.0, h.1, AreNumbered-snoc size (k + 1) xs m h.2 (e ∙ ap u64 (omega arith)) f)

pub encrypt_all-snoc :
    (c : Crypto) (e : ChunkEncryptor) (ivs : ℕ → Bytes) (k : ℕ) (xs : List Bytes) (x : Bytes)
    → encrypt_all c e ivs k (xs ++ x ∷ [])
      ≡ encrypt_all c e ivs k xs ++ encrypt c e (k + length xs) (ivs (k + length xs)) x ∷ []
unfolding encrypt_all
encrypt_all-snoc c e ivs k [] x = ap (λ n. encrypt c e n (ivs n) x ∷ []) (omega arith)
encrypt_all-snoc c e ivs k (y ∷ ys) x =
    ap (λ l. encrypt c e k (ivs k) y ∷ l)
      (encrypt_all-snoc c e ivs (k + 1) ys x
        ∙ ap (λ n. encrypt_all c e ivs (k + 1) ys ++ encrypt c e n (ivs n) x ∷ []) (omega arith))

pub joined-append :
    (part : Chunk → Bytes) (xs ys : List Chunk)
    → joined part (xs ++ ys) ≡ joined part xs ++ joined part ys
joined-append part [] ys = refl
joined-append part (x ∷ xs) ys =
    rw (joined-append part xs ys, append_assoc (part x) (joined part xs) (joined part ys))

get_seq_be-index : (n : ℕ) → n < two32 → get_seq_be n ≡ chunk_index_to_be n
unfolding get_seq_be chunk_index_to_be
get_seq_be-index n h = ap get_seq_be (sym (u32-eq_of_lt n h))

-- The streamer seals chunk `seq` as the chunk encryptor does.
pub prepare_chunk-encrypt :
    (c : Crypto) (s : Streamer) (iv d : Bytes)
    → s.seq < two32
    → prepare_chunk c s iv d
      ≡ encrypt c (record { key = s.key; chunk_size = s.chunk_size }) s.seq iv d
unfolding prepare_chunk encrypt chunk_key
prepare_chunk-encrypt c s iv d h = rw (get_seq_be-index s.seq h)

module _ (c : Crypto) (ivs : ℕ → Bytes) (key : Bytes) (chunk_size : ℕ) where
  abbrev pub encryptor : ChunkEncryptor
  encryptor = record { key = key; chunk_size = chunk_size }

  -- The encryption of a list of chunks.
  abbrev pub sealed : List Bytes → List Chunk
  sealed = encrypt_all c encryptor ivs 0

module _ (c : Crypto) (ivs : ℕ → Bytes) (key : Bytes) (chunk_size size : ℕ) where
  -- What the server has accepted and what the buffer holds make the encryption of a list of chunks.
  pub record IsBuffered (chunks : List Bytes) (s : Streamer) : Type 0 where
    pub same_key : s.key ≡ key
    pub same_chunk_size : s.chunk_size ≡ chunk_size
    pub same_size : s.stream.chunk_size ≡ size
    pub buffered : s.stream.buf_size ≡ length s.stream.buf
    pub unlimited : s.stream.size_control ≡ false
    pub hashed : s.checksums ≡ stored_hmacs (sealed c ivs key chunk_size chunks)
    pub sent_or_buffered :
        parts s.sent ++ s.stream.buf ≡ stored_bytes (sealed c ivs key chunk_size chunks)
    pub numbered : AreNumbered size 0 s.sent
    pub next_number : s.server_seq ≡ u64 (length s.sent)

  -- The state of an upload after the chunks of a list.
  pub record IsSending (chunks : List Bytes) (s : Streamer) : Type 0 where
    pub buffer : IsBuffered chunks s
    pub counted : s.seq ≡ length chunks
    pub processed : s.data_processed ≡ length (flatten chunks)
    pub less_than_one : length s.stream.buf < size
