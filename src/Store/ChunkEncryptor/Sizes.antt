-- ===== src/Store/ChunkEncryptor/Sizes.antt =====
-- The encrypted size of a file that `getEncryptedFileSize` computes in advance, against the file cut
-- into chunks and encrypted chunk by chunk.
use native.Mathlib.Nat.{
  mod-eq-sub-mod, mod_self, mod-eq_of_lt, div-eq-sub-div, div-eq_of_lt, div-le_self,
}
use privmx_endpoint.Common.{
  ◌==◌, if◌then◌else◌, two64, u64, u64-eq_of_lt, sub64-eq, length, take, drop, length-append,
  length-take, length-drop, take_all, drop_all, Bytes, ℕ, zero, suc, ◌+◌, ◌-◌, ◌*◌, ◌/◌, ◌%◌, ◌≤◌,
  ◌<◌, ◌≡◌, refl, sym, ap, ◌∙◌, false, List, [], ◌∷◌, ◌++◌, arith, dec_lt,
}
use privmx_endpoint.Store.Crypto.{Crypto, IsSound}
use privmx_endpoint.Store.ChunkEncryptor.{
  Chunk, ChunkEncryptor, chunk_key, encrypt, get_encrypted_file_size,
}

-- A file cut into chunks of `size` bytes, the last one perhaps shorter. The fuel is the number of
-- cuts; the length of the file is enough.
unfoldable pub split_chunks : ℕ → ℕ → Bytes → List Bytes
split_chunks zero size xs = []
split_chunks (suc fuel) size [] = []
split_chunks (suc fuel) size (x ∷ xs) =
    take size (x ∷ xs) ∷ split_chunks fuel size (drop size (x ∷ xs))

-- The chunks encrypted in order, the first under the given index; `ivs` gives the random bytes drawn.
unfoldable pub encrypt_all : Crypto → ChunkEncryptor → (ℕ → Bytes) → ℕ → List Bytes → List Chunk
encrypt_all c e ivs i [] = []
encrypt_all c e ivs i (x ∷ xs) = encrypt c e i (ivs i) x ∷ encrypt_all c e ivs (i + 1) xs

-- One part of every chunk, joined.
abbrev pub joined : (Chunk → Bytes) → List Chunk → Bytes
joined part [] = []
joined part (x ∷ xs) = part x ++ joined part xs

-- What the server stores of a file, and the checksums.
abbrev pub stored_bytes : List Chunk → Bytes
stored_bytes = joined λ x. x.bytes

abbrev pub stored_hmacs : List Chunk → Bytes
stored_hmacs = joined λ x. x.hmac

-- The encrypted length of a chunk of `n` bytes.
abbrev pub encrypted_length : ℕ → ℕ
encrypted_length n = n + (16 - n % 16) + 48

-- The encrypted length of a list of chunks.
abbrev pub total : List Bytes → ℕ
total [] = 0
total (x ∷ xs) = encrypted_length (length x) + total xs

-- The closed form, over numbers that do not wrap.
parts : ℕ → ℕ → ℕ
parts size n = (n + size - 1) / size

last_chunk : ℕ → ℕ → ℕ
last_chunk size n = if n % size == 0 then size else n % size

file_size : ℕ → ℕ → ℕ
file_size size n =
    if n == 0
    then 0
    else (parts size n - 1) * encrypted_length size + encrypted_length (last_chunk size n)

parts_step : (size n : ℕ) → 0 < size → 0 < n → parts size n ≡ (n - 1) / size + 1
unfolding parts
parts_step size n h k =
    div-eq-sub-div {m = size} {n = n + size - 1} h (omega arith)
    ∙ ap (λ t. t / size + 1) (omega arith)

parts_short : (size n : ℕ) → 0 < n → n ≤ size → parts size n ≡ 1
parts_short size n h k =
    parts_step size n (omega arith) h ∙ ap (λ d. d + 1) (div-eq_of_lt (omega arith))

parts_long : (size n : ℕ) → 0 < size → size < n → parts size n ≡ parts size (n - size) + 1
parts_long size n h k =
    parts_step size n h (omega arith)
    ∙ ap (λ d. d + 1)
        (div-eq-sub-div {m = size} {n = n - 1} h (omega arith)
          ∙ ap (λ t. t / size + 1) (omega arith)
          ∙ sym (parts_step size (n - size) h (omega arith)))

last_chunk_short : (size n : ℕ) → 0 < n → n ≤ size → last_chunk size n ≡ n
unfolding last_chunk
last_chunk_short size n h k = elim (dec_lt n size) [
  | yes p ↦ rw (mod-eq_of_lt p) (ground arith)
  | no p ↦ let whole : size ≡ n = omega arith in ground (arith, mod_self n, whole)
]

last_chunk_long : (size n : ℕ) → size < n → last_chunk size n ≡ last_chunk size (n - size)
unfolding last_chunk
last_chunk_long size n k = rw (mod-eq-sub-mod {n = n} {m = size} (omega arith))

file_size_short : (size n : ℕ) → 0 < n → n ≤ size → file_size size n ≡ encrypted_length n
unfolding file_size
file_size_short size n h k = rw (parts_short size n h k, last_chunk_short size n h k) (ground arith)

file_size_long :
    (size n : ℕ)
    → 0 < size
    → size < n
    → file_size size n ≡ encrypted_length size + file_size size (n - size)
unfolding file_size
file_size_long size n h k = ground (
  arith,
  last_chunk_long size n k,
  parts_long size n h k,
  parts_step size (n - size) h (omega arith),
  ap (λ t. t * encrypted_length size) count,
)
  where
    count : parts size n - 1 ≡ (parts size (n - size) - 1) + 1
    count = omega (arith, parts_long size n h k, parts_step size (n - size) h (omega arith))

total-split :
    (fuel size : ℕ) (xs : Bytes)
    → 0 < size
    → length xs ≤ fuel
    → total (split_chunks fuel size xs) ≡ file_size size (length xs)
unfolding split_chunks
total-split zero size [] h k = unfold file_size in refl
total-split zero size (x ∷ xs) h k = absurd (omega arith)
total-split (suc fuel) size [] h k = unfold file_size in refl
total-split (suc fuel) size (x ∷ xs) h k =
    rw (total-split fuel size (drop size all) h (omega (arith, length-drop size all)))
      (finish (dec_lt size (length all)))
  where
    all : Bytes
    all = x ∷ xs

    finish :
        Dec (size < length all)
        → encrypted_length (length (take size all)) + file_size size (length (drop size all))
          ≡ file_size size (length all)
    finish (yes long) =
        rw (length-take size all, length-drop size all)
          (ap (λ t. encrypted_length t + file_size size (length all - size)) (omega arith)
            ∙ sym (file_size_long size (length all) h long))
    finish (no short) =
        rw (take_all size all (omega arith), drop_all size all (omega arith))
          (unfold file_size in
            omega (arith, file_size_short size (length all) (omega arith) (omega arith)))

no_wrap :
    (p s f l g : ℕ)
    → p * (s + f + 48) + (l + g + 48) < two64
    → u64 (p * (s + 32 + 16 + f) + l + 32 + 16 + g) ≡ p * (s + f + 48) + (l + g + 48)
unfolding u64
no_wrap p s f l g h = omega arith

-- The machine words of the code do not wrap where the size and the result fit.
file_size-no_wrap :
    (e : ChunkEncryptor) (n : ℕ)
    → 0 < e.chunk_size
    → n + e.chunk_size < two64
    → file_size e.chunk_size n < two64
    → get_encrypted_file_size e n ≡ file_size e.chunk_size n
unfolding file_size get_encrypted_file_size parts last_chunk
file_size-no_wrap e zero h k lt = refl
file_size-no_wrap e (suc m) h k lt =
    rw
      (
        positive,
        u64-eq_of_lt (n + size) k,
        sub64-eq (n + size) 1 (omega arith) k,
        sub64-eq _ 1 some_part fits,
      )
      (no_wrap ((n + size - 1) / size - 1) size _ (last_chunk size n) _ (rw positive at lt))
  where
    n : ℕ
    n = suc m

    positive : (n == 0) ≡ false
    positive = ground arith

    size : ℕ
    size = e.chunk_size

    some_part : 1 ≤ (n + size - 1) / size
    some_part = omega (arith, parts_step size n h (omega arith))

    fits : (n + size - 1) / size < two64
    fits = omega (arith, div-le_self (n + size - 1) size)

module _ (c : Crypto) (s : IsSound c) where
  pub encrypt-length :
      (e : ChunkEncryptor) (i : ℕ) (iv msg : Bytes)
      → length iv ≡ 16
      → length (encrypt c e i iv msg).bytes ≡ encrypted_length (length msg)
  unfolding encrypt
  encrypt-length e i iv msg h = omega (
    arith,
    length-append
        (c.hmac_sha256 (chunk_key c e.key i) (iv ++ c.aes_encrypt msg (chunk_key c e.key i) iv))
        (iv ++ c.aes_encrypt msg (chunk_key c e.key i) iv),
    length-append iv (c.aes_encrypt msg (chunk_key c e.key i) iv),
    s.hmac_length (chunk_key c e.key i) (iv ++ c.aes_encrypt msg (chunk_key c e.key i) iv),
    s.cipher_length msg (chunk_key c e.key i) iv,
  )

  pub stored-length :
      (e : ChunkEncryptor) (ivs : ℕ → Bytes) (i : ℕ) (xs : List Bytes)
      → ((n : ℕ) → length (ivs n) ≡ 16)
      → length (stored_bytes (encrypt_all c e ivs i xs)) ≡ total xs
  unfolding encrypt_all
  stored-length e ivs i [] h = refl
  stored-length e ivs i (x ∷ xs) h = omega (
    arith,
    length-append (encrypt c e i (ivs i) x).bytes (stored_bytes (encrypt_all c e ivs (i + 1) xs)),
    encrypt-length e i (ivs i) x (h i),
    stored-length e ivs (i + 1) xs h,
  )

  -- The size that getEncryptedFileSize computes is the number of bytes that encrypting the file's
  -- chunks one by one yields. The cryptographic service is sound, every vector has 16 bytes, the
  -- chunk size is not 0, and the file's length plus a chunk and the encrypted size stay below
  -- 2^64.
  pub encrypted-file-size :
      (e : ChunkEncryptor) (ivs : ℕ → Bytes) (msg : Bytes)
      → ((n : ℕ) → length (ivs n) ≡ 16)
      → 0 < e.chunk_size
      → length msg + e.chunk_size < two64
      → length (stored_bytes (encrypt_all c e ivs 0 (split_chunks (length msg) e.chunk_size msg)))
        < two64
      → get_encrypted_file_size e (length msg)
        ≡ length (stored_bytes (encrypt_all c e ivs 0 (split_chunks (length msg) e.chunk_size msg)))
  encrypted-file-size e ivs msg h k fits lt =
      rw stored (file_size-no_wrap e (length msg) k fits (omega (arith, stored, lt)))
    where
      stored :
          length (stored_bytes (encrypt_all c e ivs 0 (split_chunks (length msg) e.chunk_size msg)))
          ≡ file_size e.chunk_size (length msg)
      stored =
          stored-length e ivs 0 (split_chunks (length msg) e.chunk_size msg) h
          ∙ total-split (length msg) e.chunk_size msg k (omega arith)
