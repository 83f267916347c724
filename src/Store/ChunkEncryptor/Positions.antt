-- ===== src/Store/ChunkEncryptor/Positions.antt =====
-- Where the encrypted chunks of a file lie among its stored bytes and its checksums.
use privmx_endpoint.Common.{
  ok, length, take, drop, length-take, length-drop, take_all, drop_all, drop-drop, Bytes, ℕ, zero,
  suc, ◌+◌, ◌*◌, ◌≤◌, ◌<◌, ◌≡◌, refl, ap, ◌∙◌, List, [], ◌∷◌, ◌++◌, append-nil, arith,
  take-append_eq, dec_lt, dec_le, slice, drop-append_after,
}
use mathlib.Core.Path.{ap₂}
use privmx_endpoint.Store.Crypto.{Crypto, IsSound}
use privmx_endpoint.Store.ChunkEncryptor.{Chunk, ChunkEncryptor, encrypt, decrypt}
use privmx_endpoint.Store.ChunkEncryptor.Roundtrip.{decrypt-encrypt}
use privmx_endpoint.Store.ChunkEncryptor.Sizes.{
  split_chunks, encrypt_all, joined, stored_bytes, stored_hmacs, encrypted_length, encrypt-length,
}

encrypted_length_mono : (m n : ℕ) → m ≤ n → encrypted_length m ≤ encrypted_length n
encrypted_length_mono m n h = omega arith

-- A full slice of a list that begins with `xs`, and of what follows.
slice_first :
    (n : ℕ) (xs ys : Bytes)
    → length xs ≤ n
    → (length xs < n → ys ≡ [])
    → slice (n * 0) n (xs ++ ys) ≡ xs
slice_first n xs ys h k =
    ap (λ t. slice t n (xs ++ ys)) {y = 0} (omega arith) ∙ go (dec_lt (length xs) n)
  where
    go : Dec (length xs < n) → take n (xs ++ ys) ≡ xs
    go (yes short) = rw (k short, append-nil xs) (take_all n xs h)
    go (no full) = take-append_eq n xs ys (omega arith)

slice_later :
    (n i : ℕ) (xs ys : Bytes) → length xs ≡ n → slice (n * suc i) n (xs ++ ys) ≡ slice (n * i) n ys
slice_later n i xs ys h = ap (take n) (
    drop-append_after (n * suc i) xs ys (omega (arith, h)) ∙ ap (λ t. drop t ys) (omega (arith, h)))

module _ (c : Crypto) (s : IsSound c) (e : ChunkEncryptor) (ivs : ℕ → Bytes)
    (long : (n : ℕ) → length (ivs n) ≡ 16) where
  abbrev width : ℕ
  width = e.chunk_size

  abbrev all_from : ℕ → ℕ → Bytes → List Chunk
  all_from fuel k xs = encrypt_all c e ivs k (split_chunks fuel width xs)

  rest_empty : (fuel k : ℕ) (xs : Bytes) → length xs ≤ width → all_from fuel k (drop width xs) ≡ []
  unfolding encrypt_all split_chunks
  rest_empty fuel k xs h = rw (drop_all width xs h) (go fuel)
    where
      go : (n : ℕ) → encrypt_all c e ivs k (split_chunks n width []) ≡ []
      go zero = refl
      go (suc n) = refl

  unfold_all :
      (fuel k x : ℕ) (xs : Bytes)
      → all_from (suc fuel) k (x ∷ xs)
        ≡ encrypt c e k (ivs k) (take width (x ∷ xs)) ∷ all_from fuel (k + 1) (drop width (x ∷ xs))
  unfolding encrypt_all split_chunks
  unfold_all fuel k x xs = refl

  -- The encryption of a piece as chunk `j`.
  abbrev sealed : ℕ → Bytes → Chunk
  sealed j x = encrypt c e j (ivs j) x

  module _ (part : Chunk → Bytes) (n : ℕ)
      (full : (j : ℕ) (x : Bytes) → length x ≡ width → length (part (sealed j x)) ≡ n)
      (at_most : (j : ℕ) (x : Bytes) → length x ≤ width → length (part (sealed j x)) ≤ n)
      (some_width : 0 < width) where
    -- Part `i` of the joined parts is that of chunk `i` of the file.
    part_at :
        (i fuel k : ℕ) (xs : Bytes)
        → length xs ≤ fuel
        → width * i < length xs
        → slice (n * i) n (joined part (all_from fuel k xs))
          ≡ part (sealed (k + i) (slice (width * i) width xs))
    part_at i zero k xs h m = absurd (omega arith)
    part_at i (suc fuel) k [] h m = absurd (omega arith)
    part_at zero (suc fuel) k (x ∷ xs) h m = rw (unfold_all fuel k x xs) (
        slice_first n (part (sealed k (take width all)))
          (joined part (all_from fuel (k + 1) (drop width all)))
          (at_most k (take width all) (omega (arith, length-take width all)))
          (λ short. ap (joined part) (rest_empty fuel (k + 1) all (small short)))
        ∙ ap₂ (λ a b. part (sealed a (slice b width all))) {x = k} {y = k + 0} {u = 0} (omega arith)
            (omega arith))
      where
        all : Bytes
        all = x ∷ xs

        small : length (part (sealed k (take width all))) < n → length all ≤ width
        small short = elim (dec_le (length all) width) [
          | yes fits ↦ fits
          | no more ↦
              absurd (
                omega
                  (arith, short, full k (take width all) (omega (arith, length-take width all))))
        ]
    part_at (suc i) (suc fuel) k (x ∷ xs) h m = rw (unfold_all fuel k x xs) (
        slice_later n i (part (sealed k (take width all)))
          (joined part (all_from fuel (k + 1) (drop width all)))
          (full k (take width all) (omega (arith, length-take width all)))
        ∙ part_at i fuel (k + 1) (drop width all) (omega (arith, length-drop width all))
            (omega (arith, length-drop width all))
        ∙ ap (λ l. part (sealed (k + 1 + i) (take width l))) (drop-drop (width * i) width all)
        ∙ ap₂ (λ a b. part (sealed a (slice b width all))) {x = k + 1 + i} {y = k + suc i}
            (omega arith) (omega arith))
      where
        all : Bytes
        all = x ∷ xs

  -- Chunk `i` of the stored bytes is the encryption of chunk `i` of the file, and checksum `i` is its
  -- checksum.
  pub chunk_at :
      (i : ℕ) (xs : Bytes)
      → 0 < width
      → width * i < length xs
      → (slice
            (encrypted_length width * i)
            (encrypted_length width)
            (stored_bytes (all_from (length xs) 0 xs))
          ≡ (sealed i (slice (width * i) width xs)).bytes)
        × (slice (32 * i) 32 (stored_hmacs (all_from (length xs) 0 xs))
            ≡ (sealed i (slice (width * i) width xs)).hmac)
  chunk_at i xs p h = (
    part_at (λ x. x.bytes) (encrypted_length width)
          (λ j x q. encrypt-length c s e j (ivs j) x (long j) ∙ ap encrypted_length q)
          (λ j x q. omega (arith, encrypt-length c s e j (ivs j) x (long j))) p i (length xs) 0 xs
          (omega arith) h
        ∙ ap (λ a. (sealed a (slice (width * i) width xs)).bytes) start,
    part_at (λ x. x.hmac) 32 (λ j x q. hmac_length j x) (λ j x q. omega (arith, hmac_length j x)) p
          i (length xs) 0 xs (omega arith) h
        ∙ ap (λ a. (sealed a (slice (width * i) width xs)).hmac) start,
  )
    where
      start : 0 + i ≡ i
      start = omega arith

      hmac_length : (j : ℕ) (x : Bytes) → length (sealed j x).hmac ≡ 32
      hmac_length j x = unfold encrypt in s.hmac_length _ _

  -- Of a file encrypted chunk by chunk, the bytes and the checksum cut out at the places of a
  -- chunk that begins in the file decrypt to that chunk. The cryptographic service is sound, every
  -- vector has 16 bytes and the chunk size is not 0.
  pub decrypts_at :
      (i : ℕ) (xs : Bytes)
      → 0 < width
      → width * i < length xs
      → decrypt c e i (record {
        bytes =
            slice
              (encrypted_length width * i)
              (encrypted_length width)
              (stored_bytes (all_from (length xs) 0 xs));
        hmac = slice (32 * i) 32 (stored_hmacs (all_from (length xs) 0 xs));
      })
        ≡ ok (slice (width * i) width xs)
  decrypts_at i xs p h =
      let (same_bytes, same_hmac) = chunk_at i xs p h in
      ap₂ (λ b t. decrypt c e i (record { bytes = b; hmac = t })) same_bytes same_hmac
      ∙ decrypt-encrypt c s e i (ivs i) (slice (width * i) width xs) (long i)
