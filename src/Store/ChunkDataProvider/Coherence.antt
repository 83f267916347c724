-- ===== src/Store/ChunkDataProvider/Coherence.antt =====
-- The kept server chunk agrees with the file on the server, so that `getChunk` returns the file's
-- chunks, before and after an update.
use native.Mathlib.Nat.{
  div-add-mod, mod-lt, mul-sub, mul-lt-mul_of_pos_left, le-div_iff_mul-le, lt_of_mul-lt-mul_left,
  mul-div-le,
}
use privmx_endpoint.Common.{
  ltb, ltb→lt, ==_iff, Bool-cases, two32, two64, u64, u32-eq_of_lt, u64-eq_of_lt, ok, length, take,
  take_all, drop_all, Bytes, substr-eq, ℕ, suc, ◌+◌, ◌-◌, ◌*◌, ◌/◌, ◌%◌, ◌≤◌, ◌<◌, ◌≡◌, refl, sym,
  ap, ◌∙◌, inl, inr, true, Option, none, some, [], arith, ℕ_discrete, slice, slice-slice,
  length-slice, ==-false,
}
use privmx_endpoint.Store.ChunkDataProvider.{
  Server, Provider, reply, is_cached, request_server_chunk, cut_chunk, load_server_chunk,
  at_version, get_chunk_from, get_chunk,
}

-- Whole chunks only fit into a server chunk: a chunk never crosses its end.
pub mul-le : (e m q : ℕ) → m ≤ q → e * m ≤ e * q
mul-le e m q h = grind arith

window_fits : (e q n : ℕ) → 0 < e → 0 < q → (e * n) % (e * q) + e ≤ e * q
window_fits e q n h k = omega (
  arith,
  remainder,
  mul-le e (suc m) q (lt_of_mul-lt-mul_left e {m = m} {n = q} (omega (arith, remainder, small))),
)
  where
    d : ℕ
    d = e * n / (e * q)

    m : ℕ
    m = n - q * d

    small : (e * n) % (e * q) < e * q
    small = mod-lt (e * n) (grind arith)

    remainder : (e * n) % (e * q) ≡ e * m
    remainder = omega (arith, div-add-mod (e * n) (e * q), mul-sub e n (q * d))

-- The server holds `file` under the version that the provider asks for.
abbrev pub Serves : Server → Bytes → ℕ → Bytes → Type 0
Serves server id version file =
    (from to : ℕ) → server.read_slice id version from to ≡ reply (slice from (to - from) file)

-- The kept server chunk is the file's.
abbrev pub IsCoherent : Provider → Bytes → Option ℕ → Type 0
IsCoherent p file none = Unit {0}
IsCoherent p file (some k) =
    p.last_server_chunk ≡ slice (p.server_chunk_size * k) p.server_chunk_size file

-- The provider that keeps the file's server chunk `k`.
abbrev pub kept : Provider → Bytes → ℕ → Provider
kept p file k = record p {
  last_server_chunk = slice (p.server_chunk_size * k) p.server_chunk_size file;
  last_server_chunk_number = some k;
}

-- Sizes for which the machine words do not wrap, for chunks of a file of `n` bytes.
pub record IsSized (p : Provider) (n : ℕ) : Type 0 where
  pub per_server_chunk : ℕ
  pub server_size : p.server_chunk_size ≡ p.encrypted_chunk_size * per_server_chunk
  pub some_chunks : 0 < per_server_chunk
  pub some_bytes : 0 < p.encrypted_chunk_size
  pub in_words : n + p.server_chunk_size < two64
  pub in_numbers : n / p.server_chunk_size + 1 < two32

pub kept-IsSized :
    (p : Provider) (file : Bytes) (k : ℕ) {n : ℕ} → IsSized p n → IsSized (kept p file k) n
kept-IsSized p file k v = record {
  per_server_chunk = v.per_server_chunk;
  server_size = v.server_size;
  some_chunks = v.some_chunks;
  some_bytes = v.some_bytes;
  in_words = v.in_words;
  in_numbers = v.in_numbers;
}

pub positive_size : (p : Provider) {n : ℕ} → IsSized p n → 0 < p.server_chunk_size
positive_size p v =
    rw v.server_size (
      omega (arith, mul-lt-mul_of_pos_left {k = p.encrypted_chunk_size} v.some_chunks v.some_bytes))

module _ (p : Provider) (file : Bytes) {n : ℕ} (v : IsSized p n) (i : ℕ) where
  abbrev pub position : ℕ
  position = p.encrypted_chunk_size * i

  -- The chunk lies in one server chunk.
  pub chunk_inside : position % p.server_chunk_size + p.encrypted_chunk_size ≤ p.server_chunk_size
  chunk_inside =
      rw v.server_size
        (window_fits p.encrypted_chunk_size v.per_server_chunk i v.some_bytes v.some_chunks)

  -- A cut of the file's server chunk is the file's chunk.
  cut_chunk-slice :
      p.last_server_chunk
        ≡ slice (p.server_chunk_size * (position / p.server_chunk_size)) p.server_chunk_size file
      → cut_chunk p (position % p.server_chunk_size)
        ≡ ok (slice position p.encrypted_chunk_size file)
  unfolding cut_chunk
  cut_chunk-slice e = elim (Bool-cases (ltb (length p.last_server_chunk) offset)) [
    | inl short ↦ rw short (
        sym (
          ap (λ l. ok (take p.encrypted_chunk_size l))
            (drop_all position file (
              omega (
                arith,
                whole,
                chunk_inside,
                ltb→lt (length p.last_server_chunk) offset short,
                ap length e,
                length-slice start p.server_chunk_size file,
              )))
          ∙ ap ok (take_all p.encrypted_chunk_size [] (omega arith))))
    | inr long ↦ rw long (
        substr-eq p.last_server_chunk offset p.encrypted_chunk_size (ground (arith, long))
        ∙ ap ok (
            ap (slice offset p.encrypted_chunk_size) e
            ∙ slice-slice start p.server_chunk_size offset p.encrypted_chunk_size file chunk_inside
            ∙ ap (λ t. slice t p.encrypted_chunk_size file) whole))
  ]
    where
      offset : ℕ
      offset = position % p.server_chunk_size

      start : ℕ
      start = p.server_chunk_size * (position / p.server_chunk_size)

      whole : start + offset ≡ position
      whole = div-add-mod position p.server_chunk_size

module _ (server : Server) (p : Provider) (file : Bytes) {n : ℕ} (v : IsSized p n)
    (serves : Serves server p.file_id p.file_version file) where
  number_fits : (k : ℕ) → p.server_chunk_size * k ≤ n → k + 1 < two32
  number_fits k h = omega (
    arith,
    v.in_numbers,
    (le-div_iff_mul-le {k = p.server_chunk_size} {x = k} {y = n} (positive_size p v)).1
        (omega arith),
  )

  request-slice :
      (k : ℕ)
      → p.server_chunk_size * k ≤ n
      → request_server_chunk server p k
        ≡ ok (slice (p.server_chunk_size * k) p.server_chunk_size file)
  unfolding request_server_chunk
  request-slice k h =
      rw
        (
          u32-eq_of_lt k (omega (arith, number_fits k h)),
          u32-eq_of_lt (k + 1) (number_fits k h),
          u64-eq_of_lt (p.server_chunk_size * k) (omega (arith, v.in_words)),
          u64-eq_of_lt (p.server_chunk_size * (k + 1)) (omega (arith, v.in_words)),
          serves (p.server_chunk_size * k) (p.server_chunk_size * (k + 1)),
        )
        (ap (λ t. ok (slice (p.server_chunk_size * k) t file)) (omega arith))

  -- After loading, the kept server chunk is the wanted one.
  load-slice :
      (k : ℕ)
      → IsCoherent p file p.last_server_chunk_number
      → p.server_chunk_size * k ≤ n
      → (load_server_chunk server p k ≡ (kept p file k, ok tt))
  unfolding load_server_chunk
  load-slice k c h = elim (Bool-cases (is_cached p k)) [
    | inl hit ↦ rw hit (λ i. (
      record p {
        last_server_chunk = (rw (cached_number hit) at c) i;
        last_server_chunk_number = cached_number hit i;
      },
      ok tt,
    ))
    | inr miss ↦
        rw (miss, request-slice k h)
          (λ i. (
            record p {
              last_server_chunk = slice (p.server_chunk_size * k) p.server_chunk_size file;
              last_server_chunk_number = some (u32-eq_of_lt k (omega (arith, number_fits k h)) i);
            },
            ok tt,
          ))
  ]
    where
      cached_number : is_cached p k ≡ true → p.last_server_chunk_number ≡ some k
      cached_number hit = ground arith

  -- Reading at a position in the file.
  from-slice :
      (i : ℕ)
      → IsCoherent p file p.last_server_chunk_number
      → p.encrypted_chunk_size * i ≤ n
      → get_chunk_from server p (p.encrypted_chunk_size * i) ≡ (
        kept p file (p.encrypted_chunk_size * i / p.server_chunk_size),
        ok (slice (p.encrypted_chunk_size * i) p.encrypted_chunk_size file),
      )
  unfolding get_chunk_from
  from-slice i c h =
      rw
        (load-slice (p.encrypted_chunk_size * i / p.server_chunk_size) c
          (omega (arith, mul-div-le (p.encrypted_chunk_size * i) p.server_chunk_size)))
        (λ j. (after, cut_chunk-slice after file (kept-IsSized p file _ v) i refl j))
    where
      after : Provider
      after = kept p file (p.encrypted_chunk_size * i / p.server_chunk_size)

abbrev forgotten : Provider → ℕ → Provider
forgotten p version = record p { last_server_chunk_number = none; file_version = version }

forgotten-IsSized :
    (p : Provider) (version : ℕ) {n : ℕ} → IsSized p n → IsSized (forgotten p version) n
forgotten-IsSized p version v = record {
  per_server_chunk = v.per_server_chunk;
  server_size = v.server_size;
  some_chunks = v.some_chunks;
  some_bytes = v.some_bytes;
  in_words = v.in_words;
  in_numbers = v.in_numbers;
}

-- The sizes are those of a length up to which chunks are asked for.
pub get_chunk-slice_within :
    (server : Server) (p : Provider) (file : Bytes) (i version : ℕ) {n : ℕ}
    → IsSized p n
    → Serves server p.file_id version file
    → (p.file_version ≡ version → IsCoherent p file p.last_server_chunk_number)
    → i < two32
    → p.encrypted_chunk_size * i ≤ n
    → get_chunk server p i version ≡ (
      kept
          (record p { file_version = version })
          file
          (p.encrypted_chunk_size * i / p.server_chunk_size),
      ok (slice (p.encrypted_chunk_size * i) p.encrypted_chunk_size file),
    )
unfolding get_chunk at_version
get_chunk-slice_within server p file i version v serves c small h =
    elim (ℕ_discrete p.file_version version) [
      | yes same ↦
          rw ((==_iff p.file_version version).1 same, u32-eq_of_lt i small, words)
            (from-slice server p file v (rw (← same) at serves) i (c same) h ∙ λ j. (
              kept (record p { file_version = same j }) file
                  (p.encrypted_chunk_size * i / p.server_chunk_size),
              ok (slice (p.encrypted_chunk_size * i) p.encrypted_chunk_size file),
            ))
      | no other ↦
          rw (==-false p.file_version version other, u32-eq_of_lt i small, words)
            (from-slice server (forgotten p version) file (forgotten-IsSized p version v) serves i
              tt h)
    ]
  where
    words : u64 (p.encrypted_chunk_size * i) ≡ p.encrypted_chunk_size * i
    words = u64-eq_of_lt _ (omega (arith, v.in_words))

-- Where the server holds a file under the version asked for, getChunk returns the chunk at its
-- place in the file, cut where the file ends, and then keeps the file's server chunk around it.
-- The provider's sizes fit its machine words, what it keeps is the file's if its version is the
-- one asked for, the number is below 2^32 and the chunk begins at or in front of the end.
pub get_chunk-slice :
    (server : Server) (p : Provider) (file : Bytes) (i version : ℕ)
    → IsSized p (length file)
    → Serves server p.file_id version file
    → (p.file_version ≡ version → IsCoherent p file p.last_server_chunk_number)
    → i < two32
    → p.encrypted_chunk_size * i ≤ length file
    → get_chunk server p i version ≡ (
      kept
          (record p { file_version = version })
          file
          (p.encrypted_chunk_size * i / p.server_chunk_size),
      ok (slice (p.encrypted_chunk_size * i) p.encrypted_chunk_size file),
    )
get_chunk-slice server p file i version v serves c small h =
    get_chunk-slice_within server p file i version v serves c small h
