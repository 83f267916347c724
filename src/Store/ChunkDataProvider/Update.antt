-- ===== src/Store/ChunkDataProvider/Update.antt =====
-- After the client has written a chunk to the server, `update` makes the kept server chunk follow.
use native.Mathlib.Nat.{div-add-mod}
use privmx_endpoint.Common.{
  ltb, ◌==◌, if◌then◌else◌, ==_iff, two32, u32-eq_of_lt, u64-eq_of_lt, length, take, drop,
  length-take, drop_all, Bytes, ℕ, suc, ◌+◌, ◌-◌, ◌*◌, ◌/◌, ◌%◌, ◌≤◌, ◌<◌, ◌≡◌, refl, sym, ap, ◌∙◌,
  Bool, true, false, Option, none, some, [], ◌++◌, append-nil, arith, dec_lt, ℕ_discrete, slice,
  splice, slice-append_before, slice-take, slice-splice_after, ==-false, slice-splice_window,
  slice-cut_window,
}
use privmx_endpoint.Store.ChunkDataProvider.{Provider, patch, update}
use privmx_endpoint.Store.ChunkDataProvider.Coherence.{IsCoherent, IsSized, chunk_inside, mul-le}

-- The file with a chunk written at a position, and cut behind it where `truncate` is set.
abbrev pub written : Bytes → ℕ → Bytes → Bool → Bytes
written file at new truncate = if truncate then take at file ++ new else splice at new file

patch-slice :
    (start size at : ℕ) (file new : Bytes) (truncate : Bool)
    → start ≤ at
    → at ≤ length file
    → at + length new ≤ start + size
    → patch (slice start size file) (at - start) new truncate
      ≡ slice start size (written file at new truncate)
unfolding patch
patch-slice start size at file new true h k m =
    ap (λ l. take (at - start) (slice start size file) ++ l) (append-nil new)
    ∙ sym (slice-cut_window start size at new file h k m)
patch-slice start size at file new false h k m =
    ap (λ l. take (at - start) (slice start size file) ++ (new ++ l)) tail_of
    ∙ sym (slice-splice_window start size at new file h k m)
  where
    tail_of :
        (if ltb (at - start + length new) (length (slice start size file))
          then drop (at - start + length new) (slice start size file)
          else [])
        ≡ drop (at - start + length new) (slice start size file)
    tail_of = ground (arith, drop_all (at - start + length new) (slice start size file))

-- The kept server chunk does not lie behind that of chunk `i`.
abbrev pub InFront : Provider → ℕ → Option ℕ → Type 0
InFront p i none = Unit {0}
InFront p i (some k) = k ≤ p.encrypted_chunk_size * i / p.server_chunk_size

module _ (p : Provider) (file : Bytes) (v : IsSized p (length file)) (i : ℕ) (new : Bytes)
    (fits : length new ≤ p.encrypted_chunk_size)
    (inside : p.encrypted_chunk_size * i ≤ length file) where
  abbrev at : ℕ
  at = p.encrypted_chunk_size * i

  abbrev server_number : ℕ
  server_number = at / p.server_chunk_size

  whole : p.server_chunk_size * server_number + at % p.server_chunk_size ≡ at
  whole = div-add-mod at p.server_chunk_size

  -- The server chunk that holds the written chunk.
  patched :
      (truncate : Bool)
      → patch
          (slice (p.server_chunk_size * server_number) p.server_chunk_size file)
          (at % p.server_chunk_size)
          new
          truncate
        ≡ slice
            (p.server_chunk_size * server_number)
            p.server_chunk_size
            (written file at new truncate)
  patched truncate =
      ap (λ t. patch (slice start p.server_chunk_size file) t new truncate) (omega (arith, whole))
      ∙ patch-slice start p.server_chunk_size at file new truncate (omega (arith, whole)) inside
          (omega (arith, whole, chunk_inside p file v i))
    where
      start : ℕ
      start = p.server_chunk_size * server_number

  -- A server chunk in front of it.
  in_front :
      (k : ℕ) (truncate : Bool)
      → k < server_number
      → slice (p.server_chunk_size * k) p.server_chunk_size (written file at new truncate)
        ≡ slice (p.server_chunk_size * k) p.server_chunk_size file
  in_front k truncate h = go truncate
    where
      before : p.server_chunk_size * k + p.server_chunk_size ≤ at
      before = omega (arith, whole, mul-le p.server_chunk_size (suc k) server_number h)

      kept_head :
          (rest : Bytes)
          → slice (p.server_chunk_size * k) p.server_chunk_size (take at file ++ rest)
            ≡ slice (p.server_chunk_size * k) p.server_chunk_size file
      kept_head rest =
          slice-append_before (p.server_chunk_size * k) p.server_chunk_size (take at file) rest
            (omega (arith, before, length-take at file))
          ∙ slice-take (p.server_chunk_size * k) p.server_chunk_size at file before

      go :
          (t : Bool)
          → slice (p.server_chunk_size * k) p.server_chunk_size (written file at new t)
            ≡ slice (p.server_chunk_size * k) p.server_chunk_size file
      go true = kept_head new
      go false = kept_head (new ++ drop (at + length new) file)

  -- One behind it, where nothing is cut off.
  behind :
      (k : ℕ)
      → server_number < k
      → slice (p.server_chunk_size * k) p.server_chunk_size (written file at new false)
        ≡ slice (p.server_chunk_size * k) p.server_chunk_size file
  behind k h = slice-splice_after at (p.server_chunk_size * k) p.server_chunk_size new file inside (
      omega
        (arith, whole, chunk_inside p file v i, mul-le p.server_chunk_size (suc server_number) k h))

  elsewhere :
      (k : ℕ) (truncate : Bool)
      → ¬ (k ≡ server_number)
      → (truncate ≡ true → k ≤ server_number)
      → slice (p.server_chunk_size * k) p.server_chunk_size (written file at new truncate)
        ≡ slice (p.server_chunk_size * k) p.server_chunk_size file
  elsewhere k true other front = in_front k true (omega (arith, front refl))
  elsewhere k false other front = elim (dec_lt k server_number) [
    | yes h ↦ in_front k false h
    | no h ↦ behind k (omega arith)
  ]

-- If the kept server chunk is the file's, then after update it is that of the file with the new
-- chunk written in (and cut behind it where truncate is set). The provider's sizes fit its machine
-- words, the new bytes are at most a chunk, the number is below 2^32 and the place lies in the
-- file; where truncate is set the kept server chunk does not lie behind the written one.
pub update-IsCoherent :
    (p : Provider) (file : Bytes) (i version size : ℕ) (new : Bytes) (truncate : Bool)
    (k : Option ℕ)
    → IsSized p (length file)
    → length new ≤ p.encrypted_chunk_size
    → i < two32
    → p.encrypted_chunk_size * i ≤ length file
    → p.last_server_chunk_number ≡ k
    → IsCoherent p file k
    → (truncate ≡ true → InFront p i k)
    → IsCoherent
        (update p version i new size truncate)
        (written file (p.encrypted_chunk_size * i) new truncate)
        k
unfolding update
update-IsCoherent p file i version size new truncate none v fits small inside e c front = tt
update-IsCoherent p file i version size new truncate (some k) v fits small inside e c front =
    rw
      (
        u32-eq_of_lt i small,
        u64-eq_of_lt (p.encrypted_chunk_size * i) (omega (arith, v.in_words)),
        e,
      )
      (go (ℕ_discrete k number))
  where
    number : ℕ
    number = p.encrypted_chunk_size * i / p.server_chunk_size

    go :
        Dec (k ≡ number)
        → (if k == number
            then patch p.last_server_chunk
                (p.encrypted_chunk_size * i % p.server_chunk_size)
                new
                truncate
            else p.last_server_chunk)
          ≡ slice
              (p.server_chunk_size * k)
              p.server_chunk_size
              (written file (p.encrypted_chunk_size * i) new truncate)
    go (yes same) =
        rw ((==_iff k number).1 same, c, same) (patched p file v i new fits inside truncate)
    go (no other) =
        rw (==-false k number other, c)
          (sym (elsewhere p file v i new fits inside k truncate other front))
