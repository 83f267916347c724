-- ===== src/Store/HmacList/Lookup.antt =====
-- What `getHash` and `getTopHash` return after a change.
use privmx_endpoint.Common.{
  leb, ◌==◌, if◌then◌else◌, le→leb, ==_iff, two64, u64, u64-eq_of_lt, Result, ok, err,
  hash_index_out_of_bounds, length, take_all, Bytes, substr-eq, ℕ, ◌+◌, ◌*◌, ◌≤◌, ◌<◌, ◌≡◌, sym, ap,
  ◌∙◌, ◌⊎◌, inl, inr, Bool, true, false, ◌++◌, arith, drop-append_eq, ℕ_discrete, slice, splice,
  slice-append_before, slice-take, slice-splice_self, slice-splice_before, slice-splice_after,
  ==-false,
}
use privmx_endpoint.Store.Crypto.{Crypto}
use privmx_endpoint.Store.HmacList.{HmacList, set, overwrite, get_hash, get_top_hash}
use privmx_endpoint.Store.HmacList.Invariant.{IsValid, Fits, overwrite-splice, set-IsValid}

-- For a valid list whose offsets fit 64 bits, getHash returns the checksum at the index (the empty
-- string where the index is the number of checksums), and throws exactly where the index is
-- greater than that.
pub get_hash-slice :
    (c : Crypto) (l : HmacList) (i : ℕ)
    → IsValid c l
    → Fits l
    → get_hash l i
      ≡ (if leb i l.size then ok (slice (32 * i) 32 l.hashes) else err hash_index_out_of_bounds)
unfolding get_hash
get_hash-slice c l i v fits = ground (
  arith,
  u64-eq_of_lt (i * 32),
  substr-eq l.hashes (u64 (i * 32)) 32,
  ap (λ k. slice k 32 l.hashes) mul,
)
  where
    mul : i * 32 ≡ 32 * i
    mul = omega arith

-- For a valid list getTopHash returns the authentication code of the list's bytes under its key,
-- whether it is cached or computed.
pub get_top_hash-current :
    (c : Crypto) (l : HmacList)
    → IsValid c l
    → (get_top_hash c l).1 ≡ c.hmac_sha256 l.top_hash_key l.hashes
unfolding get_top_hash
get_top_hash-current c l v = ground arith

get_top_hash-IsValid : (c : Crypto) (l : HmacList) → IsValid c l → IsValid c (get_top_hash c l).0
unfolding get_top_hash
get_top_hash-IsValid c l v = ground arith

-- A lookup before the end, by position.
pub get_hash-inside :
    (l : HmacList) (i : ℕ)
    → i < l.size
    → 32 * i < two64
    → length l.hashes ≡ 32 * l.size
    → get_hash l i ≡ ok (slice (32 * i) 32 l.hashes)
unfolding get_hash
get_hash-inside l i h fits whole =
    rw (le→leb i l.size (omega arith), times, u64-eq_of_lt (32 * i) fits)
      (substr-eq l.hashes (32 * i) 32 (omega arith))
  where
    times : i * 32 ≡ 32 * i
    times = omega arith

module _ (hashes hash : Bytes) (i j size : ℕ) (whole : length hashes ≡ 32 * size)
    (full : length hash ≡ 32) where
  slice-splice :
      i < size
      → slice (32 * j) 32 (splice (32 * i) hash hashes)
        ≡ (if j == i then hash else slice (32 * j) 32 hashes)
  slice-splice h = ground (
    arith,
    slice-splice_self (32 * i) hash hashes,
    slice-splice_before (32 * i) (32 * j) 32 hash hashes,
    slice-splice_after (32 * i) (32 * j) 32 hash hashes,
  )

  slice-append :
      j ≤ size
      → slice (32 * j) 32 (hashes ++ hash) ≡ (if j == size then hash else slice (32 * j) 32 hashes)
  slice-append h = ground (
    arith,
    drop-append_eq (32 * j) hashes hash,
    take_all 32 hash,
    slice-append_before (32 * j) 32 hashes hash,
  )

overwrite-slice :
    (hashes hash : Bytes) (i j size : ℕ) (truncate : Bool)
    → length hashes ≡ 32 * size
    → length hash ≡ 32
    → i < size
    → j < (if truncate then i + 1 else size)
    → slice (32 * j) 32 (overwrite hashes (32 * i) hash truncate)
      ≡ (if j == i then hash else slice (32 * j) 32 hashes)
overwrite-slice hashes hash i j size true whole full h k =
    rw (overwrite-splice hashes (32 * i) hash true full) (
      slice-take (32 * j) 32 (32 * i + 32) (splice (32 * i) hash hashes) (omega arith)
      ∙ slice-splice hashes hash i j size whole full h)
overwrite-slice hashes hash i j size false whole full h k =
    rw (overwrite-splice hashes (32 * i) hash false full)
      (slice-splice hashes hash i j size whole full h)

-- The two ways in which `set` succeeds.
pub set-cases :
    (l : HmacList) (i : ℕ) (hash : Bytes) (truncate : Bool) {l' : HmacList}
    → set l i hash truncate ≡ ok l'
    → (length hash ≡ 32)
      × (((i < l.size)
            × (l'.hashes ≡ overwrite l.hashes (u64 (i * 32)) hash truncate)
            × (l'.size ≡ (if truncate then i + 1 else l.size)))
          ⊎ ((i ≡ l.size) × (l'.hashes ≡ l.hashes ++ hash) × (l'.size ≡ l.size + 1)))
unfolding set
set-cases l i hash truncate h = ground arith

set-slices :
    (l : HmacList) (i j : ℕ) (hash : Bytes) (truncate : Bool) {l' : HmacList}
    → length l.hashes ≡ 32 * l.size
    → Fits l
    → set l i hash truncate ≡ ok l'
    → j < l'.size
    → (l'.size ≡ (if i == l.size then l.size + 1 else if truncate then i + 1 else l.size))
      × (slice (32 * j) 32 l'.hashes ≡ (if j == i then hash else slice (32 * j) 32 l.hashes))
set-slices l i j hash truncate {l'} whole fits h k = go (set-cases l i hash truncate h)
  where
    times : i < l.size → u64 (i * 32) ≡ 32 * i
    times p = u64-eq_of_lt (i * 32) (omega arith) ∙ omega arith

    Goal : Type 0
    Goal =
        (l'.size ≡ (if i == l.size then l.size + 1 else if truncate then i + 1 else l.size))
        × (slice (32 * j) 32 l'.hashes ≡ (if j == i then hash else slice (32 * j) 32 l.hashes))

    go :
        (length hash ≡ 32)
          × (((i < l.size)
                × (l'.hashes ≡ overwrite l.hashes (u64 (i * 32)) hash truncate)
                × (l'.size ≡ (if truncate then i + 1 else l.size)))
              ⊎ ((i ≡ l.size) × (l'.hashes ≡ l.hashes ++ hash) × (l'.size ≡ l.size + 1)))
        → Goal
    go (full, inl (p, e, n)) = (
      ground arith,
      rw (e, times p) (overwrite-slice l.hashes hash i j l.size truncate whole full p (rw n at k)),
    )
    go (full, inr (p, e, n)) =
        (ground arith, rw (e, p) (slice-append l.hashes hash i j l.size whole full (omega arith)))

-- After a set that succeeds on a valid list whose offsets fit 64 bits, the number of checksums is
-- one more where one was appended, the index plus one where the list was cut, and else the same; a
-- lookup below it gives the new checksum at its index and the old one elsewhere.
pub get_hash-set :
    (c : Crypto) (l : HmacList) (i j : ℕ) (hash : Bytes) (truncate : Bool) {l' : HmacList}
    → IsValid c l
    → Fits l
    → set l i hash truncate ≡ ok l'
    → j < l'.size
    → (l'.size ≡ (if i == l.size then l.size + 1 else if truncate then i + 1 else l.size))
      × (get_hash l' j ≡ (if j == i then ok hash else get_hash l j))
get_hash-set c l i j hash truncate {l'} v fits h k = (
  sizes.0,
  get_hash-inside l' j k (omega (arith, bound)) (set-IsValid c l i hash truncate v fits h).whole
      ∙ ap ok sizes.1
      ∙ old (ℕ_discrete j i),
)
  where
    sizes :
        (l'.size ≡ (if i == l.size then l.size + 1 else if truncate then i + 1 else l.size))
        × (slice (32 * j) 32 l'.hashes ≡ (if j == i then hash else slice (32 * j) 32 l.hashes))
    sizes = set-slices l i j hash truncate v.whole fits h k

    bound : l'.size ≤ l.size + 1
    bound = ground (arith, set-cases l i hash truncate h)

    old :
        Dec (j ≡ i)
        → ◌≡◌ {A = Result Bytes}
            (ok (if j == i then hash else slice (32 * j) 32 l.hashes))
            (if j == i then ok hash else get_hash l j)
    old (yes e) = rw ((==_iff j i).1 e)
    old (no n) =
        let p : j < l.size = ground (arith, sizes.0, set-cases l i hash truncate h) in
        rw (==-false j i n) (sym (get_hash-inside l j p (omega arith) v.whole))
