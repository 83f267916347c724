-- ===== src/Store/HmacList/Invariant.antt =====
-- The checksum list stays a whole number of checksums, and its cached top checksum stays current.
use privmx_endpoint.Common.{
  if◌then◌else◌, two64, u64-eq_of_lt, ok, length, take, length-append, length-take, Bytes, ℕ, ◌+◌,
  ◌*◌, ◌≤◌, ◌<◌, ◌≡◌, Bool, true, false, Option, none, some, arith, splice, length-splice,
}
use privmx_endpoint.Store.Crypto.{Crypto}
use privmx_endpoint.Store.HmacList.{HmacList, is_whole, create, sync, set_all, set, overwrite}

-- The cached checksum, where there is one, is that of the list.
abbrev pub IsCurrent : Crypto → HmacList → Option Bytes → Type 0
IsCurrent c l none = Unit {0}
IsCurrent c l (some h) = c.hmac_sha256 l.top_hash_key l.hashes ≡ h

pub record IsValid (c : Crypto) (l : HmacList) : Type 0 where
  pub whole : length l.hashes ≡ 32 * l.size
  pub current : IsCurrent c l l.top_hash

-- The 64-bit offsets do not wrap.
abbrev pub Fits : HmacList → Type 0
Fits l = 32 * l.size + 32 < two64

-- For a checksum of 32 bytes `memcpy` is a splice, and `erase` keeps what ends with it.
pub overwrite-splice :
    (hashes : Bytes) (p : ℕ) (hash : Bytes) (truncate : Bool)
    → length hash ≡ 32
    → overwrite hashes p hash truncate
      ≡ (if truncate then take (p + 32) (splice p hash hashes) else splice p hash hashes)
unfolding overwrite
overwrite-splice hashes p hash truncate h = rw h

length-overwrite :
    (hashes : Bytes) (p : ℕ) (hash : Bytes) (truncate : Bool)
    → length hash ≡ 32
    → p + 32 ≤ length hashes
    → length (overwrite hashes p hash truncate) ≡ (if truncate then p + 32 else length hashes)
length-overwrite hashes p hash true h k = rw (overwrite-splice hashes p hash true h) (
    omega (
      arith,
      length-take (p + 32) (splice p hash hashes),
      length-splice p hash hashes (omega arith),
    ))
length-overwrite hashes p hash false h k =
    rw (overwrite-splice hashes p hash false h) (length-splice p hash hashes (omega arith))

module _ (c : Crypto) where
  pub create-IsValid :
      (key top hashes : Bytes) {l : HmacList} → create c key top hashes ≡ ok l → IsValid c l
  unfolding create is_whole
  create-IsValid key top hashes h = ground arith

  pub sync-IsValid :
      (l : HmacList) (key top hashes : Bytes) {l' : HmacList}
      → sync c l key top hashes ≡ ok l'
      → IsValid c l'
  unfolding sync is_whole
  sync-IsValid l key top hashes h = ground arith

  pub set_all-IsValid :
      (l : HmacList) (hashes : Bytes) {l' : HmacList} → set_all l hashes ≡ ok l' → IsValid c l'
  unfolding set_all is_whole
  set_all-IsValid l hashes h = ground arith

  -- A set that succeeds on a valid list whose offsets fit 64 bits leaves a valid list: as many
  -- bytes as 32 times the number of checksums, and no cached top checksum of other bytes.
  pub set-IsValid :
      (l : HmacList) (i : ℕ) (hash : Bytes) (truncate : Bool) {l' : HmacList}
      → IsValid c l
      → Fits l
      → set l i hash truncate ≡ ok l'
      → IsValid c l'
  unfolding set
  set-IsValid l i hash truncate v fits h = ground (
    arith,
    u64-eq_of_lt (i * 32),
    length-overwrite l.hashes (i * 32) hash truncate,
    length-append l.hashes hash,
  )
