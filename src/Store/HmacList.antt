-- ===== src/Store/HmacList.antt =====
-- endpoint/store/src/encryptors/fileData/HmacList.cpp: the checksums of a file's chunks, one after
-- another in one string, under a checksum of their own.
pub mod Invariant
pub mod Lookup
use privmx_endpoint.Common.{
  ltb, leb, ◌==◌, if◌then◌else◌, u64, Result, ok, err, ◌>>=◌, ◌>>◌, guard, invalid_file_top_hash,
  invalid_hash_size, hash_index_out_of_bounds, length, take, drop, Bytes, bytes_eq, substr, ℕ, ◌+◌,
  ◌*◌, ◌/◌, ◌%◌, Bool, Option, none, some, ◌++◌,
}
use privmx_endpoint.Store.Crypto.{Crypto}
use privmx_endpoint.Store.ChunkEncryptor.{hmac_size}

pub record HmacList : Type 0 where
  pub top_hash_key : Bytes
  pub top_hash : Option Bytes
  pub size : ℕ
  pub hashes : Bytes

-- `hashes.size() % HMAC_SIZE != 0` does not hold.
unfoldable pub is_whole : Bytes → Bool
is_whole hashes = length hashes % hmac_size == 0

module _ (c : Crypto) where
  -- The constructor.
  unfoldable pub create : Bytes → Bytes → Bytes → Result HmacList
  create top_hash_key top_hash hashes = do
    let computed = c.hmac_sha256 top_hash_key hashes
    guard (bytes_eq computed top_hash) invalid_file_top_hash
    guard (is_whole hashes) invalid_hash_size
    ok (record {
      top_hash_key = top_hash_key;
      top_hash = some computed;
      size = length hashes / hmac_size;
      hashes = hashes;
    })

  unfoldable pub sync : HmacList → Bytes → Bytes → Bytes → Result HmacList
  sync l top_hash_key top_hash hashes = do
    let computed = c.hmac_sha256 top_hash_key hashes
    guard (bytes_eq computed top_hash) invalid_file_top_hash
    guard (is_whole hashes) invalid_hash_size
    ok (record l {
      top_hash_key = top_hash_key;
      hashes = hashes;
      top_hash = some computed;
      size = length hashes / hmac_size;
    })

  -- The cached checksum is computed anew where a change has reset it.
  unfoldable pub get_top_hash : HmacList → HmacList × Bytes
  get_top_hash l = elim l.top_hash [
    | none ↦ (
      record l { top_hash = some (c.hmac_sha256 l.top_hash_key l.hashes) },
      c.hmac_sha256 l.top_hash_key l.hashes,
    )
    | some h ↦ (l, h)
  ]

  unfoldable pub verify_top_hash : HmacList → Bytes → HmacList × Bool
  verify_top_hash l hash = let (l', h) = get_top_hash l in (l', bytes_eq h hash)

unfoldable pub set_all : HmacList → Bytes → Result HmacList
set_all l hashes =
    guard (is_whole hashes) invalid_hash_size
    >> ok (record l { hashes = hashes; top_hash = none; size = length hashes / hmac_size })

-- `memcpy` over one checksum, and `erase` of what follows it.
unfoldable pub overwrite : Bytes → ℕ → Bytes → Bool → Bytes
overwrite hashes offset hash truncate =
    let copied = take offset hashes ++ (hash ++ drop (offset + hmac_size) hashes) in
    if truncate then take (offset + hmac_size) copied else copied

unfoldable pub set : HmacList → ℕ → Bytes → Bool → Result HmacList
set l index hash truncate =
    guard (length hash == hmac_size) invalid_hash_size
    >> (if ltb index l.size
        then ok (record l {
          hashes = overwrite l.hashes (u64 (index * hmac_size)) hash truncate;
          size = if truncate then index + 1 else l.size;
          top_hash = none;
        })
        else if index == l.size
        then ok (record l { size = l.size + 1; hashes = l.hashes ++ hash; top_hash = none })
        else err hash_index_out_of_bounds)

-- The index of the first missing checksum passes the test, and gives the empty string.
unfoldable pub get_hash : HmacList → ℕ → Result Bytes
get_hash l index =
    guard (leb index l.size) hash_index_out_of_bounds
    >> substr l.hashes (u64 (index * hmac_size)) hmac_size

unfoldable pub get_all : HmacList → Bytes
get_all l = l.hashes

unfoldable pub verify_hash : HmacList → ℕ → Bytes → Result Bool
verify_hash l index hash = do h ← get_hash l index; ok (bytes_eq h hash)

abbrev pub get_hash_size : ℕ
get_hash_size = hmac_size
