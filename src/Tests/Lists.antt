-- ===== src/Tests/Lists.antt =====
-- A list of two checksums.
use privmx_endpoint.Common.{
  u64, ok, replicate, Bytes, ℕ, ◌≡◌, refl, true, none, [], ◌∷◌, ◌++◌, arith,
}
use privmx_endpoint.Store.Crypto.{plain_crypto}
use privmx_endpoint.Store.HmacList.{HmacList, set, overwrite, get_hash}
use privmx_endpoint.Store.HmacList.Invariant.{IsValid, set-IsValid}
use privmx_endpoint.Store.HmacList.Lookup.{get_hash-set}

abbrev hash : ℕ → Bytes
hash n = replicate 32 n

abbrev two_hashes : HmacList
two_hashes = record { top_hash_key = 5 ∷ []; top_hash = none; size = 2; hashes = hash 1 ++ hash 2 }

two_hashes-IsValid : IsValid plain_crypto two_hashes
two_hashes-IsValid = record { whole = refl; current = tt }

-- The first checksum replaced, and the list cut behind it.
abbrev one_hash : HmacList
one_hash = record { top_hash_key = 5 ∷ []; top_hash = none; size = 1; hashes = hash 3 }

set_first : set two_hashes 0 (hash 3) true ≡ ok one_hash
unfolding set overwrite u64
set_first = refl

get_hash-set_example : (one_hash.size ≡ 1) × (get_hash one_hash 0 ≡ ok (hash 3))
get_hash-set_example =
    get_hash-set plain_crypto two_hashes 0 0 (hash 3) true two_hashes-IsValid (omega arith)
      set_first (omega arith)

set-IsValid_example : IsValid plain_crypto one_hash
set-IsValid_example =
    set-IsValid plain_crypto two_hashes 0 (hash 3) true two_hashes-IsValid (omega arith) set_first
