-- ===== src/Utils/VersionNumber/Order.antt =====
-- The order of versions.
use privmx_endpoint.Common.{Bytes, ℕ, ◌<◌, ◌≡◌, ◌↔◌, ◌⊎◌, true, none, some, arith}
use privmx_endpoint.Utils.VersionNumber.{
  VersionNumber, less, less_build, less_comment, greater, equal, equal_build, equal_comment,
}

-- A version with a build and without a comment.
abbrev pub release : ℕ → ℕ → ℕ → Bytes → VersionNumber
release a b c s = record { version_str = s; major = a; minor = b; build = some c; comment = none }

-- The order of three numbers, the first deciding.
abbrev pub IsBefore : ℕ → ℕ → ℕ → ℕ → ℕ → ℕ → Type 0
IsBefore a b c x y z = (a < x) ⊎ ((a ≡ x) × ((b < y) ⊎ ((b ≡ y) × (c < z))))

-- For versions with a build and without a comment, whatever their texts, the operators < and > are
-- the order of the three numbers, the first deciding, and == is their equality.
pub release-IsBefore :
    (a b c x y z : ℕ) (s t : Bytes)
    → ((less (release a b c s) (release x y z t) ≡ true) ↔ IsBefore a b c x y z)
      × ((greater (release a b c s) (release x y z t) ≡ true) ↔ IsBefore x y z a b c)
      × ((equal (release a b c s) (release x y z t) ≡ true) ↔ ((a ≡ x) × (b ≡ y) × (c ≡ z)))
unfolding less less_build less_comment greater equal equal_build equal_comment
release-IsBefore a b c x y z s t = (ground arith, ground arith, ground arith)

-- A version without a build is at once less than itself and equal to itself.
pub less-equal : (v : VersionNumber) → v.build ≡ none → (less v v ≡ true) × (equal v v ≡ true)
unfolding less less_build equal equal_build
less-equal v h = rw h (ground arith, ground arith)
