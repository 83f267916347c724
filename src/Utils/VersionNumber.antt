-- ===== src/Utils/VersionNumber.antt =====
-- utils/src/VersionNumber.cpp, the comparisons. Characters are compared as numbers below 128.
pub mod Order
pub mod Parsing
use privmx_endpoint.Common.{
  ltb, ◌==◌, if◌then◌else◌, Bytes, bytes_eq, ℕ, Bool, true, false, ◌&&◌, Option, none, some, [],
  ◌∷◌,
}

pub record VersionNumber : Type 0 where
  pub version_str : Bytes
  pub major : ℕ
  pub minor : ℕ
  pub build : Option ℕ
  pub comment : Option Bytes

-- `std::lexicographical_compare`.
unfoldable pub lexicographical_compare : Bytes → Bytes → Bool
lexicographical_compare [] [] = false
lexicographical_compare [] (y ∷ ys) = true
lexicographical_compare (x ∷ xs) [] = false
lexicographical_compare (x ∷ xs) (y ∷ ys) =
    let rest = lexicographical_compare xs ys in
    if ltb x y then true else if ltb y x then false else rest

-- The comparison of the comments of equal builds.
unfoldable pub less_comment : Option Bytes → Option Bytes → Bool
less_comment (some c) (some d) = lexicographical_compare c d
less_comment (some c) none = true
less_comment none d = false

-- The comparison below equal major and minor numbers; no build counts as smaller, also than no build.
unfoldable pub less_build : VersionNumber → VersionNumber → Option ℕ → Option ℕ → Bool
less_build v w none c = true
less_build v w (some b) none = false
less_build v w (some b) (some c) =
    if ltb b c then true else if b == c then less_comment v.comment w.comment else false

unfoldable pub less : VersionNumber → VersionNumber → Bool
less v w =
    if ltb v.major w.major
    then true
    else if v.major == w.major
    then if ltb v.minor w.minor
      then true
      else if v.minor == w.minor
      then less_build v w v.build w.build
      else false
    else false

unfoldable pub greater : VersionNumber → VersionNumber → Bool
unfolding less
greater v w = less w v

unfoldable pub equal_comment : Option Bytes → Option Bytes → Bool
equal_comment none none = true
equal_comment none (some d) = false
equal_comment (some c) none = false
equal_comment (some c) (some d) = bytes_eq c d

unfoldable pub equal_build : VersionNumber → VersionNumber → Option ℕ → Option ℕ → Bool
equal_build v w none none = true
equal_build v w none (some c) = false
equal_build v w (some b) none = false
equal_build v w (some b) (some c) = if b == c then equal_comment v.comment w.comment else false

unfoldable pub equal : VersionNumber → VersionNumber → Bool
equal v w =
    if v.major == w.major && v.minor == w.minor then equal_build v w v.build w.build else false
