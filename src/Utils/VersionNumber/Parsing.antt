-- ===== src/Utils/VersionNumber/Parsing.antt =====
-- utils/src/VersionNumber.cpp, the constructor that reads a version from text. `unsigned long` has 64 bits.
pub mod Laws
use privmx_endpoint.Common.{
  ltb, leb, if◌then◌else◌, two64, Result, ok, err, ◌>>=◌, invalid_version_format, length, Bytes,
  bytes_eq, ℕ, ◌+◌, ◌-◌, ◌*◌, Bool, true, false, ◌&&◌, ◌||◌, Option, none, some, List, [], ◌∷◌,
}
use privmx_endpoint.Utils.Split.{split}
use privmx_endpoint.Utils.VersionNumber.{VersionNumber}

-- The characters `.` and `*`.
abbrev pub dot : Bytes
dot = 46 ∷ []

abbrev pub star : Bytes
star = 42 ∷ []

unfoldable pub is_digit : ℕ → Bool
is_digit x = leb 48 x && leb x 57

unfoldable pub all_digits : Bytes → Bool
all_digits [] = true
all_digits (x ∷ xs) = is_digit x && all_digits xs

-- `std::stoul`: the digits in front, and what is left behind them.
unfoldable pub span_digits : Bytes → Bytes × Bytes
span_digits [] = ([], [])
span_digits (x ∷ xs) =
    let rest = span_digits xs in if is_digit x then (x ∷ rest.0, rest.1) else ([], x ∷ xs)

unfoldable pub number_from : ℕ → Bytes → ℕ
number_from n [] = n
number_from n (x ∷ xs) = number_from (10 * n + (x - 48)) xs

-- It is called where a digit stands, so the white space and the sign that std::stoul takes are left out.
unfoldable pub stoul : Bytes → Result (ℕ × Bytes)
unfolding number_from span_digits
stoul text =
    let (digits, rest) = span_digits text in
    if ltb 0 (length digits) && ltb (number_from 0 digits) two64
    then ok (number_from 0 digits, rest)
    else err invalid_version_format

unfoldable pub is_number : Bytes → Bool
unfolding all_digits
is_number text = ltb 0 (length text) && all_digits text

unfoldable pub starts_with_digit : Bytes → Bool
starts_with_digit [] = false
starts_with_digit (x ∷ xs) = is_digit x

-- What stands behind the digits of the build, if anything does.
abbrev pub comment_of : Bytes → Option Bytes
comment_of [] = none
comment_of (x ∷ xs) = some (x ∷ xs)

unfoldable pub read_build : Bytes → Result (Option ℕ × Option Bytes)
unfolding stoul
read_build text =
    if bytes_eq text star
    then ok (none, none)
    else stoul text >>= λ read. ok (some read.0, comment_of read.1)

unfoldable pub read_version :
    Bytes → Bytes → Bytes → Result (Option ℕ × Option Bytes) → Result VersionNumber
unfolding stoul
read_version text major minor build = stoul major >>= λ a. stoul minor >>= λ b. build >>= λ c.
    ok (record { version_str = text; major = a.0; minor = b.0; build = c.0; comment = c.1 })

-- By the parts that the dots leave.
unfoldable pub parse_tokens : Bytes → List Bytes → Result VersionNumber
unfolding is_number starts_with_digit read_build read_version
parse_tokens text (a ∷ b ∷ []) =
    if is_number a && is_number b
    then read_version text a b (ok (none, none))
    else err invalid_version_format
parse_tokens text (a ∷ b ∷ t ∷ []) =
    if is_number a && is_number b && (starts_with_digit t || bytes_eq t star)
    then read_version text a b (read_build t)
    else err invalid_version_format
parse_tokens text _ = err invalid_version_format

unfoldable pub parse_version : Bytes → Result VersionNumber
unfolding parse_tokens
parse_version text = elim (split text dot) [
  | none ↦ err invalid_version_format
  | some tokens ↦ parse_tokens text tokens
]
