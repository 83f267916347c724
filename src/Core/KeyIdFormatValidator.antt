-- ===== src/Core/KeyIdFormatValidator.antt =====
-- endpoint/core/src/KeyIdFormatValidator.cpp and the four classes derived from it in endpoint/thread/src,
-- endpoint/store/src and endpoint/inbox/src: which texts are identifiers of keys.
pub mod Elements
use privmx_endpoint.Common.{
  leb, ◌==◌, if◌then◌else◌, Result, ok, err, length, take, drop, Bytes, bytes_eq, ℕ, ◌+◌, ◌-◌, Bool,
  true, false, ◌&&◌, ◌||◌, none, some, List, [], ◌∷◌, incorrect_key_id_format,
}
use privmx_endpoint.Utils.Split.{split}

-- One of 0 to 9, a to f and A to F.
unfoldable pub is_hex : ℕ → Bool
is_hex x = (leb 48 x && leb x 57) || (leb 97 x && leb x 102) || (leb 65 x && leb x 70)

unfoldable pub all_hex : Bytes → Bool
unfolding is_hex
all_hex [] = true
all_hex (x ∷ xs) = is_hex x && all_hex xs

unfoldable pub has_default_key_id_format : Bytes → Bool
unfolding all_hex
has_default_key_id_format key_id = (length key_id == 32) && all_hex key_id

unfoldable pub front_is : ℕ → Bytes → Bool
front_is c [] = false
front_is c (x ∷ xs) = x == c

unfoldable pub back_is : ℕ → Bytes → Bool
back_is c [] = false
back_is c (x ∷ []) = x == c
back_is c (x ∷ y ∷ ys) = back_is c (y ∷ ys)

-- The part behind the split; without a prefix the first element is one of the data. The callers ask
-- for 1 and 3 elements, so the sum does not wrap.
unfoldable pub has_elements : Bytes → ℕ → List Bytes → Bool
has_elements prefix data_elements [] = false
has_elements [] data_elements (t ∷ ts) = length (t ∷ ts) == data_elements
has_elements (p ∷ ps) data_elements (t ∷ ts) =
    if bytes_eq t (p ∷ ps) then length (t ∷ ts) == data_elements + 1 else false

-- The character `-`.
abbrev pub dash : Bytes
dash = 45 ∷ []

-- The text between `<` and `>`, split by `-`.
unfoldable pub has_extended_key_id_format : Bytes → Bytes → ℕ → Bool
unfolding front_is back_is has_elements
has_extended_key_id_format key_id prefix data_elements =
    if leb 2 (length key_id) && front_is 60 key_id && back_is 62 key_id
    then (elim (split (take (length key_id - 2) (drop 1 key_id)) dash) [
      | none ↦ false
      | some key_data ↦ has_elements prefix data_elements key_data
    ])
    else false

-- The derived classes.
pub data KeyKind : Type 0 where
  thread_message store_file inbox_message inbox_file : KeyKind

-- `inbox` and `inboxmsg`.
abbrev pub inbox_prefix : Bytes
inbox_prefix = 105 ∷ 110 ∷ 98 ∷ 111 ∷ 120 ∷ []

abbrev pub inboxmsg_prefix : Bytes
inboxmsg_prefix = 105 ∷ 110 ∷ 98 ∷ 111 ∷ 120 ∷ 109 ∷ 115 ∷ 103 ∷ []

unfoldable pub is_key_id_format_valid : KeyKind → Bytes → Bool
unfolding has_default_key_id_format has_extended_key_id_format
is_key_id_format_valid thread_message key_id = has_default_key_id_format key_id
is_key_id_format_valid store_file key_id = has_default_key_id_format key_id
is_key_id_format_valid inbox_message key_id = has_extended_key_id_format key_id inbox_prefix 1
is_key_id_format_valid inbox_file key_id = has_extended_key_id_format key_id inboxmsg_prefix 3

unfoldable pub assert_key_id_format : KeyKind → Bytes → Result (Unit {0})
unfolding is_key_id_format_valid
assert_key_id_format kind key_id =
    if is_key_id_format_valid kind key_id then ok tt else err incorrect_key_id_format
