-- ===== src/Utils/Split.antt =====
-- utils/src/Utils.cpp, the two functions `Utils::split`: by a character, which reads with
-- `std::getline`, and by a string, which searches.
pub mod Laws
pub mod Search
use mathlib.Core.Option
use privmx_endpoint.Common.{
  ◌==◌, if◌then◌else◌, length, take, drop, Bytes, ℕ, zero, suc, ◌+◌, Bool, true, false, ◌&&◌,
  Option, none, some, List, [], ◌∷◌, map,
}

-- `std::getline`: what stands in front of the first delimiter, and what is left behind it.
unfoldable pub get_line : ℕ → Bytes → Bytes × Bytes
get_line delimiter [] = ([], [])
get_line delimiter (x ∷ xs) =
    let rest = get_line delimiter xs in if x == delimiter then ([], xs) else (x ∷ rest.0, rest.1)

-- The loop ends where nothing is left to read: an empty segment at the end is none. The fuel is the
-- number of lines; the length of the string is enough.
unfoldable pub read_lines : ℕ → ℕ → Bytes → List Bytes
read_lines zero delimiter text = []
read_lines (suc fuel) delimiter [] = []
read_lines (suc fuel) delimiter (x ∷ xs) =
    let line = get_line delimiter (x ∷ xs) in line.0 ∷ read_lines fuel delimiter line.1

unfoldable pub split_char : Bytes → ℕ → List Bytes
unfolding read_lines
split_char text delimiter = read_lines (length text) delimiter text

unfoldable pub starts_with : Bytes → Bytes → Bool
starts_with [] text = true
starts_with (d ∷ ds) [] = false
starts_with (d ∷ ds) (x ∷ xs) = (d == x) && starts_with ds xs

-- `text.find(delimiter)`.
unfoldable pub find : Bytes → Bytes → Option ℕ
find delimiter [] = if starts_with delimiter [] then some 0 else none
find delimiter (x ∷ xs) =
    let later = find delimiter xs in
    if starts_with delimiter (x ∷ xs) then some 0 else Option.map suc later

abbrev push_front : Bytes → Option (List Bytes) → Option (List Bytes)
push_front token none = none
push_front token (some tokens) = some (token ∷ tokens)

-- The loop; `none` where the fuel, the number of searches, runs out.
unfoldable pub split_loop : ℕ → Bytes → Bytes → Option (List Bytes)
split_loop zero delimiter text = none
split_loop (suc fuel) delimiter text = elim (find delimiter text) [
  | none ↦ some (text ∷ [])
  | some pos ↦
      push_front (take pos text) (split_loop fuel delimiter (drop (pos + length delimiter) text))
]

unfoldable pub split : Bytes → Bytes → Option (List Bytes)
unfolding split_loop
split text delimiter = split_loop (length text + 1) delimiter text
