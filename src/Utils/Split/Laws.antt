-- ===== src/Utils/Split/Laws.antt =====
-- Splitting by a character undoes joining with it.
use privmx_endpoint.Common.{
  ==_refl, length, length-append, Bytes, ℕ, zero, suc, ◌≤◌, ◌<◌, ◌≡◌, refl, ap, ◌∙◌, ◌≢◌, List, [],
  ◌∷◌, ◌++◌, arith, ==-false,
}
use privmx_endpoint.Utils.Split.{get_line, read_lines, split_char}

-- The character is not in the string.
abbrev pub Lacks : ℕ → Bytes → Type 0
Lacks d [] = Unit {0}
Lacks d (x ∷ xs) = (x ≢ d) × Lacks d xs

abbrev pub AllLack : ℕ → List Bytes → Type 0
AllLack d [] = Unit {0}
AllLack d (t ∷ ts) = Lacks d t × AllLack d ts

-- The tokens with the character between them, the first given on its own.
abbrev pub joined_by : ℕ → Bytes → List Bytes → Bytes
joined_by d t [] = t
joined_by d t (u ∷ us) = t ++ d ∷ joined_by d u us

-- The last token is not empty.
abbrev pub EndsFull : Bytes → List Bytes → Type 0
EndsFull t [] = 0 < length t
EndsFull t (u ∷ us) = EndsFull u us

get_line-end : (d : ℕ) (t : Bytes) → Lacks d t → get_line d t ≡ (t, [])
unfolding get_line
get_line-end d [] h = refl
get_line-end d (x ∷ xs) h = rw (==-false x d h.0, get_line-end d xs h.1) refl

get_line-append : (d : ℕ) (t rest : Bytes) → Lacks d t → get_line d (t ++ d ∷ rest) ≡ (t, rest)
unfolding get_line
get_line-append d [] rest h = rw (==_refl d) refl
get_line-append d (x ∷ xs) rest h = rw (==-false x d h.0, get_line-append d xs rest h.1) refl

-- A line of a string that is not empty.
read_lines-step :
    (fuel d : ℕ) (s : Bytes)
    → 0 < length s
    → read_lines (suc fuel) d s ≡ (get_line d s).0 ∷ read_lines fuel d (get_line d s).1
unfolding read_lines
read_lines-step fuel d [] h = absurd (omega arith)
read_lines-step fuel d (x ∷ xs) h = refl

read_lines_empty : (fuel d : ℕ) → read_lines fuel d [] ≡ []
unfolding read_lines
read_lines_empty zero d = refl
read_lines_empty (suc fuel) d = refl

read_lines-joined_by :
    (fuel d : ℕ) (t : Bytes) (ts : List Bytes)
    → length (joined_by d t ts) ≤ fuel
    → AllLack d (t ∷ ts)
    → EndsFull t ts
    → read_lines fuel d (joined_by d t ts) ≡ t ∷ ts
read_lines-joined_by zero d t [] h l e = absurd (omega arith)
read_lines-joined_by zero d t (u ∷ us) h l e =
    absurd (omega (arith, length-append t (d ∷ joined_by d u us)))
read_lines-joined_by (suc fuel) d t [] h l e =
    read_lines-step fuel d t e
    ∙ rw (get_line-end d t l.0) (ap (λ r. t ∷ r) (read_lines_empty fuel d))
read_lines-joined_by (suc fuel) d t (u ∷ us) h l e =
    read_lines-step fuel d (joined_by d t (u ∷ us))
      (omega (arith, length-append t (d ∷ joined_by d u us)))
    ∙ rw (get_line-append d t (joined_by d u us) l.0) (
        ap (λ r. t ∷ r)
          (read_lines-joined_by fuel d u us
            (omega (arith, h, length-append t (d ∷ joined_by d u us))) l.1 e))

-- Segments joined by a character that occurs in none of them are split by it into the same
-- segments, where the last segment is not empty.
pub split_char-joined_by :
    (d : ℕ) (t : Bytes) (ts : List Bytes)
    → AllLack d (t ∷ ts)
    → EndsFull t ts
    → split_char (joined_by d t ts) d ≡ t ∷ ts
unfolding split_char
split_char-joined_by d t ts l e =
    read_lines-joined_by (length (joined_by d t ts)) d t ts (omega arith) l e
