-- ===== src/Core/KeyIdFormatValidator/Elements.antt =====
-- The identifiers that the extended format accepts.
use privmx_endpoint.Common.{
  leb, ==_iff, Bool-cases, length, take, drop, Bytes, bytes_eq, bytes_eq→eq, ℕ, suc, ◌-◌, ◌≡◌, sym,
  ap, ◌∙◌, inl, inr, true, ◌&&◌, List, [], ◌∷◌, ◌++◌, arith, &&_true,
}
use mathlib.Core.Path.{subst}
use privmx_endpoint.Utils.Split.Search.{joined, AreFree, split-joined}
use privmx_endpoint.Core.KeyIdFormatValidator.{
  front_is, back_is, has_elements, dash, has_extended_key_id_format,
}

back_is-append : (c : ℕ) (s : Bytes) → back_is c s ≡ true → take (length s - 1) s ++ (c ∷ []) ≡ s
unfolding back_is
back_is-append c [] h = ground arith
back_is-append c (x ∷ []) h = ground (arith, h)
back_is-append c (x ∷ y ∷ ys) h =
    ap (λ k. take k (x ∷ y ∷ ys) ++ (c ∷ [])) {x = length (x ∷ y ∷ ys) - 1} {y = suc (length ys)}
      (omega arith)
    ∙ ap (λ l. x ∷ l)
        (ap (λ k. take k (y ∷ ys) ++ (c ∷ [])) {x = length ys} {y = length (y ∷ ys) - 1}
            (omega arith)
          ∙ back_is-append c (y ∷ ys) h)

-- In brackets stand the prefix and the given number of elements behind it, with dashes between them
-- and none within them.
abbrev pub IsExtended : Bytes → Bytes → ℕ → Type 0
IsExtended key_id prefix data_elements =
    (ts : List Bytes) × (length ts ≡ data_elements)
    × AreFree dash (prefix ∷ ts)
    × (60 ∷ (joined dash (prefix ∷ ts) ++ (62 ∷ [])) ≡ key_id)

has_elements-length :
    (p : ℕ) (ps : Bytes) (n : ℕ) (tokens : List Bytes)
    → has_elements (p ∷ ps) n tokens ≡ true
    → (ts : List Bytes) × (length ts ≡ n) × (tokens ≡ (p ∷ ps) ∷ ts)
unfolding has_elements
has_elements-length p ps n [] h = ground arith
has_elements-length p ps n (t ∷ ts) h = elim (Bool-cases (bytes_eq t (p ∷ ps))) [
  | inr e ↦ absurd (ground (arith, h, e))
  | inl e ↦ (ts, ground (arith, h, e), ap (λ l. l ∷ ts) (bytes_eq→eq t (p ∷ ps) e))
]

in_brackets :
    (key_id : Bytes)
    → (leb 2 (length key_id) && front_is 60 key_id && back_is 62 key_id) ≡ true
    → 60 ∷ (take (length key_id - 2) (drop 1 key_id) ++ (62 ∷ [])) ≡ key_id
unfolding front_is
in_brackets [] h = ground (arith, h)
in_brackets (x ∷ []) h = ground (arith, h)
in_brackets (x ∷ y ∷ ys) h =
    let (l, back) =
      &&_true (leb 2 (length (x ∷ y ∷ ys)) && front_is 60 (x ∷ y ∷ ys)) (back_is 62 (x ∷ y ∷ ys))
        h in
    let (size, front) = &&_true (leb 2 (length (x ∷ y ∷ ys))) (front_is 60 (x ∷ y ∷ ys)) l in
    ap (λ k. 60 ∷ (take k (y ∷ ys) ++ (62 ∷ []))) {x = length (x ∷ y ∷ ys) - 2}
      {y = length (y ∷ ys) - 1} (omega arith)
    ∙ ap (λ l. 60 ∷ l) (back_is-append 62 (y ∷ ys) (unfold back_is in back))
    ∙ ap (λ c. c ∷ y ∷ ys) (sym ((==_iff x 60).0 front))

-- A key identifier that the extended format accepts for a prefix that is not empty is the prefix
-- and as many elements as asked for, with dashes between them and none within them, in angle
-- brackets.
pub has_extended_key_id_format-IsExtended :
    (key_id : Bytes) (p : ℕ) (ps : Bytes) (data_elements : ℕ)
    → has_extended_key_id_format key_id (p ∷ ps) data_elements ≡ true
    → IsExtended key_id (p ∷ ps) data_elements
unfolding has_extended_key_id_format
has_extended_key_id_format-IsExtended key_id p ps n h =
    elim (Bool-cases (leb 2 (length key_id) && front_is 60 key_id && back_is 62 key_id)) [
      | inr e ↦ absurd (ground (arith, h, e))
      | inl e ↦
          let (tokens, found, j, free, some_token) =
            split-joined (take (length key_id - 2) (drop 1 key_id)) dash (omega arith) in
          let (ts, size, tokens_eq) = has_elements-length p ps n tokens (rw (e, found) at h) in
          (
            ts,
            size,
            subst (AreFree dash) tokens_eq free,
            ap (λ l. 60 ∷ (joined dash l ++ (62 ∷ []))) (sym tokens_eq)
                ∙ ap (λ l. 60 ∷ (l ++ (62 ∷ []))) j
                ∙ in_brackets key_id e,
          )
    ]
