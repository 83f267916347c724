-- ===== src/Utils/VersionNumber/Parsing/Laws.antt =====
-- A version read from text has the numbers that the text shows, or the constructor throws.
use mathlib.Core.Path.{subst}
use privmx_endpoint.Common.{
  ltb, ltb→lt, Bool-cases, two64, Result, ok, err, invalid_version_format, length, Bytes, bytes_eq,
  bytes_eq→eq, ℕ, ◌<◌, ◌≡◌, refl, sym, ap, ◌∙◌, ◌⊎◌, inl, inr, true, ◌&&◌, ◌||◌, Option, none, some,
  List, [], ◌∷◌, ◌++◌, arith, &&_true,
}
use privmx_endpoint.Utils.Split.Search.{joined, split-joined}
use privmx_endpoint.Utils.VersionNumber.{VersionNumber}
use privmx_endpoint.Utils.VersionNumber.Parsing.{
  dot, star, is_digit, all_digits, span_digits, number_from, stoul, is_number, starts_with_digit,
  comment_of, read_build, read_version, parse_tokens, parse_version,
}

span_digits-all : (text : Bytes) → all_digits text ≡ true → span_digits text ≡ (text, [])
unfolding span_digits all_digits
span_digits-all [] h = refl
span_digits-all (x ∷ xs) h =
    let (e, rest) = &&_true (is_digit x) (all_digits xs) h in
    rw (span_digits, e) (ap (λ t. (x ∷ t.0, t.1)) (span_digits-all xs rest))

append-span_digits : (text : Bytes) → (span_digits text).0 ++ (span_digits text).1 ≡ text
unfolding span_digits
append-span_digits [] = refl
append-span_digits (x ∷ xs) = elim (Bool-cases (is_digit x)) [
  | inl e ↦ rw (span_digits, e) (ap (λ l. x ∷ l) (append-span_digits xs))
  | inr e ↦ rw (span_digits, e) refl
]

all_digits-span_digits : (text : Bytes) → all_digits (span_digits text).0 ≡ true
unfolding span_digits all_digits
all_digits-span_digits [] = refl
all_digits-span_digits (x ∷ xs) = elim (Bool-cases (is_digit x)) [
  | inl e ↦ rw (span_digits, e, e) (all_digits-span_digits xs)
  | inr e ↦ rw (span_digits, e) refl
]

-- The text is digits only, at least one, and `n` is their value.
pub record IsNumeral (text : Bytes) (n : ℕ) : Type 0 where
  pub digits : all_digits text ≡ true
  pub value : number_from 0 text ≡ n
  pub some_digit : 0 < length text
  pub fits : n < two64

stoul-cases :
    (text : Bytes)
    → (stoul text ≡ err invalid_version_format)
      ⊎ ((n : ℕ) × (digits : Bytes) × (rest : Bytes) × (stoul text ≡ ok (n, rest))
          × (digits ++ rest ≡ text)
          × IsNumeral digits n)
unfolding stoul
stoul-cases text =
    let digits = (span_digits text).0 in
    elim (Bool-cases (ltb 0 (length digits) && ltb (number_from 0 digits) two64)) [
      | inr e ↦ inl (rw (stoul, e) refl)
      | inl e ↦
          let (a, b) = &&_true (ltb 0 (length digits)) (ltb (number_from 0 digits) two64) e in
          inr (
            number_from 0 digits,
            digits,
            (span_digits text).1,
            rw (stoul, e) refl,
            append-span_digits text,
            record {
              digits = all_digits-span_digits text;
              value = refl;
              some_digit = ltb→lt 0 (length digits) a;
              fits = ltb→lt (number_from 0 digits) two64 b;
            },
          )
    ]

-- A text of digits is read to its end.
stoul-number :
    (text : Bytes)
    → is_number text ≡ true
    → (stoul text ≡ err invalid_version_format)
      ⊎ ((n : ℕ) × (stoul text ≡ ok (n, [])) × IsNumeral text n)
unfolding stoul is_number
stoul-number text h =
    let (a, b) = &&_true (ltb 0 (length text)) (all_digits text) h in
    elim (Bool-cases (ltb 0 (length text) && ltb (number_from 0 text) two64)) [
      | inr e ↦ inl (rw (stoul, span_digits-all text b, e) refl)
      | inl e ↦
          let (a', b') = &&_true (ltb 0 (length text)) (ltb (number_from 0 text) two64) e in
          inr (
            number_from 0 text,
            rw (stoul, span_digits-all text b, e) refl,
            record {
              digits = b;
              value = refl;
              some_digit = ltb→lt 0 (length text) a;
              fits = ltb→lt (number_from 0 text) two64 b';
            },
          )
    ]

-- The build's text: a star, or digits and perhaps a comment behind them.
abbrev pub IsBuild : Bytes → Option ℕ → Option Bytes → Type 0
IsBuild t build comment =
    ((t ≡ star) × (build ≡ none) × (comment ≡ none))
    ⊎ ((n : ℕ) × (digits : Bytes) × (rest : Bytes) × (build ≡ some n)
        × (comment ≡ comment_of rest)
        × (digits ++ rest ≡ t)
        × IsNumeral digits n)

-- The text is the numbers of the version, written with dots between them.
abbrev pub IsText : Bytes → VersionNumber → Type 0
IsText text v =
    (a : Bytes) × (b : Bytes) × IsNumeral a v.major
    × IsNumeral b v.minor
    × (v.version_str ≡ text)
    × (((joined dot (a ∷ b ∷ []) ≡ text) × (v.build ≡ none) × (v.comment ≡ none))
        ⊎ ((t : Bytes) × (joined dot (a ∷ b ∷ t ∷ []) ≡ text) × IsBuild t v.build v.comment))

read_build-cases :
    (t : Bytes)
    → (read_build t ≡ err invalid_version_format)
      ⊎ ((p : Option ℕ × Option Bytes) × (read_build t ≡ ok p) × IsBuild t p.0 p.1)
unfolding read_build
read_build-cases t = elim (Bool-cases (bytes_eq t star)) [
  | inl e ↦ inr ((none, none), rw (read_build, e) refl, inl (bytes_eq→eq t star e, refl, refl))
  | inr e ↦ elim (stoul-cases t) [
    | inl f ↦ inl (rw (read_build, e, f) refl)
    | inr (n, digits, rest, f, whole, number) ↦ inr (
      (some n, comment_of rest),
      rw (read_build, e, f) refl,
      inr (n, digits, rest, refl, refl, whole, number),
    )
  ]
]

read_version-cases :
    (text a b : Bytes) (build : Result (Option ℕ × Option Bytes))
    → is_number a ≡ true
    → is_number b ≡ true
    → (build ≡ err invalid_version_format) ⊎ ((p : Option ℕ × Option Bytes) × (build ≡ ok p))
    → (read_version text a b build ≡ err invalid_version_format)
      ⊎ ((m : ℕ) × (n : ℕ) × (p : Option ℕ × Option Bytes) × (build ≡ ok p)
          × (read_version text a b build
              ≡ ok
                  (record { version_str = text; major = m; minor = n; build = p.0; comment = p.1 }))
          × IsNumeral a m
          × IsNumeral b n)
unfolding read_version
read_version-cases text a b build h k r = elim (stoul-number a h) [
  | inl e ↦ inl (rw (read_version, e) refl)
  | inr (m, e, number) ↦ elim (stoul-number b k) [
    | inl f ↦ inl (rw (read_version, e, f) refl)
    | inr (n, f, number') ↦ elim r [
      | inl g ↦ inl (rw (read_version, e, f, g) refl)
      | inr (p, g) ↦ inr (m, n, p, g, rw (read_version, e, f, g) refl, number, number')
    ]
  ]
]

-- The value of a result, or the pair of nothing.
value_of : Result (Option ℕ × Option Bytes) → Option ℕ × Option Bytes
value_of (ok p) = p
value_of (err e) = (none, none)

abbrev version : Bytes → ℕ → ℕ → Option ℕ × Option Bytes → VersionNumber
version text m n p = record { version_str = text; major = m; minor = n; build = p.0; comment = p.1 }

parse_tokens-cases :
    (text : Bytes) (ts : List Bytes)
    → joined dot ts ≡ text
    → (parse_tokens text ts ≡ err invalid_version_format)
      ⊎ ((v : VersionNumber) × (parse_tokens text ts ≡ ok v) × IsText text v)
unfolding parse_tokens value_of
parse_tokens-cases text [] j = inl refl
parse_tokens-cases text (a ∷ []) j = inl refl
parse_tokens-cases text (a ∷ b ∷ []) j = elim (Bool-cases (is_number a && is_number b)) [
  | inr e ↦ inl (rw (parse_tokens, e) refl)
  | inl e ↦
      let (h, k) = &&_true (is_number a) (is_number b) e in
      elim (read_version-cases text a b (ok (none, none)) h k (inr ((none, none), refl))) [
        | inl f ↦ inl (rw (parse_tokens, e) f)
        | inr (m, n, p, g, f, x, y) ↦ inr (
          version text m n p,
          rw (parse_tokens, e) f,
          (
            a,
            b,
            x,
            y,
            refl,
            inl (j, sym (ap (λ r. (value_of r).0) g), sym (ap (λ r. (value_of r).1) g)),
          ),
        )
      ]
]
parse_tokens-cases text (a ∷ b ∷ t ∷ []) j =
    elim (Bool-cases (is_number a && is_number b && (starts_with_digit t || bytes_eq t star))) [
      | inr e ↦ inl (rw (parse_tokens, e) refl)
      | inl e ↦
          let (hk, d) =
            &&_true (is_number a && is_number b) (starts_with_digit t || bytes_eq t star) e in
          let (h, k) = &&_true (is_number a) (is_number b) hk in
          elim (read_build-cases t) [
            | inl z ↦ elim (read_version-cases text a b (read_build t) h k (inl z)) [
              | inl f ↦ inl (rw (parse_tokens, e) f)
              | inr (m, n, p, g, f, x, y) ↦ absurd (ground (arith, z, g))
            ]
            | inr (q, z, built) ↦
                elim (read_version-cases text a b (read_build t) h k (inr (q, z))) [
                  | inl f ↦ inl (rw (parse_tokens, e) f)
                  | inr (m, n, p, g, f, x, y) ↦ inr (
                    version text m n p,
                    rw (parse_tokens, e) f,
                    (
                      a,
                      b,
                      x,
                      y,
                      refl,
                      inr (t, j, subst (λ w. IsBuild t w.0 w.1) (ap value_of (sym z ∙ g)) built),
                    ),
                  )
                ]
          ]
    ]
parse_tokens-cases text (a ∷ b ∷ t ∷ u ∷ us) j = inl refl

-- For every text, the constructor of a version either throws or returns a version whose text it
-- is: two numerals with a dot between them, without build and comment, or with a second dot and
-- behind it a star, without build and comment, or the numeral of the build and the comment, none
-- where nothing follows the build; the numerals have their values, below 2^64.
pub parse_version-IsText :
    (text : Bytes)
    → (parse_version text ≡ err invalid_version_format)
      ⊎ ((v : VersionNumber) × (parse_version text ≡ ok v) × IsText text v)
unfolding parse_version
parse_version-IsText text =
    let (ts, e, j, free, some_token) = split-joined text dot (omega arith) in
    elim (parse_tokens-cases text ts j) [
      | inl f ↦ inl (rw (parse_version, e) f)
      | inr (v, f, read) ↦ inr (v, rw (parse_version, e) f, read)
    ]
