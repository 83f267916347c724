-- ===== src/Utils/Split/Search.antt =====
-- Splitting by a string: it ends, the tokens joined give the string, and no token holds the delimiter.
use privmx_endpoint.Common.{
  Bool-cases, length, take, drop, length-drop, Bytes, ℕ, zero, suc, ◌+◌, ◌≤◌, ◌<◌, ◌≡◌, refl, sym,
  ap, ◌∙◌, ◌⊎◌, inl, inr, true, false, none, some, List, [], ◌∷◌, ◌++◌, arith,
}
use privmx_endpoint.Utils.Split.{starts_with, find, split, split_loop}

-- The tokens with the delimiter between them.
abbrev pub joined : Bytes → List Bytes → Bytes
joined d [] = []
joined d (t ∷ []) = t
joined d (t ∷ u ∷ us) = t ++ (d ++ joined d (u ∷ us))

-- The delimiter is found in no token.
abbrev pub AreFree : Bytes → List Bytes → Type 0
AreFree d [] = Unit {0}
AreFree d (t ∷ ts) = (find d t ≡ none) × AreFree d ts

starts_with-eq : (d s : Bytes) → starts_with d s ≡ true → s ≡ d ++ drop (length d) s
unfolding starts_with
starts_with-eq [] s h = refl
starts_with-eq (d ∷ ds) [] h = ground arith
starts_with-eq (d ∷ ds) (x ∷ xs) h = ground (arith, starts_with-eq ds xs)

starts_with-take :
    (d s : Bytes) (n : ℕ) → starts_with d s ≡ false → starts_with d (take n s) ≡ false
unfolding starts_with
starts_with-take [] s n h = h
starts_with-take (d ∷ ds) s zero h = refl
starts_with-take (d ∷ ds) [] (suc n) h = refl
starts_with-take (d ∷ ds) (x ∷ xs) (suc n) h = ground (arith, starts_with-take ds xs n)

-- Where the search ends, the delimiter stands, and it stands nowhere before.
abbrev IsFirst : Bytes → Bytes → ℕ → Type 0
IsFirst d s p =
    (take p s ++ (d ++ drop (p + length d) s) ≡ s)
    × (find d (take p s) ≡ none)
    × (p + length d ≤ length s)

length-starts_with : (d s : Bytes) → starts_with d s ≡ true → length d ≤ length s
unfolding starts_with
length-starts_with [] s h = omega arith
length-starts_with (d ∷ ds) [] h = ground arith
length-starts_with (d ∷ ds) (x ∷ xs) h = ground (arith, length-starts_with ds xs)

find_empty : (d : Bytes) → 0 < length d → find d [] ≡ none
unfolding find starts_with
find_empty [] h = absurd (omega arith)
find_empty (d ∷ ds) h = refl

here : (d s : Bytes) → 0 < length d → starts_with d s ≡ true → IsFirst d s 0
here d s k t = (
  ap (λ n. d ++ drop n s) {y = length d} (omega arith) ∙ sym (starts_with-eq d s t),
  find_empty d k,
  omega (arith, length-starts_with d s t),
)

later :
    (d xs : Bytes) (x p : ℕ)
    → starts_with d (x ∷ xs) ≡ false
    → IsFirst d xs p
    → IsFirst d (x ∷ xs) (suc p)
unfolding find
later d xs x p f h = (
  ap (λ n. x ∷ (take p xs ++ (d ++ drop n (x ∷ xs)))) {y = suc (p + length d)} (omega arith)
      ∙ ap (λ l. x ∷ l) h.0,
  rw (starts_with-take d (x ∷ xs) (suc p) f, h.1) refl,
  omega (arith, h.2),
)

find-cases :
    (d s : Bytes)
    → 0 < length d
    → (find d s ≡ none) ⊎ ((p : ℕ) × (find d s ≡ some p) × IsFirst d s p)
unfolding find
find-cases d [] k = inl (find_empty d k)
find-cases d (x ∷ xs) k = elim (Bool-cases (starts_with d (x ∷ xs))) [
  | inl t ↦ inr (0, rw (find, t) refl, here d (x ∷ xs) k t)
  | inr f ↦ elim (find-cases d xs k) [
    | inl n ↦ inl (rw (find, f, n) refl)
    | inr q ↦ inr (suc q.0, rw (find, f, q.1) refl, later d xs x q.0 f q.2)
  ]
]

-- What the loop gives.
record IsSplit (d s : Bytes) (ts : List Bytes) : Type 0 where
  all : joined d ts ≡ s
  free : AreFree d ts
  some_token : 0 < length ts

push-IsSplit :
    (d s : Bytes) (p : ℕ) (ts : List Bytes)
    → IsFirst d s p
    → IsSplit d (drop (p + length d) s) ts
    → IsSplit d s (take p s ∷ ts)
push-IsSplit d s p [] f i = absurd (omega (arith, i.some_token))
push-IsSplit d s p (t ∷ ts) f i = record {
  all = ap (λ l. take p s ++ (d ++ l)) i.all ∙ f.0;
  free = (f.1, i.free);
  some_token = omega arith;
}

split_loop-IsSplit :
    (fuel : ℕ) (d s : Bytes)
    → 0 < length d
    → length s < fuel
    → (ts : List Bytes) × (split_loop fuel d s ≡ some ts) × IsSplit d s ts
unfolding split_loop
split_loop-IsSplit zero d s k h = absurd (omega arith)
split_loop-IsSplit (suc fuel) d s k h = elim (find-cases d s k) [
  | inl n ↦ (
    s ∷ [],
    rw (split_loop, n) refl,
    record { all = refl; free = (n, tt); some_token = omega arith },
  )
  | inr q ↦
      let r =
        split_loop-IsSplit fuel d (drop (q.0 + length d) s) k
          (omega (arith, length-drop (q.0 + length d) s, q.2.2)) in
      (take q.0 s ∷ r.0, rw (split_loop, q.1, r.1) refl, push-IsSplit d s q.0 r.0 q.2 r.2)
]

-- With a delimiter that is not empty, the loop of split ends within one round more than the text
-- has bytes; the tokens, of which there is at least one, joined by the delimiter are the text, and
-- no token contains the delimiter.
pub split-joined :
    (s d : Bytes)
    → 0 < length d
    → (ts : List Bytes) × (split s d ≡ some ts) × (joined d ts ≡ s) × AreFree d ts × (0 < length ts)
unfolding split
split-joined s d k =
    let r = split_loop-IsSplit (length s + 1) d s k (omega arith) in
    (r.0, r.1, r.2.all, r.2.free, r.2.some_token)
