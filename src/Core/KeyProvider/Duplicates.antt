-- ===== src/Core/KeyProvider/Duplicates.antt =====
-- Of two keys with the same random identifier and timestamp, at least one is refused.
use privmx_endpoint.Common.{
  ◌==◌, ==_refl, Bool-cases, Option-cases, Bytes, bytes_eq, bytes_eq_refl, bytes_eq→eq, ℕ, ◌≡◌,
  refl, sym, ap, ◌∙◌, ◌⊎◌, inl, inr, true, false, ◌&&◌, some, List, [], ◌∷◌, arith,
  data_integrity_object_duplicated, bytes_eq_sym,
}
use privmx_endpoint.Utils.Key.{bytes_key}
use privmx_endpoint.Utils.ThreadSaveMap.{Map, get}
use privmx_endpoint.Core.KeyProvider.{DecryptedEncKey}
use privmx_endpoint.Core.KeyProvider.Checks.{
  is_checked, set_status, first_with, mark_one, mark_duplicates, verify_for_duplication,
}
use privmx_endpoint.Core.KeyProvider.Weakening.{
  Weaker-eq, IsWeaker, Fails, IsWeaker-refl, IsWeaker-trans, IsWeaker-Fails, set_status-IsWeaker,
  set_status-Fails,
}

mark_one-IsWeaker :
    (i : Bytes) (k : DecryptedEncKey) (seen : List (Bytes × ℕ × Bytes))
    (keys : Map Bytes DecryptedEncKey)
    → IsWeaker (mark_one i k seen keys).1 keys
unfolding mark_one
mark_one-IsWeaker i k seen keys = elim (Bool-cases (is_checked k)) [
  | inr skipped ↦ rw skipped (IsWeaker-refl keys)
  | inl checked ↦ elim (Option-cases (first_with k.dio.random_id k.dio.timestamp seen)) [
    | inl new ↦ rw (checked, new) (IsWeaker-refl keys)
    | inr (first, old) ↦
        let one = set_status i data_integrity_object_duplicated keys in
        let two = set_status first data_integrity_object_duplicated one in
        rw (checked, old)
          (IsWeaker-trans two one keys
            (set_status-IsWeaker first data_integrity_object_duplicated one)
            (set_status-IsWeaker i data_integrity_object_duplicated keys))
  ]
]

pub mark_duplicates-IsWeaker :
    (rest : Map Bytes DecryptedEncKey) (seen : List (Bytes × ℕ × Bytes))
    (keys : Map Bytes DecryptedEncKey)
    → IsWeaker (mark_duplicates rest seen keys) keys
unfolding mark_duplicates
mark_duplicates-IsWeaker [] seen keys = IsWeaker-refl keys
mark_duplicates-IsWeaker ((i, k) ∷ rest) seen keys =
    let marked = mark_one i k seen keys in
    IsWeaker-trans (mark_duplicates rest marked.0 marked.1) marked.1 keys
      (mark_duplicates-IsWeaker rest marked.0 marked.1) (mark_one-IsWeaker i k seen keys)

abbrev IsSeen : DecryptedEncKey → List (Bytes × ℕ × Bytes) → Type 0
IsSeen k seen = (f : Bytes) × (first_with k.dio.random_id k.dio.timestamp seen ≡ some f)

IsSeen-cons :
    (k : DecryptedEncKey) (r : Bytes) (t : ℕ) (i : Bytes) (seen : List (Bytes × ℕ × Bytes))
    → IsSeen k seen
    → IsSeen k ((r, t, i) ∷ seen)
unfolding first_with
IsSeen-cons k r t i seen (f, h) =
    elim (Bool-cases (bytes_eq k.dio.random_id r && (k.dio.timestamp == t))) [
      | inl new ↦ (i, rw new refl)
      | inr old ↦ (f, rw old h)
    ]

-- A pair that has been seen stays seen.
mark_one-IsSeen :
    (b : DecryptedEncKey) (i : Bytes) (k : DecryptedEncKey) (seen : List (Bytes × ℕ × Bytes))
    (keys : Map Bytes DecryptedEncKey)
    → IsSeen b seen
    → IsSeen b (mark_one i k seen keys).0
unfolding mark_one
mark_one-IsSeen b i k seen keys h = elim (Bool-cases (is_checked k)) [
  | inr skipped ↦ rw skipped h
  | inl checked ↦ elim (Option-cases (first_with k.dio.random_id k.dio.timestamp seen)) [
    | inl new ↦ rw (checked, new) (IsSeen-cons b k.dio.random_id k.dio.timestamp i seen h)
    | inr (first, old) ↦ rw (checked, old) h
  ]
]

-- The pair of a checked key has been seen behind it.
mark_one-IsSeen_self :
    (i : Bytes) (k : DecryptedEncKey) (seen : List (Bytes × ℕ × Bytes))
    (keys : Map Bytes DecryptedEncKey)
    → is_checked k ≡ true
    → IsSeen k (mark_one i k seen keys).0
unfolding mark_one first_with
mark_one-IsSeen_self i k seen keys checked =
    elim (Option-cases (first_with k.dio.random_id k.dio.timestamp seen)) [
      | inl new ↦
          (i, rw (checked, new, bytes_eq_refl k.dio.random_id, ==_refl k.dio.timestamp) refl)
      | inr (first, old) ↦ (first, rw (checked, old) old)
    ]

-- A checked key whose pair has been seen fails.
mark_one-Fails :
    (i : Bytes) (k : DecryptedEncKey) (seen : List (Bytes × ℕ × Bytes))
    (keys : Map Bytes DecryptedEncKey) (f : Bytes)
    → is_checked k ≡ true
    → first_with k.dio.random_id k.dio.timestamp seen ≡ some f
    → Fails (mark_one i k seen keys).1 i
unfolding mark_one
mark_one-Fails i k seen keys f checked old =
    let one = set_status i data_integrity_object_duplicated keys in
    rw (checked, old)
      (IsWeaker-Fails (set_status f data_integrity_object_duplicated one) one i
        (set_status-IsWeaker f data_integrity_object_duplicated one)
        (set_status-Fails i data_integrity_object_duplicated keys))

-- A checked key whose pair has been seen in front of it fails.
seen-Fails :
    (rest : Map Bytes DecryptedEncKey) (seen : List (Bytes × ℕ × Bytes))
    (keys : Map Bytes DecryptedEncKey) (j : Bytes) (b : DecryptedEncKey)
    → get j rest ≡ some b
    → is_checked b ≡ true
    → IsSeen b seen
    → Fails (mark_duplicates rest seen keys) j
unfolding mark_duplicates get
seen-Fails [] seen keys j b found checked old = ground (arith, found)
seen-Fails ((i, k) ∷ rest) seen keys j b found checked old =
    let marked = mark_one i k seen keys in
    elim (Bool-cases (bytes_eq j i)) [
      | inr past ↦
          seen-Fails rest marked.0 marked.1 j b (rw past at found) checked
            (mark_one-IsSeen b i k seen keys old)
      | inl here ↦
          let same : b ≡ k = cc (rw here at found) in
          IsWeaker-Fails (mark_duplicates rest marked.0 marked.1) marked.1 j
            (mark_duplicates-IsWeaker rest marked.0 marked.1)
            (rw (bytes_eq→eq j i here) (
              mark_one-Fails i k seen keys old.0 (rw same at checked) (
                ap (λ (x : DecryptedEncKey). first_with x.dio.random_id x.dio.timestamp seen)
                  (sym same)
                ∙ old.1)))
    ]

-- The same for a key at the front and another one behind it.
front-Fails :
    (x : Bytes) (k : DecryptedEncKey) (rest : Map Bytes DecryptedEncKey)
    (seen : List (Bytes × ℕ × Bytes)) (keys : Map Bytes DecryptedEncKey) (i j : Bytes)
    (a b : DecryptedEncKey)
    → bytes_eq i x ≡ true
    → get i ((x, k) ∷ rest) ≡ some a
    → get j ((x, k) ∷ rest) ≡ some b
    → bytes_eq j x ≡ false
    → is_checked a ≡ true
    → is_checked b ≡ true
    → a.dio.random_id ≡ b.dio.random_id
    → a.dio.timestamp ≡ b.dio.timestamp
    → Fails (mark_duplicates ((x, k) ∷ rest) seen keys) j
unfolding mark_duplicates get
front-Fails x k rest seen keys i j a b here fa fb past ca cb er et =
    let marked = mark_one x k seen keys in
    let same : k ≡ a = cc (rw here at fa) in
    let (f, h) = mark_one-IsSeen_self x k seen keys (ap is_checked same ∙ ca) in
    seen-Fails rest marked.0 marked.1 j b (rw past at fb) cb (
      f,
      ap (λ r. first_with r b.dio.timestamp marked.0)
            (sym er ∙ ap (λ (y : DecryptedEncKey). y.dio.random_id) (sym same))
          ∙ ap (λ t. first_with k.dio.random_id t marked.0)
              (sym et ∙ ap (λ (y : DecryptedEncKey). y.dio.timestamp) (sym same))
          ∙ h,
    )

-- Of two checked keys with the same pair, one fails.
duplicate-Fails :
    (rest : Map Bytes DecryptedEncKey) (seen : List (Bytes × ℕ × Bytes))
    (keys : Map Bytes DecryptedEncKey) (i j : Bytes) (a b : DecryptedEncKey)
    → get i rest ≡ some a
    → get j rest ≡ some b
    → bytes_eq i j ≡ false
    → is_checked a ≡ true
    → is_checked b ≡ true
    → a.dio.random_id ≡ b.dio.random_id
    → a.dio.timestamp ≡ b.dio.timestamp
    → Fails (mark_duplicates rest seen keys) i ⊎ Fails (mark_duplicates rest seen keys) j
unfolding mark_duplicates get
duplicate-Fails [] seen keys i j a b fa fb ne ca cb er et = ground (arith, fa)
duplicate-Fails ((x, k) ∷ rest) seen keys i j a b fa fb ne ca cb er et =
    elim (Bool-cases (bytes_eq i x)) [
      | inl here ↦ inr (
          front-Fails x k rest seen keys i j a b here fa fb
            (rw (bytes_eq→eq i x here, bytes_eq_sym x j) at ne) ca cb er et)
      | inr past ↦ elim (Bool-cases (bytes_eq j x)) [
        | inl here ↦
            inl (front-Fails x k rest seen keys j i b a here fb fa past cb ca (sym er) (sym et))
        | inr beyond ↦
            let marked = mark_one x k seen keys in
            duplicate-Fails rest marked.0 marked.1 i j a b (rw past at fa) (rw beyond at fb) ne ca
              cb er et
      ]
    ]

-- Of two keys that have a creator and no failure after the check, the random identifiers or the
-- timestamps differ.
pub verify_for_duplication-Fails :
    (keys : Map Bytes DecryptedEncKey) (i j : Bytes) (a b : DecryptedEncKey)
    → get i (verify_for_duplication keys) ≡ some a
    → get j (verify_for_duplication keys) ≡ some b
    → bytes_eq i j ≡ false
    → is_checked a ≡ true
    → is_checked b ≡ true
    → ¬ ((a.dio.random_id ≡ b.dio.random_id) × (a.dio.timestamp ≡ b.dio.timestamp))
unfolding verify_for_duplication
verify_for_duplication-Fails keys i j a b fa fb ne ca cb same =
    let (a0, fa0, wa) = mark_duplicates-IsWeaker keys [] keys i a fa in
    let (b0, fb0, wb) = mark_duplicates-IsWeaker keys [] keys j b fb in
    let ea : a ≡ a0 = Weaker-eq a a0 wa (ground (arith, ca)) in
    let eb : b ≡ b0 = Weaker-eq b b0 wb (ground (arith, cb)) in
    elim (duplicate-Fails keys [] keys i j a b (fa0 ∙ ap some (sym ea)) (fb0 ∙ ap some (sym eb)) ne
      ca cb same.0 same.1) [
        | inl f ↦ absurd (ground (arith, f a fa, ca))
        | inr f ↦ absurd (ground (arith, f b fb, cb))
      ]
